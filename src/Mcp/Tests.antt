-- ===== src/Mcp/Tests.antt =====
-- Witnesses and tests of the MCP server: every value of JSON is a text, and each of its fields is
-- the text itself.
use trytet.Prelude.{
  ◌≡◌, refl, false, true, not, none, some, List, [], ◌∷◌, ℕ, bytes_eq, contains, codes,
}
use trytet.Cartridge.{Wasm, Outcome, CallResult, Val}
use trytet.Economy.Examples.{plain_crypto, plain_hex}
use trytet.Economy.Vouchers
use trytet.Mesh
use trytet.Sandbox.{Runtime, Inner, engine_error}
use trytet.Mcp.{Json, register_tool}
use trytet.Mcp.Requests.{Moment, Errors, McpServer, malformed, invoke_tool, tool_list}
use trytet.Mcp.Listing.{is_not_found, tool_names, invoke_tool-listed}
use trytet.Mcp.Lines.{Input, run}
use trytet.Mcp.Ending.{is_cut, run-ends}

abbrev json : Json
json = record {
  Value = List ℕ;
  null = [];
  field = λ v key. v;
  as_str = λ v. some v;
  as_u64 = λ v. none;
  print_object = λ fields. [];
  print_str = λ text. text;
  print_number = λ n. n ∷ [];
}

-- Cartridges answer with their payload.
abbrev wasm : Wasm
wasm = record {
  Component = List ℕ;
  Instance = List ℕ;
  compile = λ bytes. Outcome.done bytes;
  set_fuel = λ fuel. Outcome.done tt;
  host_api = Outcome.done tt;
  host_fetch = Outcome.done tt;
  instantiate = λ component fuel memory. Outcome.done component;
  interface_func = λ i. true;
  plain_func = λ i. false;
  call = λ i interface payload. (CallResult.returned (Val.string payload), 40);
  debug = λ v. [];
}

abbrev runtime : Runtime
runtime = record {
  display = λ e. [];
  execute_inner = λ mesh bytes req parent. Inner.error (engine_error []) mesh;
}

abbrev errors : Errors
errors = record { cartridge = λ e. []; engine = λ e. [] }

abbrev moment : Moment
moment = record {
  now = 1000;
  fresh_id = codes "a";
  snapshot_id = codes "b";
  resolve = λ alias. none;
  duration_us = 7;
}

abbrev server : McpServer wasm (List ℕ)
unfolding register_tool
server = record {
  sandbox = record {
    require_payment = false;
    voucher_manager = Vouchers.new [];
    snapshots = [];
    active_memories = [];
    mesh = Mesh.new;
  };
  cache = [];
  cartridge_dirs = [];
  extra_cartridges = register_tool [] (codes "adder") (codes "add") (codes "add.wasm") 100 1;
}

invoke_tool-listed_example :
    is_not_found
      (invoke_tool plain_crypto plain_hex runtime json wasm
        (λ dir path. none)
        errors
        moment
        server
        []
        (codes "adder")).0
    ≡ not (contains (codes "adder") (tool_names (tool_list server.extra_cartridges)))
unfolding trytet.Mcp.unwrap_or_empty
invoke_tool-listed_example =
    invoke_tool-listed plain_crypto plain_hex runtime json wasm (λ dir path. none) errors moment
      server [] (codes "adder")

-- No line is a request.
abbrev input :
    Input plain_crypto plain_hex runtime json wasm {Dir = List ℕ} (λ dir path. none) errors
input = record {
  lossy = λ bytes. bytes;
  is_blank = λ line. false;
  parse = λ line. malformed [];
  moment = λ round. moment;
}

-- Two lines, the first of them in two buffers.
run-ends_example :
    is_cut (
      run plain_crypto plain_hex runtime json wasm
        (λ dir path. none)
        errors
        input
        server
        ((1 ∷ []) ∷ (2 ∷ 10 ∷ 3 ∷ []) ∷ []))
    ≡ false
run-ends_example =
    run-ends plain_crypto plain_hex runtime json wasm (λ dir path. none) errors input refl server
      ((1 ∷ []) ∷ (2 ∷ 10 ∷ 3 ∷ []) ∷ [])
