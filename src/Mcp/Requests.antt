-- ===== src/Mcp/Requests.antt =====
-- src/mcp/server.rs: the requests of a client and their answers.
use trytet.Prelude.{
  ℕ, ◌%◌, ◌^◌, Bool, true, false, Option, none, some, List, [], ◌∷◌, ◌++◌, map, ◌==◌, bytes_eq,
  codes, if◌then◌else◌,
}
use trytet.Cartridge
use trytet.Cartridge.{Wasm, CartridgeError}
use trytet.Economy.Crypto.{Ed25519, Hex}
use trytet.Engine.{TetExecutionRequest}
use trytet.Mcp.{
  CartridgeDef, method_not_found, invalid_params, internal_error, parse_error, Tool, RpcResult,
  initialized, tools, content, Response, make_response, make_error, Json, all_cartridges,
  find_cartridge, ensure_loaded, unwrap_or_empty, build_payload,
}
use trytet.Mesh.{TetMetadata}
use trytet.Sandbox
use trytet.Sandbox.{WasmtimeSandbox, Executed, Runtime, TetError, Stored}

-- The description of a tool and the arguments that it requires.
unfoldable pub describe : List ℕ → Tool
describe name =
    let tool : List ℕ → List (List ℕ) → Tool = λ description required. record {
      name = name;
      description = description;
      required = required;
    } in
    if name == codes "trytet_js_evaluator"
    then tool (codes "Execute JavaScript code in an uncrashable WebAssembly sandbox.")
        (codes "code" ∷ [])
    else if name == codes "trytet_regex_evaluator"
    then tool (codes "Run regex patterns safely in a ReDoS-protected sandbox.")
        (codes "pattern" ∷ codes "input" ∷ [])
    else if name == codes "trytet_jmespath_evaluator"
    then tool (codes "Query JSON data with JMESPath expressions.")
        (codes "expression" ∷ codes "json" ∷ [])
    else if name == codes "trytet_scraper"
    then tool (codes "Fetch a URL and return its content.") (codes "url" ∷ [])
    else if name == codes "trytet_structured_data"
    then tool (codes "Filter, sort, and paginate JSON arrays with SQL-like operations.")
        (codes "data" ∷ [])
    else if name == codes "trytet_execute"
    then tool (codes "Execute JavaScript or Python code in a fuel-metered WebAssembly sandbox.")
        (codes "code" ∷ [])
    else if name == codes "trytet_snapshot"
    then tool (codes "Capture the memory and filesystem state of a running agent.")
        (codes "agent_id" ∷ [])
    else if name == codes "trytet_fork"
    then tool (codes "Fork a new agent from a saved snapshot.") (codes "snapshot_id" ∷ [])
    else tool [] []

-- The tools of cartridges, then the three others.
unfoldable pub tool_list : List CartridgeDef → List Tool
unfolding describe all_cartridges
tool_list extra_cartridges =
    map (λ def. describe def.name) (all_cartridges extra_cartridges)
    ++ describe (codes "trytet_execute")
      ∷ describe (codes "trytet_snapshot")
      ∷ describe (codes "trytet_fork")
      ∷ []

-- What a request finds: the time, fresh identifiers, and the answer of the mesh for an alias.
pub record Moment : Type 0 where
  pub now : ℕ
  pub fresh_id : List ℕ
  pub snapshot_id : List ℕ
  pub resolve : List ℕ → Option TetMetadata
  pub duration_us : ℕ

pub record JsonRpcRequest (json : Json) : Type 0 where
  pub id : json.Value
  pub method : List ℕ
  pub params : json.Value

-- The texts of errors.
pub record Errors : Type 0 where
  pub cartridge : CartridgeError → List ℕ
  pub engine : TetError → List ℕ

-- `McpServer`; the cache is the sandbox's, and stands beside it.
pub record McpServer (wasm : Wasm) (Dir : Type 0) : Type 0 where
  pub sandbox : WasmtimeSandbox
  pub cache : Cartridge.Cache wasm
  pub cartridge_dirs : List Dir
  pub extra_cartridges : List CartridgeDef

abbrev pub u64_or : ℕ → Option ℕ → ℕ
u64_or d none = d
u64_or d (some n) = n

abbrev pub str_or : List ℕ → Option (List ℕ) → List ℕ
str_or d none = d
str_or d (some t) = t

unfoldable pub is_empty : List ℕ → Bool
is_empty [] = true
is_empty (c ∷ text) = false

unfoldable pub fork_request : List ℕ → TetExecutionRequest
fork_request snapshot_id = record {
  payload = none;
  alias = none;
  env = [];
  injected_files = [];
  allocated_fuel = 5000000;
  max_memory_mb = 64;
  parent_snapshot_id = some snapshot_id;
  target_function = none;
  call_depth = 0;
  voucher = none;
  manifest = none;
  egress_policy = none;
}

module _ (json : Json) (wasm : Wasm) {Dir : Type 0} (read : Dir → List (List ℕ) → Option (List ℕ))
    (errors : Errors) where
  open json use {Value, null, field, as_str, as_u64, print_object, print_str, print_number}

  abbrev pub Server : Type 0
  Server = McpServer wasm Dir

  abbrev pub Answer : Type 0
  Answer = Response Value × Server

  -- The text and the error flag of a tool's run.
  unfoldable pub tool_content : Cartridge.Invoked → RpcResult
  tool_content (Cartridge.Invoked.ok out metrics) = content out false
  tool_content (Cartridge.Invoked.err CartridgeError.fuel_exhausted) =
      content (codes "Your code ran out of execution fuel. Try breaking it into smaller steps.")
        true
  tool_content (Cartridge.Invoked.err CartridgeError.memory_exceeded) =
      content (codes "Your code exceeded the memory limit. Try using less memory.") true
  tool_content (Cartridge.Invoked.err (CartridgeError.execution_error msg consumed)) =
      content msg true
  tool_content (Cartridge.Invoked.err e) =
      content
        (codes "Sandbox stopped: "
          ++ (errors.cartridge e ++ codes ". This protects the system from runaway code."))
        true

  abbrev pub loaded : Server → List ℕ → List ℕ → Server
  unfolding ensure_loaded
  loaded s cid fname = record s {
    cache = ensure_loaded read wasm s.cartridge_dirs s.cache cid fname;
  }

  unfoldable pub invoke_cartridge : Moment → Server → Value → CartridgeDef → Value → Answer
  unfolding ensure_loaded build_payload Cartridge.invoke tool_content
  invoke_cartridge moment s id def args =
      let s' = loaded s def.cid def.fname in
      (
        make_response id (
            tool_content (
              Cartridge.invoke wasm s'.cache def.cid (build_payload json def.name args) def.fuel
                def.memory_mb moment.duration_us)),
        s',
      )

  unfoldable pub call_cartridge :
      Moment → Server → Value → Value → List ℕ → Option CartridgeDef → Answer
  unfolding invoke_cartridge
  call_cartridge moment s id args name none =
      (make_error id method_not_found (codes "Tool not found: " ++ name), s)
  call_cartridge moment s id args name (some def) = invoke_cartridge moment s id def args

  -- The report of a run as text.
  unfoldable pub execute_content : Cartridge.Invoked → RpcResult
  execute_content (Cartridge.Invoked.ok out metrics) =
      content
        (codes "{\"stdout\":"
          ++ (print_str out
              ++ (codes ",\"stderr\":\"\",\"fuel_used\":"
                  ++ (print_number metrics.fuel_consumed
                      ++ codes ",\"memory_kb\":0,\"traps\":[]}"))))
        false
  execute_content (Cartridge.Invoked.err CartridgeError.fuel_exhausted) =
      content
        (codes
          "{\"stdout\":\"\",\"stderr\":\"fuel exhausted\",\"fuel_used\":0,\"memory_kb\":0,\"traps\":[\"FuelExhausted\"]}")
        true
  execute_content (Cartridge.Invoked.err CartridgeError.memory_exceeded) =
      content
        (codes
          "{\"stdout\":\"\",\"stderr\":\"memory limit exceeded\",\"fuel_used\":0,\"memory_kb\":0,\"traps\":[\"MemoryExceeded\"]}")
        true
  execute_content (Cartridge.Invoked.err e) =
      content
        (codes "{\"stdout\":\"\",\"stderr\":"
          ++ (print_str (errors.cartridge e)
              ++ codes ",\"fuel_used\":0,\"memory_kb\":0,\"traps\":[\"ExecutionError\"]}"))
        true

  -- The evaluator of a language: its cartridge and its file.
  unfoldable pub evaluator : List ℕ → List ℕ × List ℕ
  evaluator language =
      if language == codes "python"
      then (codes "python-evaluator", codes "python_evaluator.wasm")
      else (codes "js-evaluator", codes "js_evaluator.wasm")

  unfoldable pub invoke_execute : Moment → Server → Value → Value → Answer
  unfolding ensure_loaded evaluator execute_content Cartridge.invoke unwrap_or_empty
  invoke_execute moment s id args =
      let code = unwrap_or_empty (as_str (field args (codes "code"))) in
      let language = str_or (codes "javascript") (as_str (field args (codes "language"))) in
      let fuel = u64_or 5000000 (as_u64 (field args (codes "fuel"))) in
      let memory_mb = u64_or 64 (as_u64 (field args (codes "memory_mb"))) % 2 ^ 32 in
      let (cid, fname) = evaluator language in
      let s' = loaded s cid fname in
      (
        make_response id (
            execute_content
              (Cartridge.invoke wasm s'.cache cid code fuel memory_mb moment.duration_us)),
        s',
      )

  unfoldable pub snapshot_answer : Value → Stored (List ℕ) → Response Value
  snapshot_answer id (Stored.ok snapshot_id) = make_response id (
      content
        (codes "{\"memory_kb\":0,\"snapshot_id\":"
          ++ (print_str snapshot_id ++ codes ",\"vfs_files\":0}"))
        false)
  snapshot_answer id (Stored.err e) =
      make_error id internal_error (codes "snapshot failed: " ++ errors.engine e)

  unfoldable pub invoke_snapshot : Moment → Server → Value → Value → Answer
  unfolding is_empty snapshot_answer Sandbox.snapshot unwrap_or_empty
  invoke_snapshot moment s id args =
      let agent_id = unwrap_or_empty (as_str (field args (codes "agent_id"))) in
      if is_empty agent_id
      then (make_error id invalid_params (codes "agent_id is required"), s)
      else (let (stored, sandbox) =
            Sandbox.snapshot s.sandbox agent_id (moment.resolve agent_id) moment.snapshot_id in
          (snapshot_answer id stored, record s { sandbox = sandbox }))

  unfoldable pub fork_answer : Value → Executed → Response Value
  fork_answer id (Executed.ran req result) =
      make_response id
        (content (codes "{\"new_agent_id\":" ++ (print_str result.tet_id ++ codes "}")) false)
  fork_answer id (Executed.refused result) =
      make_response id
        (content (codes "{\"new_agent_id\":" ++ (print_str result.tet_id ++ codes "}")) false)
  fork_answer id (Executed.failed e) =
      make_error id internal_error (codes "fork failed: " ++ errors.engine e)
  fork_answer id (Executed.broke req e) =
      make_error id internal_error (codes "fork failed: " ++ errors.engine e)

module _ (crypto : Ed25519) (hex : Hex) (runtime : Runtime) (json : Json) (wasm : Wasm)
    {Dir : Type 0} (read : Dir → List (List ℕ) → Option (List ℕ)) (errors : Errors) where
  open json use {Value, null, field, as_str}

  unfoldable pub invoke_fork :
      Moment → McpServer wasm Dir → Value → Value → Response Value × McpServer wasm Dir
  unfolding is_empty fork_request fork_answer Sandbox.fork unwrap_or_empty
  invoke_fork moment s id args =
      let snapshot_id = unwrap_or_empty (as_str (field args (codes "snapshot_id"))) in
      if is_empty snapshot_id
      then (make_error id invalid_params (codes "snapshot_id is required"), s)
      else (let (executed, sandbox) =
            Sandbox.fork crypto hex runtime moment.now s.sandbox snapshot_id
              (fork_request snapshot_id) moment.fresh_id moment.snapshot_id in
          (fork_answer json wasm read errors id executed, record s { sandbox = sandbox }))

  unfoldable pub invoke_tool :
      Moment → McpServer wasm Dir → Value → Value → Response Value × McpServer wasm Dir
  unfolding invoke_execute invoke_snapshot invoke_fork all_cartridges find_cartridge call_cartridge
      unwrap_or_empty
  invoke_tool moment s id params =
      let name = unwrap_or_empty (as_str (field params (codes "name"))) in
      let args = field params (codes "arguments") in
      if name == codes "trytet_execute"
      then invoke_execute json wasm read errors moment s id args
      else if name == codes "trytet_snapshot"
      then invoke_snapshot json wasm read errors moment s id args
      else if name == codes "trytet_fork"
      then invoke_fork moment s id args
      else call_cartridge json wasm read errors moment s id args name
          (find_cartridge name (all_cartridges s.extra_cartridges))

  unfoldable pub handle_request :
      Moment → McpServer wasm Dir → JsonRpcRequest json → Response Value × McpServer wasm Dir
  unfolding tool_list invoke_tool
  handle_request moment s req =
      if req.method == codes "initialize"
      then (make_response req.id initialized, s)
      else if req.method == codes "tools/list"
      then (make_response req.id (tools (tool_list s.extra_cartridges)), s)
      else if req.method == codes "tools/call"
      then invoke_tool moment s req.id req.params
      else (make_error req.id method_not_found (codes "Method not found"), s)

  -- `parsed` is the request that the body is, or why it is none.
  pub data Parsed : Type 0 where
    request : JsonRpcRequest json → Parsed
    malformed : List ℕ → Parsed

  unfoldable pub answer_parsed :
      Moment → McpServer wasm Dir → Parsed → Response Value × McpServer wasm Dir
  unfolding handle_request
  answer_parsed moment s (request req) = handle_request moment s req
  answer_parsed moment s (malformed e) =
      (make_error null parse_error (codes "Parse error: " ++ e), s)
