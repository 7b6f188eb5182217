-- ===== src/Mcp.antt =====
-- src/mcp/server.rs and src/mcp/protocol.rs: the tools that the engine offers over JSON-RPC. JSON is
-- a parameter, and an answer is the data that the source prints as JSON. A path is the list of its
-- parts below a directory of cartridges. The engine and the cartridges are those of Sandbox and
-- Cartridge; the clock, the fresh identifiers and the answers of the mesh come with each request.
pub mod Requests
pub mod Lines
pub mod Ending
pub mod Listing
pub mod Tests
use trytet.Prelude.{
  ℕ, Bool, true, false, Option, none, some, List, [], ◌∷◌, ◌++◌, ◌==◌, bytes_eq, codes,
  if◌then◌else◌,
}
use trytet.Prelude.HashMap
use trytet.Cartridge
use trytet.Cartridge.{Wasm, is_cached, precompile}

pub record CartridgeDef : Type 0 where
  pub name : List ℕ
  pub cid : List ℕ
  pub fname : List ℕ
  pub fuel : ℕ
  pub memory_mb : ℕ

abbrev pub default_cartridges : List CartridgeDef
default_cartridges =
    record {
      name = codes "trytet_js_evaluator";
      cid = codes "js-evaluator";
      fname = codes "js_evaluator.wasm";
      fuel = 5000000;
      memory_mb = 32;
    }
    ∷ record {
      name = codes "trytet_regex_evaluator";
      cid = codes "regex-evaluator";
      fname = codes "regex_evaluator.wasm";
      fuel = 1000000;
      memory_mb = 16;
    }
    ∷ record {
      name = codes "trytet_jmespath_evaluator";
      cid = codes "jmespath-cartridge";
      fname = codes "jmespath_cartridge.wasm";
      fuel = 1000000;
      memory_mb = 16;
    }
    ∷ record {
      name = codes "trytet_scraper";
      cid = codes "scraper-cartridge";
      fname = codes "scraper_cartridge.wasm";
      fuel = 5000000;
      memory_mb = 32;
    }
    ∷ record {
      name = codes "trytet_structured_data";
      cid = codes "sql-cartridge";
      fname = codes "sql_cartridge.wasm";
      fuel = 1000000;
      memory_mb = 32;
    }
    ∷ []

-- `error_codes`
pub data ErrorCode : Type 0 where
  parse_error invalid_request method_not_found invalid_params internal_error : ErrorCode

-- A tool as it is listed: its name, its description and the names of its required arguments.
pub record Tool : Type 0 where
  pub name : List ℕ
  pub description : List ℕ
  pub required : List (List ℕ)

-- The results of the methods, and their content.
pub data RpcResult : Type 0 where
  initialized : RpcResult
  tools : List Tool → RpcResult
  content : List ℕ → Bool → RpcResult

-- `make_response` and `make_error`
pub data Response {ℓ} (Value : Type ℓ) : Type ℓ where
  make_response : Value → RpcResult → Response Value
  make_error : Value → ErrorCode → List ℕ → Response Value

-- `serde_json::Value`: its fields as text and as numbers, a missing one with its default; an object
-- printed; a text printed.
pub record Json : Type 1 where
  pub Value : Type 0
  pub null : Value
  pub field : Value → List ℕ → Value
  pub as_str : Value → Option (List ℕ)
  pub as_u64 : Value → Option ℕ
  pub print_object : List (List ℕ × Value) → List ℕ
  pub print_str : List ℕ → List ℕ
  pub print_number : ℕ → List ℕ

unfoldable pub all_cartridges : List CartridgeDef → List CartridgeDef
all_cartridges extra_cartridges = default_cartridges ++ extra_cartridges

unfoldable pub register_tool :
    List CartridgeDef → List ℕ → List ℕ → List ℕ → ℕ → ℕ → List CartridgeDef
register_tool extra_cartridges name cartridge_id wasm_filename fuel memory_mb =
    extra_cartridges
    ++ record {
      name = name;
      cid = cartridge_id;
      fname = wasm_filename;
      fuel = fuel;
      memory_mb = memory_mb;
    }
      ∷ []

-- `iter().find(|def| def.name == name)`
unfoldable pub find_cartridge : List ℕ → List CartridgeDef → Option CartridgeDef
find_cartridge name [] = none
find_cartridge name (def ∷ defs) = if def.name == name then some def else find_cartridge name defs

-- Where a cartridge may lie in a directory.
unfoldable pub candidates : List ℕ → List ℕ → List (List (List ℕ))
candidates cid fname =
    (fname ∷ [])
    ∷ (codes "crates" ∷ cid ∷ codes "target/wasm32-wasip1/release" ∷ fname ∷ [])
    ∷ (codes "crates" ∷ cid ∷ codes "target/wasm32-wasip2/release" ∷ fname ∷ [])
    ∷ []

module _ {ℓ} {Dir : Type ℓ} (read : Dir → List (List ℕ) → Option (List ℕ)) where
  unfoldable pub first_in : Dir → List (List (List ℕ)) → Option (List ℕ)
  first_in base [] = none
  first_in base (path ∷ paths) = elim (read base path) [
    | some wasm ↦ some wasm
    | none ↦ first_in base paths
  ]

  unfoldable pub search_dirs : List Dir → List ℕ → List ℕ → Option (List ℕ)
  unfolding first_in candidates
  search_dirs [] cid fname = none
  search_dirs (base ∷ dirs) cid fname = elim (first_in base (candidates cid fname)) [
    | some wasm ↦ some wasm
    | none ↦ search_dirs dirs cid fname
  ]

  unfoldable pub ensure_loaded :
      (wasm : Wasm) → List Dir → Cartridge.Cache wasm → List ℕ → List ℕ → Cartridge.Cache wasm
  unfolding is_cached precompile search_dirs
  ensure_loaded wasm dirs cache cid fname =
      if is_cached wasm cache cid then cache else elim (search_dirs dirs cid fname) [
        | none ↦ cache
        | some bytes ↦ (precompile wasm cache cid bytes).1
      ]

unfoldable pub unwrap_or_empty : Option (List ℕ) → List ℕ
unwrap_or_empty none = []
unwrap_or_empty (some text) = text

module _ (json : Json) where
  open json use {Value, field, as_str, print_object}

  abbrev pub text_of : Value → List ℕ → List ℕ
  unfolding unwrap_or_empty
  text_of args key = unwrap_or_empty (as_str (field args key))

  abbrev pub object_of : Value → List (List ℕ) → List (List ℕ × Value)
  object_of args [] = []
  object_of args (key ∷ keys) = (key, field args key) ∷ object_of args keys

  -- The payload of a tool's cartridge: a text, or an object of the arguments that it takes.
  unfoldable pub build_payload : List ℕ → Value → List ℕ
  build_payload tool_name args =
      if tool_name == codes "trytet_js_evaluator"
      then text_of args (codes "code")
      else if tool_name == codes "trytet_regex_evaluator"
      then print_object (object_of args (codes "pattern" ∷ codes "input" ∷ []))
      else if tool_name == codes "trytet_jmespath_evaluator"
      then print_object (object_of args (codes "expression" ∷ codes "json" ∷ []))
      else if tool_name == codes "trytet_scraper"
      then print_object (object_of args (codes "url" ∷ []))
      else if tool_name == codes "trytet_structured_data"
      then print_object (
          object_of args (
            codes "data"
            ∷ codes "filter_key"
            ∷ codes "filter_value"
            ∷ codes "sort_key"
            ∷ codes "sort_desc"
            ∷ codes "limit"
            ∷ codes "offset"
            ∷ []))
      else codes "{}"
