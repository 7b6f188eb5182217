-- ===== src/Cartridge.antt =====
-- src/cartridge.rs: the cache of compiled cartridges and the metered run of one. The Wasm runtime is
-- a parameter; texts are their bytes.
pub mod Tests
use trytet.Prelude.{
  ℕ, ◌+◌, ◌*◌, ◌-◌, ◌≤◌, Bool, true, false, ◌&&◌, ◌||◌, Option, none, some, List, [], ◌∷◌, ◌++◌,
  ltb, ◌==◌, bytes_eq, if◌then◌else◌, codes, contains_text, starts_with,
}
use trytet.Prelude.HashMap
use trytet.Prelude.HashMap.{HashMap}

pub data CartridgeError : Type 0 where
  fuel_exhausted memory_exceeded : CartridgeError
  compilation_failed : List ℕ → CartridgeError
  interface_mismatch : List ℕ → CartridgeError
  execution_error : List ℕ → ℕ → CartridgeError
  registry_error : List ℕ → CartridgeError

pub record InvocationMetrics : Type 0 where
  pub fuel_consumed : ℕ
  pub duration_us : ℕ

pub data Invoked : Type 0 where
  ok : List ℕ → InvocationMetrics → Invoked
  err : CartridgeError → Invoked

-- The values that a component can return; `Result(Ok(None))` is `ok_none`, and so on.
pub data Val : Type 0 where
  string : List ℕ → Val
  ok_some : Val → Val
  ok_none : Val
  err_some : Val → Val
  err_none : Val
  other : ℕ → Val

pub data CallResult : Type 0 where
  returned : Val → CallResult
  trapped : List ℕ → CallResult

pub data Outcome {ℓ} (A : Type ℓ) : Type ℓ where
  done : A → Outcome A
  failed : List ℕ → Outcome A

-- wasmtime, as `invoke` uses it. A failure carries its message.
pub record Wasm : Type 1 where
  pub Component : Type 0
  pub Instance : Type 0
  pub compile : List ℕ → Outcome Component
  -- `set_fuel`, then the host API of the linker and its function
  pub set_fuel : ℕ → Outcome (Unit {0})
  pub host_api : Outcome (Unit {0})
  pub host_fetch : Outcome (Unit {0})
  -- a component with its fuel and its limit on memory
  pub instantiate : Component → ℕ → ℕ → Outcome Instance
  -- the exported function of the interface, and the one with the plain name
  pub interface_func : Instance → Bool
  pub plain_func : Instance → Bool
  -- the call of one of these (`true` is the first) with its payload, and the fuel that is left
  pub call : Instance → Bool → List ℕ → CallResult × ℕ
  -- `{:?}` of a value
  pub debug : Val → List ℕ

unfoldable pub classify_cartridge_trap : List ℕ → CartridgeError
unfolding contains_text
classify_cartridge_trap message =
    let has = contains_text message in
    if has (codes "out of fuel") || has (codes "fuel consumed") || has (codes "all fuel consumed")
    then fuel_exhausted
    else if has (codes "memory")
        && (has (codes "limit") || has (codes "maximum") || has (codes "grow"))
    then memory_exceeded
    else execution_error message 0

-- The `fetch` that a cartridge is given: the answer, and the fuel that is left to it.
unfoldable pub cartridge_fetch : ℕ → List ℕ → Outcome (List ℕ) × ℕ
unfolding starts_with
cartridge_fetch max_fuel url =
    if ltb max_fuel 5000 then (failed (codes "FuelExhausted"), max_fuel) else (
      if starts_with url (codes "http")
          then done (codes "MOCK_FETCH_RESULT: " ++ url)
          else failed (codes "Unsupported protocol"),
      max_fuel - 5000,
    )

module _ (wasm : Wasm) where
  open wasm use {
    Component, Instance, compile, set_fuel, host_api, host_fetch, instantiate, interface_func,
    plain_func, call, debug,
  }

  -- `compiled_cache`
  abbrev pub Cache : Type 0
  Cache = HashMap (List ℕ) Component

  unfoldable pub precompile : Cache → List ℕ → List ℕ → Outcome (Unit {0}) × Cache
  precompile cache cid component_bytes = elim (compile component_bytes) [
    | failed e ↦ (failed e, cache)
    | done component ↦ (done tt, HashMap.insert cid component cache)
  ]

  unfoldable pub is_cached : Cache → List ℕ → Bool
  is_cached cache cid = elim (HashMap.lookup cid cache) [ none ↦ false | some c ↦ true ]

  unfoldable pub evict : Cache → List ℕ → Cache
  evict cache cid = HashMap.remove cid cache

  unfoldable pub parse_cartridge_output : Val → ℕ → ℕ → Invoked
  parse_cartridge_output (ok_some (string s)) fuel_consumed duration_us =
      ok s (record { fuel_consumed = fuel_consumed; duration_us = duration_us })
  parse_cartridge_output (ok_some v) fuel_consumed duration_us =
      err (execution_error (codes "Expected string in Ok, got: " ++ debug v) fuel_consumed)
  parse_cartridge_output ok_none fuel_consumed duration_us =
      err (execution_error (codes "Cartridge returned Ok with no value") fuel_consumed)
  parse_cartridge_output (err_some (string e)) fuel_consumed duration_us =
      err (execution_error e fuel_consumed)
  parse_cartridge_output (err_some v) fuel_consumed duration_us =
      err (execution_error (codes "Cartridge returned error: " ++ debug v) fuel_consumed)
  parse_cartridge_output err_none fuel_consumed duration_us =
      err (execution_error (codes "Cartridge returned Err with no value") fuel_consumed)
  parse_cartridge_output (string s) fuel_consumed duration_us =
      ok s (record { fuel_consumed = fuel_consumed; duration_us = duration_us })
  parse_cartridge_output (other n) fuel_consumed duration_us =
      err (interface_mismatch (codes "Expected result<string,string>, got: " ++ debug (other n)))

  -- Step 6: `fuel` is what the cartridge was given, `left` what it left.
  unfoldable pub finish : ℕ → ℕ → CallResult × ℕ → Invoked
  unfolding parse_cartridge_output classify_cartridge_trap
  finish fuel duration_us (returned v, left) = parse_cartridge_output v (fuel - left) duration_us
  finish fuel duration_us (trapped e, left) = err (classify_cartridge_trap e)

  -- Steps 4 to 6.
  unfoldable pub run_component : Component → List ℕ → ℕ → ℕ → ℕ → Invoked
  unfolding finish classify_cartridge_trap
  run_component component payload fuel memory_size duration_us =
      elim (instantiate component fuel memory_size) [
        | failed e ↦ err (classify_cartridge_trap e)
        | done instance_ ↦
            if interface_func instance_ || plain_func instance_
            then finish fuel duration_us (call instance_ (interface_func instance_) payload)
            else err (
                interface_mismatch (
                  codes "Component does not export 'execute' function from cartridge-v1 interface"))
      ]

  -- Steps 2 and 3.
  unfoldable pub prepare : ℕ → Outcome (Unit {0})
  prepare fuel = elim (set_fuel fuel) [
    | failed e ↦ failed (codes "Failed to set fuel: " ++ e)
    | done _ ↦ elim host_api [
      | failed e ↦ failed (codes "Failed to create host-api instance: " ++ e)
      | done _ ↦ elim host_fetch [
        | failed e ↦ failed (codes "Failed to register fetch: " ++ e)
        | done _ ↦ done tt
      ]
    ]
  ]

  unfoldable pub invoke : Cache → List ℕ → List ℕ → ℕ → ℕ → ℕ → Invoked
  unfolding prepare run_component
  invoke cache component_id payload fuel max_memory_mb duration_us =
      elim (HashMap.lookup component_id cache) [
        | none ↦ err (
            registry_error
              (codes "Component '" ++ (component_id ++ codes "' not found in compiled cache")))
        | some component ↦ elim (prepare fuel) [
          | failed e ↦ err (execution_error e 0)
          | done _ ↦ run_component component payload fuel (max_memory_mb * 1024 * 1024) duration_us
        ]
      ]
