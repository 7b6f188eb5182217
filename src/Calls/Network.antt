-- ===== src/Calls/Network.antt =====
-- src/sandbox/host_api: fetch.rs, inter_agent_invoke.rs, gateway_listen.rs, migration.rs,
-- equilibrium.rs, suspend.rs and predict.rs, where a guest reaches out of its sandbox.
use trytet.Prelude.{
  ℕ, ◌+◌, ◌-◌, ◌*◌, ◌/◌, Bool, true, false, not, ◌&&◌, Option, none, some, List, [], ◌∷◌, ◌++◌, ltb,
  leb, if◌then◌else◌, codes, length, starts_with, contains, bytes_eq,
}
use trytet.Engine.{EgressPolicy, MeshCallResponse, is_success}
use trytet.Fortress
use trytet.Fortress.{check_and_record, header_overhead}
use trytet.Gateway.{register_route}
use trytet.Jail.{Paths, safe_join, watchdog_check}
use trytet.Jail
use trytet.Market.{Prices, HiveMarket, find_best_arbitrage}
use trytet.Mesh.{u64_add, record_telemetry}
use trytet.Calls.{
  MeshMessage, returns, Call, ◌>>=◌, ◌>>◌, return, fail, caller, modify, get_memory,
  read_guest_bytes, answer, get_fuel, send, deduct_fuel,
}
use trytet.Calls.Payments.{Signing, read_guest_str}

-- `Url::parse` and `host_str`.
pub data ParsedUrl : Type 0 where
  unparseable no_hostname : ParsedUrl
  host : List ℕ → ParsedUrl

-- What a request finds outside: the host of its address, the paths of the node, and the answer of
-- the oracle with its status.
pub record World : Type 1 where
  pub parse_url : List ℕ → ParsedUrl
  pub paths : Paths
  pub workspace_root : paths.PathBuf
  pub resolve : List ℕ → List ℕ → List ℕ → Option (ℕ × List ℕ)

unfoldable pub violation : List ℕ → List ℕ
violation text = codes "Security Violation: " ++ text

unfoldable pub charge_preflight_fuel : List ℕ → List ℕ → List ℕ → Call (Unit {0})
unfolding deduct_fuel
charge_preflight_fuel url method body =
    let req_size = u64_add (u64_add (length url) (length method)) (length body) in
    deduct_fuel (50000 + req_size / 1024 * 10)

unfoldable pub charge_response_fuel : ℕ → Call (Unit {0})
unfolding deduct_fuel
charge_response_fuel response_bytes = deduct_fuel (response_bytes / 1024 * 10)

abbrev pub allowed : Fortress.Check → Bool
allowed Fortress.Check.ok = true
allowed (Fortress.Check.err e) = false

-- The bytes of a tenant, counted in the node's quotas; false if they are refused.
unfoldable pub record_bytes : ℕ → Call Bool
unfolding check_and_record
record_bytes bytes c =
    let (result, quotas) = check_and_record c.quota_manager c.tenant_id bytes c.max_egress_bytes in
    returns (allowed result) (record c { quota_manager = quotas })

unfoldable pub check_egress_quota : List ℕ → List ℕ → List ℕ → Call Bool
unfolding record_bytes header_overhead
check_egress_quota url method body = do
  state ← caller
  let req_size = u64_add (u64_add (length url) (length method)) (length body)
  record_bytes (u64_add req_size (header_overhead state.tet_id state.author_pubkey))

abbrev pub or_500 : Option (ℕ × List ℕ) → ℕ × List ℕ
or_500 none = (500, [])
or_500 (some r) = r

module _ (signing : Signing) (world : World) where
  open world use {parse_url, paths, workspace_root, resolve}

  unfoldable pub enforce_domain : EgressPolicy → ParsedUrl → Call (Unit {0})
  unfolding violation contains
  enforce_domain policy unparseable = fail (violation (codes "Unparseable URI"))
  enforce_domain policy no_hostname = fail (violation (codes "No hostname"))
  enforce_domain policy (host h) =
      if contains h policy.allowed_domains
      then return tt
      else fail (violation (codes "Domain '" ++ (h ++ codes "' not in allow list")))

  unfoldable pub enforce_policy : Option EgressPolicy → List ℕ → Call (Unit {0})
  unfolding violation enforce_domain starts_with
  enforce_policy none url = fail (violation (codes "No EgressPolicy assigned"))
  enforce_policy (some policy) url =
      if policy.require_https && not (starts_with url (codes "https://"))
      then fail (violation (codes "HTTPS required"))
      else enforce_domain policy (parse_url url)

  abbrev pub jailed : Jail.Joined paths → Call (Unit {0})
  jailed (Jail.Joined.ok p) = return tt
  jailed (Jail.Joined.err e) = fail (codes "Path Traversal Attempt Detected")

  unfoldable pub enforce_jail : List ℕ → Call (Unit {0})
  unfolding starts_with safe_join
  enforce_jail url =
      if starts_with url (codes "http")
      then return tt
      else jailed (safe_join paths workspace_root url)

  unfoldable pub enforce_egress_policy : List ℕ → Call (Unit {0})
  unfolding enforce_jail enforce_policy
  enforce_egress_policy url = do
    enforce_jail url
    state ← caller
    enforce_policy state.egress_policy url

  unfoldable pub deliver : ℕ → ℕ → ℕ × List ℕ → Call ℕ
  unfolding record_bytes charge_response_fuel answer
  deliver out_ptr out_len_ptr (status_code, returned_bytes) = do
    record_bytes (length returned_bytes)
    charge_response_fuel (length returned_bytes)
    if leb 200 status_code && ltb status_code 400
        then answer out_ptr out_len_ptr returned_bytes
        else return 6

  unfoldable pub fetch : ℕ → ℕ → ℕ → ℕ → ℕ → ℕ → ℕ → ℕ → Call ℕ
  unfolding get_memory read_guest_str read_guest_bytes enforce_egress_policy charge_preflight_fuel
      check_egress_quota deliver
  fetch url_ptr url_len method_ptr method_len body_ptr body_len out_ptr out_len_ptr = do
    memory ← get_memory
    target_url ← read_guest_str signing memory url_ptr url_len
    req_method ← read_guest_str signing memory method_ptr method_len
    req_body ← read_guest_bytes memory body_ptr body_len
    enforce_egress_policy target_url
    charge_preflight_fuel target_url req_method req_body
    within ← check_egress_quota target_url req_method req_body
    if within
        then deliver out_ptr out_len_ptr (or_500 (resolve target_url req_method req_body))
        else return 8

module _ (signing : Signing) where
  unfoldable pub burn_fuel : Call (Unit {0})
  burn_fuel =
      modify
        (λ c. record c { fuel = c.fuel - c.fuel_to_burn_from_parent; fuel_to_burn_from_parent = 0 })

  -- The answer to a call that came through.
  unfoldable pub settle_call : ℕ → ℕ → MeshCallResponse → Call ℕ
  unfolding answer burn_fuel
  settle_call out_ptr out_len_ptr res = do
    modify (λ c. record c {
      fuel_to_burn_from_parent = u64_add c.fuel_to_burn_from_parent res.fuel_used;
    })
    code ← answer out_ptr out_len_ptr res.return_data
    burn_fuel
    return (if leb code 0 then (if is_success res.status then 0 else 3) else code)

  abbrev pub response_bytes : Option MeshCallResponse → ℕ
  response_bytes none = 0
  response_bytes (some res) = length res.return_data

  abbrev pub failed : Option MeshCallResponse → Bool
  failed none = true
  failed (some res) = false

  abbrev pub settle : ℕ → ℕ → Option MeshCallResponse → Call ℕ
  settle out_ptr out_len_ptr none = return 4
  settle out_ptr out_len_ptr (some res) = settle_call out_ptr out_len_ptr res

  -- `reply` is what comes back if the channel takes the call, after `elapsed_us`; `now` is the clock.
  unfoldable pub invoke :
      Option MeshCallResponse → ℕ → ℕ → List ℕ → ℕ → ℕ → ℕ → ℕ → ℕ → ℕ → ℕ → Call ℕ
  unfolding get_memory read_guest_str read_guest_bytes send record_telemetry settle_call
  invoke reply elapsed_us now source_alias target_ptr target_len payload_ptr payload_len out_ptr
        out_len_ptr fuel =
      do
        memory ← get_memory
        target_alias ← read_guest_str signing memory target_ptr target_len
        payload_bytes ← read_guest_bytes memory payload_ptr payload_len
        max_fuel ← get_fuel
        state ← caller
        sent ← send (
            MeshMessage.call (record {
              target_alias = target_alias;
              method = codes "invoke";
              payload = payload_bytes;
              fuel_to_transfer = if ltb max_fuel fuel then max_fuel else fuel;
              current_depth = state.call_stack_depth;
              target_function = none;
            }))
        let response = if sent then reply else none
        modify (λ c. record c {
          mesh = record_telemetry c.mesh (record {
            source = source_alias;
            target = target_alias;
            bytes = u64_add (length payload_bytes) (response_bytes response);
            latency_us = elapsed_us;
            is_error = failed response;
            now_ns = now;
          });
        })
        settle out_ptr out_len_ptr response

  unfoldable pub listen : ℕ → ℕ → ℕ → ℕ → Call ℕ
  unfolding get_memory read_guest_str register_route
  listen path_ptr path_len handler_ptr handler_len = do
    memory ← get_memory
    path ← read_guest_str signing memory path_ptr path_len
    handler ← read_guest_str signing memory handler_ptr handler_len
    modify
        (λ c. record c { gateway = register_route c.gateway c.manifest.metadata.name path handler })
    return 0

  -- The guest is stopped by a trap, which the engine takes for a request.
  unfoldable pub request_migration : ℕ → ℕ → Call ℕ
  unfolding get_memory read_guest_str
  request_migration target_ptr target_len = do
    memory ← get_memory
    target_node ← read_guest_str signing memory target_ptr target_len
    modify (λ c. record c { migration_requested = true; migration_target = some target_node })
    fail (codes "MIGRATION_REQUESTED")

unfoldable pub seek_equilibrium : (prices : Prices) → HiveMarket prices → ℕ → Call ℕ
unfolding find_best_arbitrage
seek_equilibrium prices market now c = elim (find_best_arbitrage prices now market c.tet_id) [
  | none ↦ returns 0 c
  | some best_bid ↦
      returns 1 (record c { migration_requested = true; migration_target = some best_bid.node_id })
]

unfoldable pub suspend : Call ℕ
suspend = fail (codes "TET_SUSPEND")

-- The rounds of `predict`, each after a sleep of so many milliseconds; `elapsed` has passed.
unfoldable pub predict_rounds : ℕ → List ℕ → Call ℕ
unfolding watchdog_check
predict_rounds elapsed [] = return 0
predict_rounds elapsed (slept ∷ sleeps) = elim (watchdog_check 50 (elapsed + slept)) [
  | none ↦ predict_rounds (elapsed + slept) sleeps
  | some e ↦ fail (codes "Resource Exhaustion Attempt Detected")
]
