-- ===== src/Calls/Payments.antt =====
-- src/sandbox/host_api: economy_pay.rs, economy_bill.rs, economy_withdraw.rs, fork.rs and reclaim.rs,
-- where a guest gives fuel away. Keys are derived from names; hashing and signing are parameters.
use trytet.Prelude.{
  ℕ, ◌-◌, ◌*◌, ◌/◌, ◌%◌, ◌^◌, ◌&&◌, none, some, List, [], ◌++◌, ltb, if◌then◌else◌, codes,
}
use trytet.Prelude.Bytes.{be_bytes}
use trytet.Economy.Registry.{FuelTransaction}
use trytet.Engine.{TetExecutionRequest}
use trytet.Calls.{
  BridgeIntent, transfer_credit, bill_request, withdrawal_pending, MeshMessage, Caller, Call, ◌>>=◌,
  ◌>>◌, return, caller, get_memory, read_guest_bytes, get_fuel, set_fuel, send,
}

-- `Sha256::digest`, `SigningKey::from_bytes` with `verifying_key`, and `sign`; and the reading of
-- UTF-8.
pub record Signing : Type 0 where
  pub sha256 : List ℕ → List ℕ
  pub public_key : List ℕ → List ℕ
  pub sign : List ℕ → List ℕ → List ℕ
  pub from_utf8_lossy : List ℕ → List ℕ

module _ (signing : Signing) where
  open signing use {sha256, public_key, sign, from_utf8_lossy}

  unfoldable pub read_guest_str : List ℕ → ℕ → ℕ → Call (List ℕ)
  unfolding read_guest_bytes
  read_guest_str memory ptr len = do
    bytes ← read_guest_bytes memory ptr len
    return (from_utf8_lossy bytes)

  -- The private seed of a name, and the public key that goes with it.
  unfoldable pub seed_of : List ℕ → List ℕ
  seed_of alias = sha256 alias

  unfoldable pub key_of : List ℕ → List ℕ
  unfolding seed_of
  key_of alias = public_key (seed_of alias)

  unfoldable pub sign_transfer : List ℕ → List ℕ → List ℕ → ℕ → ℕ → List ℕ
  sign_transfer seed pub_a pub_b amount nonce =
      sign seed (pub_a ++ (pub_b ++ (be_bytes 8 amount ++ be_bytes 8 nonce)))

  unfoldable pub transaction : List ℕ → List ℕ → ℕ → ℕ → FuelTransaction
  unfolding seed_of key_of sign_transfer
  transaction source_alias target_alias amount nonce = record {
    from = key_of source_alias;
    to = key_of target_alias;
    amount = amount;
    nonce = nonce;
    signature =
        sign_transfer (seed_of source_alias) (key_of source_alias) (key_of target_alias) amount
          nonce;
  }

  -- `now` is the clock in nanoseconds.
  unfoldable pub pay : ℕ → ℕ → ℕ → ℕ → Call ℕ
  unfolding get_memory read_guest_str transaction send
  pay now target_ptr target_len amount = do
    memory ← get_memory
    target_alias ← read_guest_str memory target_ptr target_len
    max_fuel ← get_fuel
    if ltb max_fuel amount then return 5 else do
      set_fuel (max_fuel - amount)
      state ← caller
      send (
          MeshMessage.economy_packet (
            transfer_credit
              (transaction state.manifest.metadata.name target_alias amount (now % 2 ^ 64))))
      return 0

  unfoldable pub bill : ℕ → ℕ → ℕ → Call ℕ
  unfolding get_memory read_guest_str send
  bill source_ptr source_len amount = do
    memory ← get_memory
    source_alias ← read_guest_str memory source_ptr source_len
    state ← caller
    send
        (MeshMessage.economy_packet (bill_request source_alias state.manifest.metadata.name amount))
    return 0

  unfoldable pub sign_bridge_intent : List ℕ → ℕ → List ℕ → List ℕ
  unfolding seed_of
  sign_bridge_intent source_alias amount target_address =
      sign (seed_of source_alias) (be_bytes 8 amount ++ (codes "ETH" ++ target_address))

  unfoldable pub bridge_intent : List ℕ → ℕ → List ℕ → BridgeIntent
  unfolding sign_bridge_intent
  bridge_intent source_alias amount target_address = record {
    internal_fuel = amount;
    external_asset = codes "ETH";
    target_address = target_address;
    agent_signature = sign_bridge_intent source_alias amount target_address;
  }

  -- An intent that cannot be sent gives the fuel back.
  unfoldable pub withdraw : ℕ → ℕ → ℕ → Call ℕ
  unfolding get_memory read_guest_str bridge_intent send
  withdraw amount addr_ptr addr_len = do
    memory ← get_memory
    target_address ← read_guest_str memory addr_ptr addr_len
    max_fuel ← get_fuel
    if ltb max_fuel amount then return 5 else do
      set_fuel (max_fuel - amount)
      state ← caller
      sent ← send (
          MeshMessage.economy_packet
            (withdrawal_pending (bridge_intent state.manifest.metadata.name amount target_address)))
      if sent then return 0 else do set_fuel max_fuel; return 6

  unfoldable pub fork_request : Caller → List ℕ → ℕ → TetExecutionRequest
  fork_request state snapshot_bytes fuel_to_give = record {
    payload = some snapshot_bytes;
    alias = some state.manifest.metadata.name;
    env = [];
    injected_files = [];
    allocated_fuel = fuel_to_give;
    max_memory_mb = state.manifest.constraints.max_memory_pages * 64 % 2 ^ 32 / 1024;
    parent_snapshot_id = none;
    target_function = none;
    call_depth = 0;
    voucher = none;
    manifest = some state.manifest;
    egress_policy = state.egress_policy;
  }

  -- `node_len > 0` as an `i32`; the target node is read and then not used.
  unfoldable pub read_target_node : List ℕ → ℕ → ℕ → Call (List ℕ)
  unfolding read_guest_str
  read_target_node memory node_ptr node_len =
      if ltb 0 node_len && ltb node_len (2 ^ 31)
      then read_guest_str memory node_ptr node_len
      else return []

  unfoldable pub fork : ℕ → ℕ → ℕ → Call ℕ
  unfolding get_memory read_target_node fork_request send
  fork fuel_to_give node_ptr node_len = do
    memory ← get_memory
    read_target_node memory node_ptr node_len
    state ← caller
    max_fuel ← get_fuel
    if ltb max_fuel fuel_to_give then return 5 else do
      set_fuel (max_fuel - fuel_to_give)
      send (MeshMessage.fork (fork_request state memory fuel_to_give))
      return 0

  unfoldable pub reclaim_child : ℕ → ℕ → Call ℕ
  unfolding get_memory read_guest_str send
  reclaim_child child_ptr child_len = do
    memory ← get_memory
    child_id ← read_guest_str memory child_ptr child_len
    sent ← send (MeshMessage.reclaim child_id)
    return (if sent then 0 else 6)

  unfoldable pub reclaim : ℕ → ℕ → Call ℕ
  unfolding reclaim_child
  reclaim child_ptr child_len = do
    state ← caller
    if state.manifest.permissions.is_genesis_factory
        then reclaim_child child_ptr child_len
        else return 7
