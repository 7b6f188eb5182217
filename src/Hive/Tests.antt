-- ===== src/Hive/Tests.antt =====
-- A small snapshot of one chunk, with a stand-in for bincode that writes memory only.
use mathlib.Core.List.{Permᴰ}
use mathlib.Core.List.Permᴰ
use trytet.Prelude.{
  ℕ, ◌≡◌, refl, subst, arith, true, false, none, some, List, [], ◌∷◌, ◌++◌, map, codes, ltb, leb,
  bytes_eq,
}
use trytet.Prelude.HashMap
use trytet.Economy.Vouchers
use trytet.Engine.{AgentManifest}
use trytet.Market
use trytet.Market.{Prices}
use trytet.Mesh
use trytet.Sandbox.{WasmtimeSandbox}
use trytet.Vitality
use trytet.Hive.Commands.{Node, Moment, resume_req, process_all}
use trytet.Hive.Arrival.{packets}
use trytet.Hive.Resumption.{commands_of, execute-arrived}
use trytet.Hive.Teleport.{
  TeleportRequest, TeleportReceipt, Surroundings, exported, export_agent, execute, Teleported,
}
use trytet.Hive.Departure.{Leaves, permission, execute-Leaves}
use trytet.Hive.{
  SnapshotPayload, Bincode, chunk_size, chunks_on, chunks, enumerate_from, payload_chunks,
  handshake, commit, stored, resurrected, receive, assemble,
}
use trytet.Hive.Examples.{snapshot, bincode}
use trytet.Hive.Reassembly.{packet_of, stored_each, receive-payload_chunks}

abbrev arrived : List (ℕ × List ℕ)
arrived = (0, 7 ∷ 8 ∷ []) ∷ []

cut : payload_chunks (7 ∷ 8 ∷ []) ≡ arrived
unfolding payload_chunks chunks chunks_on chunk_size enumerate_from
cut = refl

receive-payload_chunks_example :
    receive ℕ bincode []
      (handshake 5 (1 ∷ []) ∷ (map (packet_of ℕ bincode) arrived ++ commit [] ∷ []))
    ≡ (stored ∷ stored_each ℕ bincode arrived (resurrected 5 (snapshot (7 ∷ 8 ∷ [])) ∷ []), [])
receive-payload_chunks_example =
    receive-payload_chunks ℕ bincode 5 (1 ∷ []) [] (snapshot (7 ∷ 8 ∷ [])) (7 ∷ 8 ∷ []) arrived refl
      (omega arith) (subst (λ a. Permᴰ (payload_chunks (7 ∷ 8 ∷ [])) a) cut (Permᴰ.refl _))

ltb_trans : (a b c : ℕ) → ltb a b ≡ true → ltb b c ≡ true → ltb a c ≡ true
ltb_trans a b c h k = ground arith

ltb_irrefl : (a : ℕ) → ltb a a ≡ false
ltb_irrefl a = ground arith

abbrev prices : Prices
prices = record {
  F32 = ℕ;
  le = leb;
  lt = ltb;
  buffered = λ p. p;
  escape = 500;
  scaled = λ mem cpu thermal. 100;
  lt-trans = ltb_trans;
  lt-irrefl = ltb_irrefl;
}

abbrev manifest : AgentManifest
manifest = record {
  metadata = record { name = codes "tet"; version = []; author_pubkey = none };
  constraints = record { max_memory_pages = 1; fuel_limit = 1000; max_egress_bytes = 0 };
  permissions = record {
    can_egress = [];
    can_persist = false;
    can_teleport = true;
    is_genesis_factory = false;
    can_fork = false;
  };
}

-- A node that asks for payment, and on which nothing runs.
abbrev idle : WasmtimeSandbox
idle = record {
  require_payment = true;
  voucher_manager = Vouchers.new [];
  snapshots = [];
  active_memories = [];
  mesh = Mesh.new;
}

abbrev sender : WasmtimeSandbox
unfolding Mesh.register Mesh.upsert Mesh.new
sender = record idle {
  active_memories = (codes "id", (snapshot (7 ∷ 8 ∷ []), manifest)) ∷ [];
  mesh = Mesh.register Mesh.new (codes "tet") (record {
    tet_id = codes "id";
    is_hibernating = false;
    snapshot_id = none;
    wasm_bytes = none;
  });
}

abbrev surroundings : Surroundings
surroundings = record {
  now = 5;
  resolved = some (record {
    tet_id = codes "id";
    is_hibernating = false;
    snapshot_id = none;
    wasm_bytes = none;
  });
  resolved_again = some (record {
    tet_id = codes "id";
    is_hibernating = false;
    snapshot_id = none;
    wasm_bytes = none;
  });
  snapshot_id = codes "snapshot";
  delivers = λ i. true;
  push_state = none;
  wallet_loads = true;
}

abbrev request : TeleportRequest
request = record { agent_id = codes "tet"; target_address = codes "other:1"; use_registry = false }

abbrev receipt : TeleportReceipt
receipt = record { agent_id = codes "tet"; target_address = codes "other:1"; bytes_transferred = 2 }

abbrev node : Node prices
node = record {
  peers = [];
  vitality = Vitality.new 15000000;
  pending = [];
  sandbox = idle;
  market = Market.new prices (codes "here");
  tasks = [];
}

abbrev moment : Moment prices
moment = record { now = 9; snapshot_id = codes "new"; pulled = none; holds = λ cid. false }

execute_done : (execute bincode surroundings request sender).0 ≡ Teleported.done receipt
unfolding execute sender payload_chunks chunks chunks_on chunk_size enumerate_from HashMap.lookup
    HashMap.insert
execute_done = refl

execute-Leaves_example :
    Leaves request sender
      (permission surroundings request sender)
      (execute bincode surroundings request sender)
execute-Leaves_example = execute-Leaves bincode surroundings request sender

execute-arrived_example :
    (p : SnapshotPayload) × (m : AgentManifest) × ((export_agent surroundings sender
        (codes "tet")).0
      ≡ exported p m)
    × (m.permissions.can_teleport ≡ true)
    × (process_all prices bincode node (
          commands_of prices bincode moment
            (packets (execute bincode surroundings request sender).2))
        ≡ record node {
          sandbox = record idle { snapshots = HashMap.insert (codes "new") p [] };
          tasks = (codes "new", resume_req m (codes "new")) ∷ [];
        })
unfolding trytet.Hive.Resumption.with_arrival resume_req
execute-arrived_example =
    execute-arrived prices bincode moment surroundings request sender receipt node refl execute_done
      (omega arith) refl
