-- ===== src/Hive/Resumption.antt =====
-- src/teleport.rs, src/hive/connection.rs and src/sandbox/sandbox_wasmtime.rs: a tet from one node to
-- its run on another.
use trytet.Prelude.{
  ℕ, ◌^◌, ◌≤◌, ◌≡◌, refl, sym, ap, ◌∙◌, arith, true, false, some, List, [], ◌∷◌, ◌++◌, bytes_eq,
  codes, if◌then◌else◌,
}
use trytet.Prelude.HashMap
use trytet.Economy.Crypto.{Ed25519, Hex}
use trytet.Engine.{AgentManifest}
use trytet.Hive.{
  SnapshotPayload, Bincode, MigrationPacket, Pending, Handled, stored, resurrected, payload_chunks,
  handle_migration_packet, receive,
}
use trytet.Hive.Commands.{
  HiveCommand, migration_packet, Node, Moment, resume_req, resurrect, with_pending, after_packet,
  process_command, process_all,
}
use trytet.Hive.Arrival.{packets, execute-Arrives}
use trytet.Hive.Reassembly.{stored_each}
use trytet.Hive.Teleport.{
  TeleportRequest, TeleportReceipt, done, Surroundings, exported, export_agent, execute,
}
use trytet.Market.{Prices}
use trytet.Sandbox
use trytet.Sandbox.{
  WasmtimeSandbox, Executed, refused, Runtime, economic_crash, guard_payment, parent_snapshot,
  finish, fork, import_snapshot,
}

module _ (prices : Prices) (bincode : Bincode) (moment : Moment prices) where
  -- The node after what packets lead to.
  settle : Node prices → List (Handled AgentManifest) → Node prices
  settle n [] = n
  settle n (h ∷ handled) = settle (after_packet prices moment n h).1 handled

  after_packet-with_pending :
      (n : Node prices) (p : Pending AgentManifest) (h : Handled AgentManifest)
      → (after_packet prices moment (with_pending prices n p) h).1
        ≡ with_pending prices (after_packet prices moment n h).1 p
  unfolding after_packet resurrect import_snapshot
  after_packet-with_pending n p stored = refl
  after_packet-with_pending n p (resurrected manifest payload) = refl
  after_packet-with_pending n p Handled.failed = refl

  settle-with_pending :
      (n : Node prices) (p : Pending AgentManifest) (handled : List (Handled AgentManifest))
      → settle (with_pending prices n p) handled ≡ with_pending prices (settle n handled) p
  unfolding settle
  settle-with_pending n p [] = refl
  settle-with_pending n p (h ∷ handled) =
      ap (λ m. settle m handled) (after_packet-with_pending n p h)
      ∙ settle-with_pending (after_packet prices moment n h).1 p handled

  abbrev pub commands_of :
      List (MigrationPacket AgentManifest) → List (Moment prices × HiveCommand prices)
  commands_of [] = []
  commands_of (p ∷ ps) = (moment, migration_packet p) ∷ commands_of ps

  process_all-packets :
      (n : Node prices) (ps : List (MigrationPacket AgentManifest))
      → process_all prices bincode n (commands_of ps)
        ≡ with_pending prices
            (settle n (receive AgentManifest bincode n.pending ps).0)
            (receive AgentManifest bincode n.pending ps).1
  unfolding process_all process_command receive settle
  process_all-packets n [] = refl
  process_all-packets n (p ∷ ps) =
      let step = handle_migration_packet AgentManifest bincode n.pending p in
      let later = receive AgentManifest bincode step.1 ps in
      let n1 = (after_packet prices moment n step.0).1 in
      ap (λ m. process_all prices bincode m (commands_of ps))
        (after_packet-with_pending n step.1 step.0)
      ∙ process_all-packets (with_pending prices n1 step.1) ps
      ∙ ap (λ m. with_pending prices m later.1) (settle-with_pending n1 step.1 later.0)

  -- Chunks alone change nothing.
  settle-stored_each :
      (n : Node prices) (xs : List (ℕ × List ℕ)) (later : List (Handled AgentManifest))
      → settle n (stored_each AgentManifest bincode xs later) ≡ settle n later
  unfolding settle after_packet
  settle-stored_each n [] later = refl
  settle-stored_each n (x ∷ xs) later = settle-stored_each n xs later

  -- The node once a tet has arrived.
  unfoldable pub with_arrival : Node prices → AgentManifest → SnapshotPayload → Node prices
  unfolding resume_req
  with_arrival n manifest p = record n {
    sandbox = record n.sandbox {
      snapshots = HashMap.insert moment.snapshot_id p n.sandbox.snapshots;
    };
    tasks = n.tasks ++ (moment.snapshot_id, resume_req manifest moment.snapshot_id) ∷ [];
  }

  -- A direct teleportation that gives its receipt, of up to 4 GiB, was allowed by the manifest; and
  -- the commands that came through leave another node, if it had no migration pending, with the
  -- exported snapshot, one task that resumes it with its manifest, and nothing pending.
  pub execute-arrived :
      (a : Surroundings) (req : TeleportRequest) (s : WasmtimeSandbox) (receipt : TeleportReceipt)
      (n : Node prices)
      → req.use_registry ≡ false
      → (execute bincode a req s).0 ≡ done receipt
      → receipt.bytes_transferred ≤ 2 ^ 32
      → n.pending ≡ []
      → (p : SnapshotPayload) × (manifest : AgentManifest) × ((export_agent a s req.agent_id).0
          ≡ exported p manifest)
        × (manifest.permissions.can_teleport ≡ true)
        × (process_all prices bincode n (commands_of (packets (execute bincode a req s).2))
            ≡ with_arrival n manifest p)
  unfolding settle after_packet resurrect import_snapshot with_arrival
  execute-arrived a req s receipt n direct h small free =
      let (p, manifest, out, (allowed, (bytes, got))) =
        execute-Arrives bincode a req s receipt direct h small in
      let ps = packets (execute bincode a req s).2 in
      let whole : receive AgentManifest bincode n.pending ps ≡ (
        stored
            ∷ stored_each AgentManifest bincode (payload_chunks bytes)
                (resurrected manifest p ∷ []),
        [],
      ) =
        ap (λ q. receive AgentManifest bincode q ps) free ∙ got in
      (
        p,
        manifest,
        out,
        allowed,
        process_all-packets n ps
            ∙ ap (λ r. with_pending prices (settle n r.0) r.1) whole
            ∙ ap (λ m. with_pending prices m [])
                (settle-stored_each n (payload_chunks bytes) (resurrected manifest p ∷ []))
            ∙ ap (λ q. with_pending prices (with_arrival n manifest p) q) (sym free),
      )

module _ (crypto : Ed25519) (hex : Hex) (runtime : Runtime) where
  -- The task of a tet that has arrived: where no payment is required, it runs from exactly the stored
  -- snapshot, with its memory and its Wasm; where payment is, it is refused for want of a voucher, and
  -- the sandbox stays as it is.
  pub fork-resume_req :
      (now : ℕ) (s : WasmtimeSandbox) (manifest : AgentManifest) (p : SnapshotPayload)
      (snap_id fresh_id new_id : List ℕ)
      → HashMap.lookup snap_id s.snapshots ≡ some p
      → let req = resume_req manifest snap_id in
        fork crypto hex runtime now s snap_id req fresh_id new_id ≡ (
          if s.require_payment
          then (refused (economic_crash fresh_id req (codes "Missing Fuel Voucher")), s)
          else finish crypto hex runtime s req p.wasm_bytes new_id
              (runtime.execute_inner s.mesh p.wasm_bytes req (some p)))
  unfolding fork Sandbox.execute guard_payment resume_req Sandbox.run_request parent_snapshot
  fork-resume_req now s manifest p snap_id fresh_id new_id h = ground (arith, h)
