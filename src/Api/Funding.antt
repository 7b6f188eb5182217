-- ===== src/Api/Funding.antt =====
-- src/api/handlers/all.rs: what a top-up runs, and what is kept of the tet after it.
use trytet.Prelude.{ℕ, ◌≡◌, arith, true, some, List, bytes_eq}
use trytet.Prelude.HashMap
use trytet.Api.{AppState, answer, result, Moment, topup_req}
use trytet.Api.Handlers.{Parts, handle_topup}
use trytet.Economy.Vouchers
use trytet.Economy.Vouchers.{FuelVoucher, VoucherManager, verify_and_claim}
use trytet.Engine.{AgentManifest}
use trytet.Hive.{SnapshotPayload}
use trytet.Mesh.{TetMesh}
use trytet.Sandbox
use trytet.Sandbox.{
  WasmtimeSandbox, TetExecutionResult, Inner, active_memory, default_manifest, store_run,
}

module _ (parts : Parts) where
  open parts use {crypto, hex, runtime}

  -- Where payment is required, a top-up of a tet that is in memory, with a voucher that is accepted,
  -- runs the tet's own Wasm from its memory on exactly the fuel of the voucher, which is claimed by
  -- it. If the run ends with a result, that is the answer; but the new memory is kept with the
  -- default manifest, which permits nothing, whatever manifest the tet had.
  pub handle_topup-funded :
      (m : Moment) (s : AppState) (alias : List ℕ) (voucher : FuelVoucher)
      (p after : SnapshotPayload) (manifest : AgentManifest) (vouchers : VoucherManager)
      (res : TetExecutionResult) (mesh : TetMesh)
      → s.sandbox.require_payment ≡ true
      → active_memory s.sandbox alias m.resolved ≡ some (p, manifest)
      → verify_and_claim crypto hex m.now s.sandbox.voucher_manager voucher
        ≡ (Vouchers.Claim.ok, vouchers)
      → runtime.execute_inner s.sandbox.mesh p.wasm_bytes
          (topup_req alias voucher m.new_id)
          (some p)
        ≡ Inner.result res after mesh
      → ((handle_topup parts m s alias voucher).0 ≡ answer 200 (result res))
        × ((handle_topup parts m s alias voucher).1.sandbox.voucher_manager ≡ vouchers)
        × (HashMap.lookup res.tet_id
              (handle_topup parts m s alias voucher).1.sandbox.active_memories
            ≡ some (after, default_manifest alias))
  unfolding handle_topup topup_req Sandbox.snapshot Sandbox.import_snapshot Sandbox.fork
      Sandbox.execute Sandbox.guard_payment Sandbox.run_request Sandbox.parent_snapshot
      Sandbox.finish store_run
  handle_topup-funded m s alias voucher p after manifest vouchers res mesh paid memory claim run =
      let found = HashMap.lookup-insert_self m.new_id p s.sandbox.snapshots in
      let kept =
        HashMap.lookup-insert_self res.tet_id (after, default_manifest alias)
          s.sandbox.active_memories in
      (
        ground (arith, paid, memory, claim, found, run),
        ground (arith, paid, memory, claim, found, run),
        ground (arith, paid, memory, claim, found, run, kept),
      )
