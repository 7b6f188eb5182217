-- ===== src/Sandbox/Payment.antt =====
-- src/sandbox/sandbox_wasmtime.rs with src/economy.rs: what is run where each execution is paid for.
use trytet.Prelude.{
  ℕ, ◌≡◌, refl, arith, true, false, Option, none, some, List, [], ◌∷◌, ◌++◌, contains, Distinct,
  bytes_eq, All, ◌⊎◌, inl, inr, Option-cases, ◌∙◌, ap, sym, subst,
}
use trytet.Economy.Crypto.{Ed25519, Hex}
use trytet.Economy.Vouchers
use trytet.Economy.Vouchers.{FuelVoucher, VoucherManager, verify_and_claim}
use trytet.Economy.Vouchers.Claims.{Judged, verify_and_claim-Judged}
use trytet.Engine.{TetExecutionRequest}
use trytet.Sandbox.{
  WasmtimeSandbox, Executed, Runtime, Inner, Guarded, guard_payment, judged, with_vouchers,
  parent_snapshot, wasm_of, finish, run_request, execute, economic_crash,
}

-- An execution as it is asked for, at a time and with fresh identifiers.
pub record Attempt : Type 0 where
  pub now : ℕ
  pub request : TetExecutionRequest
  pub fresh_id : List ℕ
  pub snapshot_id : List ℕ

-- The request that was handed to the run, if one was.
abbrev pub handed : Executed → List TetExecutionRequest
handed (Executed.refused r) = []
handed (Executed.failed e) = []
handed (Executed.ran req r) = req ∷ []
handed (Executed.broke req e) = req ∷ []

-- The nonces of the vouchers of the requests.
abbrev pub nonce_in : Option FuelVoucher → List (List ℕ)
nonce_in none = []
nonce_in (some v) = v.nonce ∷ []

abbrev pub nonces : List TetExecutionRequest → List (List ℕ)
nonces [] = []
nonces (req ∷ reqs) = nonce_in req.voucher ++ nonces reqs

-- A voucher came with the request, and its fuel is what the run was given.
abbrev pub Funded : TetExecutionRequest → Type 0
Funded req = (v : FuelVoucher) × (req.voucher ≡ some v) × (req.allocated_fuel ≡ v.fuel_limit)

abbrev pub Unused : WasmtimeSandbox → List ℕ → Type 0
Unused s nonce = contains nonce s.voucher_manager.used_nonces ≡ false

module _ (crypto : Ed25519) (hex : Hex) (runtime : Runtime) where
  -- The requests that are handed to the run, over any number of attempts.
  unfoldable pub runs : WasmtimeSandbox → List Attempt → List TetExecutionRequest
  unfolding execute
  runs s [] = []
  runs s (a ∷ attempts) =
      let (outcome, s') = execute crypto hex runtime a.now s a.request a.fresh_id a.snapshot_id in
      handed outcome ++ runs s' attempts

  -- A step that hands over `req` or nothing, and leaves the vouchers alone.
  abbrev Hands : WasmtimeSandbox → TetExecutionRequest → Executed × WasmtimeSandbox → Type 0
  Hands s req (outcome, s') =
      ((handed outcome ≡ []) ⊎ (handed outcome ≡ req ∷ []))
      × (s'.voucher_manager ≡ s.voucher_manager)
      × (s'.require_payment ≡ s.require_payment)

  finish-Hands :
      (s : WasmtimeSandbox) (req : TetExecutionRequest) (wasm id : List ℕ) (i : Inner)
      → Hands s req (finish crypto hex runtime s req wasm id i)
  unfolding finish
  finish-Hands s req wasm id (Inner.result r p m) = (inr refl, refl, refl)
  finish-Hands s req wasm id (Inner.error e m) = (inr refl, refl, refl)

  run_request-Hands :
      (s : WasmtimeSandbox) (req : TetExecutionRequest) (id : List ℕ)
      → Hands s req (run_request crypto hex runtime s req id)
  unfolding run_request
  run_request-Hands s req id =
      elim (Option-cases (parent_snapshot crypto hex runtime s req.parent_snapshot_id)) [
        | inl e ↦ rw (e, run_request) (inl refl, refl, refl)
        | inr (parent, e) ↦ elim (Option-cases (wasm_of req.payload parent)) [
          | inl e' ↦ rw (e, e', run_request) (inl refl, refl, refl)
          | inr (wasm, e') ↦
              rw (e, e', run_request)
                (finish-Hands s req wasm id (runtime.execute_inner s.mesh wasm req parent))
        ]
      ]

  -- What the guard lets through, and what it leaves.
  abbrev GuardJudged : WasmtimeSandbox → TetExecutionRequest → Guarded × WasmtimeSandbox → Type 0
  GuardJudged s req (Guarded.violation msg, s') =
      (s'.voucher_manager.used_nonces ≡ s.voucher_manager.used_nonces) × (s'.require_payment ≡ true)
  GuardJudged s req (Guarded.admits req', s') =
      (v : FuelVoucher) × (req'.voucher ≡ some v)
      × (req'.allocated_fuel ≡ v.fuel_limit)
      × Unused s v.nonce
      × (s'.voucher_manager.used_nonces ≡ v.nonce ∷ s.voucher_manager.used_nonces)
      × (s'.require_payment ≡ true)

  judged-Judged :
      (now : ℕ) (s : WasmtimeSandbox) (req : TetExecutionRequest) (v : FuelVoucher)
      (claim : Vouchers.Claim) (m : VoucherManager)
      → s.require_payment ≡ true
      → req.voucher ≡ some v
      → Judged crypto hex now s.voucher_manager v (claim, m)
      → GuardJudged s req
          (judged crypto hex runtime req v claim, with_vouchers crypto hex runtime s m)
  judged-Judged now s req v Vouchers.Claim.ok m paid has accepted =
      (v, has, refl, accepted.fresh, ap (λ m. m.used_nonces) accepted.recorded, paid)
  judged-Judged now s req v (Vouchers.Claim.err e) m paid has same =
      (ap (λ m. m.used_nonces) same, paid)

  guard_payment-Judged :
      (now : ℕ) (s : WasmtimeSandbox) (req : TetExecutionRequest)
      → s.require_payment ≡ true
      → GuardJudged s req (guard_payment crypto hex runtime now s req)
  unfolding guard_payment
  guard_payment-Judged now s req paid = elim (Option-cases req.voucher) [
    | inl e ↦ rw (paid, e, guard_payment) (refl, paid)
    | inr (v, e) ↦
        rw (paid, e, guard_payment)
          (judged-Judged now s req v (verify_and_claim crypto hex now s.voucher_manager v).0
            (verify_and_claim crypto hex now s.voucher_manager v).1 paid e
            (verify_and_claim-Judged crypto hex now s.voucher_manager v))
  ]

  -- One attempt: what was handed over is paid for by a voucher that was not used before and is now.
  abbrev Paid : WasmtimeSandbox → List TetExecutionRequest → WasmtimeSandbox → Type 0
  Paid s [] s' =
      (s'.voucher_manager.used_nonces ≡ s.voucher_manager.used_nonces)
      ⊎ ((n : List ℕ) × (s'.voucher_manager.used_nonces ≡ n ∷ s.voucher_manager.used_nonces))
  Paid s (req ∷ []) s' =
      (v : FuelVoucher) × (req.voucher ≡ some v)
      × (req.allocated_fuel ≡ v.fuel_limit)
      × Unused s v.nonce
      × (s'.voucher_manager.used_nonces ≡ v.nonce ∷ s.voucher_manager.used_nonces)
  Paid s (req ∷ req' ∷ reqs) s' = ⊥

  abbrev PaidStep : WasmtimeSandbox → Executed × WasmtimeSandbox → Type 0
  PaidStep s (outcome, s') = Paid s (handed outcome) s' × (s'.require_payment ≡ true)

  admitted-Paid :
      (s s' : WasmtimeSandbox) (req req' : TetExecutionRequest) (after : Executed × WasmtimeSandbox)
      → GuardJudged s req (Guarded.admits req', s')
      → Hands s' req' after
      → PaidStep s after
  admitted-Paid s s' req req' (outcome, s'') (v, has, fuel, unused, used, paid)
        (inl e, same, still) =
      (
        subst (λ hs. Paid s hs s'') (sym e) (inr (v.nonce, ap (λ m. m.used_nonces) same ∙ used)),
        still ∙ paid,
      )
  admitted-Paid s s' req req' (outcome, s'') (v, has, fuel, unused, used, paid)
        (inr e, same, still) =
      (
        subst (λ hs. Paid s hs s'') (sym e)
            (v, has, fuel, unused, ap (λ m. m.used_nonces) same ∙ used),
        still ∙ paid,
      )

  proceed-Paid :
      (s s' : WasmtimeSandbox) (req : TetExecutionRequest) (fresh_id id : List ℕ) (g : Guarded)
      → GuardJudged s req (g, s')
      → PaidStep s (elim g [
        | Guarded.violation msg ↦ (Executed.refused (economic_crash fresh_id req msg), s')
        | Guarded.admits req' ↦ run_request crypto hex runtime s' req' id
      ])
  proceed-Paid s s' req fresh_id id (Guarded.violation msg) (same, paid) = (inl same, paid)
  proceed-Paid s s' req fresh_id id (Guarded.admits req') g =
      admitted-Paid s s' req req' (run_request crypto hex runtime s' req' id) g
        (run_request-Hands s' req' id)

  execute-Paid :
      (s : WasmtimeSandbox) (a : Attempt)
      → s.require_payment ≡ true
      → PaidStep s (execute crypto hex runtime a.now s a.request a.fresh_id a.snapshot_id)
  unfolding execute
  execute-Paid s a paid =
      let g = guard_payment crypto hex runtime a.now s a.request in
      proceed-Paid s g.1 a.request a.fresh_id a.snapshot_id g.0
        (guard_payment-Judged a.now s a.request paid)

  -- What was unused later was unused before, and is not the nonce that was used meanwhile.
  AllUnused-before :
      (s s' : WasmtimeSandbox) (n : List ℕ) (ns : List (List ℕ))
      → s'.voucher_manager.used_nonces ≡ n ∷ s.voucher_manager.used_nonces
      → All (Unused s') ns
      → All (Unused s) ns × (contains n ns ≡ false)
  unfolding contains
  AllUnused-before s s' n [] used a = (tt, refl)
  AllUnused-before s s' n (k ∷ ns) used a =
      let rest = AllUnused-before s s' n ns used a.1 in
      ((ground arith, rest.0), ground (arith, bytes_eq.beq_iff n k, bytes_eq.beq_iff k n))

  abbrev AllPaid : WasmtimeSandbox → List TetExecutionRequest → Type 0
  AllPaid s reqs = All Funded reqs × All (Unused s) (nonces reqs) × Distinct (nonces reqs)

  extend-Paid :
      (s s' : WasmtimeSandbox) (hs rest : List TetExecutionRequest)
      → Paid s hs s'
      → AllPaid s' rest
      → AllPaid s (hs ++ rest)
  extend-Paid s s' [] rest (inl same) (f, u, d) =
      (f, subst (λ used. All (λ n. contains n used ≡ false) (nonces rest)) same u, d)
  extend-Paid s s' [] rest (inr (n, used)) (f, u, d) =
      (f, (AllUnused-before s s' n (nonces rest) used u).0, d)
  extend-Paid s s' (req ∷ []) rest (v, has, fuel, unused, used) (f, u, d) =
      let before = AllUnused-before s s' v.nonce (nonces rest) used u in
      rw has (((v, refl, fuel), f), (unused, before.0), (before.1, d))
  extend-Paid s s' (req ∷ req' ∷ hs) rest p q = absurd p

  -- Where payment is required, each execution that is run came with a voucher and was given exactly
  -- its fuel, and no two of them came with the same nonce, nor with one that was used before,
  -- whatever was asked for and however the executions ended.
  pub runs-Paid :
      (s : WasmtimeSandbox) (attempts : List Attempt)
      → s.require_payment ≡ true
      → All Funded (runs s attempts)
        × All (Unused s) (nonces (runs s attempts))
        × Distinct (nonces (runs s attempts))
  unfolding runs
  runs-Paid s [] paid = (tt, tt, tt)
  runs-Paid s (a ∷ attempts) paid =
      let after = execute crypto hex runtime a.now s a.request a.fresh_id a.snapshot_id in
      let step = execute-Paid s a paid in
      extend-Paid s after.1 (handed after.0) (runs after.1 attempts) step.0
        (runs-Paid after.1 attempts step.1)
