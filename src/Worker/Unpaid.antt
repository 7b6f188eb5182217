-- ===== src/Worker/Unpaid.antt =====
-- src/mesh_worker.rs with src/sandbox/sandbox_wasmtime.rs: the worker where each execution has to be
-- paid for by a voucher.
use mathlib.Core.List.{append-nil, append_assoc}
use trytet.Prelude.{
  ℕ, zero, suc, ◌≡◌, refl, ap, ◌∙◌, arith, true, Option, none, some, List, [], ◌∷◌, ◌++◌, All,
  codes, subst, Option-cases, inl, inr, sym,
}
use trytet.Prelude.HashMap
use trytet.Calls.{MeshMessage}
use trytet.Economy.Crypto.{Ed25519, Hex}
use trytet.Engine.{
  CrashType, alias_not_found, economic_violation, crash, MeshCallRequest, MeshCallResponse,
  TetExecutionRequest,
}
use trytet.Sandbox.{
  WasmtimeSandbox, TetError, Runtime, refused, economic_crash, guard_payment, execute,
}
use trytet.Worker.{
  Arrival, failure, execution_req, response, Worker, take_task, reply_of, handle_call,
  handle_message, run_task, Event, received, scheduled, after, serve,
}

-- A request that carries no voucher, as each has that a host call makes.
abbrev pub Unfunded : TetExecutionRequest → Type 0
Unfunded req = req.voucher ≡ none

abbrev pub UnfundedMessage : MeshMessage → Type 0
UnfundedMessage (MeshMessage.fork req) = Unfunded req
UnfundedMessage _ = Unit

-- A crash, without data, that used no fuel.
abbrev pub crashed : CrashType → List ℕ → MeshCallResponse
crashed error_type message = record {
  status = crash (record { error_type = error_type; instruction_offset = none; message = message });
  return_data = [];
  fuel_used = 0;
}

-- The answer to a call that is not paid for.
abbrev pub refusal : Arrival → MeshCallRequest → MeshCallResponse
refusal a req = elim a.resolved [
  | none ↦ crashed alias_not_found (codes "Tet-Mesh could not resolve alias: " ++ req.target_alias)
  | some metadata ↦ crashed economic_violation (codes "Missing Fuel Voucher")
]

All-append {ℓ κ} :
    {A : Type ℓ} (P : A → Type κ) (xs : List A) (x : A) → All P xs → P x → All P (xs ++ x ∷ [])
All-append P [] x h p = (p, tt)
All-append P (y ∷ xs) x h p = (h.0, All-append P xs x h.1 p)

abbrev Taken :
    (TetExecutionRequest → Type 0)
    → Option (TetExecutionRequest × List TetExecutionRequest)
    → Type 0
Taken P none = Unit
Taken P (some (req, rest)) = P req × All P rest

take_task-Taken :
    (P : TetExecutionRequest → Type 0) (i : ℕ) (tasks : List TetExecutionRequest)
    → All P tasks
    → Taken P (take_task i tasks)
unfolding take_task
take_task-Taken P zero [] h = tt
take_task-Taken P (suc i) [] h = tt
take_task-Taken P zero (t ∷ tasks) h = h
take_task-Taken P (suc i) (t ∷ tasks) h =
    elim (take_task i tasks)
        as (λ o.
          Taken P o
          → Taken P (elim o as (λ _. Option (TetExecutionRequest × List TetExecutionRequest)) [
            | none ↦ none
            | some (other, rest) ↦ some (other, t ∷ rest)
          ])) [ none ↦ λ k. tt | some (other, rest) ↦ λ k. (k.0, (h.0, k.1)) ]
      (take_task-Taken P i tasks h.1)

module _ (crypto : Ed25519) (hex : Hex) (runtime : Runtime) (to_string : TetError → List ℕ) where
  abbrev pub UnfundedEvent : Event crypto hex runtime to_string → Type 0
  UnfundedEvent (received a message) = UnfundedMessage message
  UnfundedEvent (scheduled a i) = Unit

  -- The answers to the calls among the events, in their order.
  abbrev pub refusals : List (Event crypto hex runtime to_string) → List MeshCallResponse
  refusals [] = []
  refusals (received a (MeshMessage.call req) ∷ events) = refusal a req ∷ refusals events
  refusals (received a message ∷ events) = refusals events
  refusals (scheduled a i ∷ events) = refusals events

  execute-Unfunded :
      (now : ℕ) (s : WasmtimeSandbox) (req : TetExecutionRequest) (fresh_id new_id : List ℕ)
      → s.require_payment ≡ true
      → Unfunded req
      → execute crypto hex runtime now s req fresh_id new_id
        ≡ (refused (economic_crash fresh_id req (codes "Missing Fuel Voucher")), s)
  unfolding execute guard_payment
  execute-Unfunded now s req fresh_id new_id paid unfunded = ground (arith, paid, unfunded)

  handle_call-refusal :
      (s : WasmtimeSandbox) (a : Arrival) (req : MeshCallRequest)
      → s.require_payment ≡ true
      → handle_call crypto hex runtime to_string s a req ≡ (refusal a req, s)
  unfolding handle_call failure reply_of response economic_crash HashMap.lookup
  handle_call-refusal s a req paid = elim (Option-cases a.resolved) [
    | inl e ↦ rw e refl
    | inr (metadata, e) ↦
        let same =
          execute-Unfunded a.now s (execution_req req metadata) a.fresh_id a.snapshot_id paid
            refl in
        rw (e, same) refl
  ]

  -- What stays so at each step: the sandbox, that no task is funded, and what was answered so far.
  abbrev Stays : WasmtimeSandbox → List MeshCallResponse → Worker → Type 0
  Stays s replies w = (w.sandbox ≡ s) × All Unfunded w.tasks × (w.replies ≡ replies)

  Stays-run_task :
      (s : WasmtimeSandbox) (replies : List MeshCallResponse) (w : Worker) (a : Arrival) (i : ℕ)
      → s.require_payment ≡ true
      → Stays s replies w
      → Stays s replies (run_task crypto hex runtime to_string w a i)
  unfolding run_task
  Stays-run_task s replies w a i paid h =
      let taken = take_task-Taken Unfunded i w.tasks h.1 in
      elim (Option-cases (take_task i w.tasks)) [
        | inl e ↦ rw (e, run_task) h
        | inr ((req, rest), e) ↦
            let k : Taken Unfunded (some (req, rest)) = subst (Taken Unfunded) e taken in
            let paid' : w.sandbox.require_payment ≡ true =
              ap (λ (s : WasmtimeSandbox). s.require_payment) h.0 ∙ paid in
            let same = execute-Unfunded a.now w.sandbox req a.fresh_id a.snapshot_id paid' k.0 in
            rw (e, run_task) (ap (λ r. r.1) same ∙ h.0, k.1, h.2)
      ]

  Stays-call :
      (s : WasmtimeSandbox) (replies : List MeshCallResponse) (w : Worker) (a : Arrival)
      (req : MeshCallRequest)
      → s.require_payment ≡ true
      → Stays s replies w
      → Stays s
          (replies ++ refusal a req ∷ [])
          (handle_message crypto hex runtime to_string w a (MeshMessage.call req))
  unfolding handle_message
  Stays-call s replies w a req paid h =
      let paid' : w.sandbox.require_payment ≡ true =
        ap (λ (s : WasmtimeSandbox). s.require_payment) h.0 ∙ paid in
      let answered = handle_call-refusal w.sandbox a req paid' in
      (
        ap (λ r. r.1) answered ∙ h.0,
        h.1,
        ap (λ r. w.replies ++ r.0 ∷ []) answered ∙ ap (λ rs. rs ++ refusal a req ∷ []) h.2,
      )

  Stays-serve :
      (s : WasmtimeSandbox) (replies : List MeshCallResponse) (w : Worker)
      (events : List (Event crypto hex runtime to_string))
      → s.require_payment ≡ true
      → All UnfundedEvent events
      → Stays s replies w
      → Stays s (replies ++ refusals events) (serve crypto hex runtime to_string w events)
  unfolding serve after handle_message
  Stays-serve s replies w [] paid us h = (h.0, h.1, h.2 ∙ sym (append-nil replies))
  Stays-serve s replies w (received a (MeshMessage.call req) ∷ events) paid us h =
      subst
        (λ rs. Stays s rs (
          serve crypto hex runtime to_string
            (handle_message crypto hex runtime to_string w a (MeshMessage.call req)) events))
        (append_assoc replies (refusal a req ∷ []) (refusals events))
        (Stays-serve s (replies ++ refusal a req ∷ [])
          (handle_message crypto hex runtime to_string w a (MeshMessage.call req)) events paid us.1
          (Stays-call s replies w a req paid h))
  Stays-serve s replies w (received a (MeshMessage.fork req) ∷ events) paid us h =
      Stays-serve s replies (handle_message crypto hex runtime to_string w a (MeshMessage.fork req))
        events paid us.1 (h.0, All-append Unfunded w.tasks req h.1 us.0, h.2)
  Stays-serve s replies w (received a (MeshMessage.economy_packet pkt) ∷ events) paid us h =
      Stays-serve s replies w events paid us.1 h
  Stays-serve s replies w (received a (MeshMessage.reclaim child) ∷ events) paid us h =
      Stays-serve s replies w events paid us.1 h
  Stays-serve s replies w (scheduled a i ∷ events) paid us h =
      Stays-serve s replies (run_task crypto hex runtime to_string w a i) events paid us.1
        (Stays-run_task s replies w a i paid h)

  -- Where payment is required, nothing that a guest sends is ever run: whatever calls and forks
  -- without vouchers come, and whenever the forks are scheduled, the sandbox stays as it is; and
  -- exactly the calls are answered, in their order, each by a crash without data that used no fuel:
  -- for a missing voucher, or for an alias that does not resolve.
  pub serve-unpaid :
      (w : Worker) (events : List (Event crypto hex runtime to_string))
      → w.sandbox.require_payment ≡ true
      → All UnfundedEvent events
      → All Unfunded w.tasks
      → ((serve crypto hex runtime to_string w events).sandbox ≡ w.sandbox)
        × ((serve crypto hex runtime to_string w events).replies ≡ w.replies ++ refusals events)
  unfolding serve after
  serve-unpaid w events paid us tasks =
      let stays = Stays-serve w.sandbox w.replies w events paid us (refl, tasks, refl) in
      (stays.0, stays.2)
