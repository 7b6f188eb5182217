-- ===== src/Hive/Departure.antt =====
-- src/teleport.rs: what a tet that is sent away leaves on its own node.

use trytet.Prelude.{
  ℕ, ◌≡◌, refl, ap, sym, subst, ◌∙◌, arith, Bool, true, false, not, Option, none, some, List, [],
  ◌∷◌, ◌++◌, codes, bytes_eq, if◌then◌else◌, Bool-cases, Option-cases, inl, inr,
}
use trytet.Engine.{AgentManifest}
use trytet.Hive.{SnapshotPayload, Bincode, payload_chunks}
use trytet.Hive.Arrival.{rest_of}
use trytet.Hive.Teleport.{
  TeleportRequest, permission_denied, target_error, network, Command, migration_notice, Teleported,
  done, failed, panicked, Surroundings, send_all, total_length, Sending, sent, stopped, outcome,
  send_payload, stream_directly, push_to_registry, Exported, exported, not_exported, export_agent,
  conclude, send_agent, execute,
}
use trytet.Mesh.{TetMetadata, deregister, resolve_local}
use trytet.Sandbox
use trytet.Sandbox.{WasmtimeSandbox}

-- Whether an agent may leave, by its manifest; `none` is one that is not found here or that cannot be
-- exported.
abbrev pub allowed : Exported → Option Bool
allowed not_exported = none
allowed (exported p manifest) = some manifest.permissions.can_teleport

unfoldable pub permission : Surroundings → TeleportRequest → WasmtimeSandbox → Option Bool
permission a req s = elim (resolve_local s.mesh req.agent_id a.now) [
  | none ↦ none
  | some metadata ↦ allowed (export_agent a s req.agent_id).0
]

-- What a teleportation leaves, by the permission of its agent. Without one, it fails for that reason,
-- nothing is sent, and the mesh is as it was; with one, the alias is gone if there is a receipt, and
-- else the mesh is as it was.
abbrev pub Leaves :
    TeleportRequest
    → WasmtimeSandbox
    → Option Bool
    → Teleported × WasmtimeSandbox × List Command
    → Type 0
Leaves req s none (result, s', commands) =
    (result ≡ failed network) × (commands ≡ []) × (s'.mesh ≡ s.mesh)
Leaves req s (some false) (result, s', commands) =
    (result ≡ failed permission_denied) × (commands ≡ []) × (s'.mesh ≡ s.mesh)
Leaves req s (some true) (done receipt, s', commands) = s'.mesh ≡ deregister s.mesh req.agent_id
Leaves req s (some true) (failed permission_denied, s', commands) = ⊥
Leaves req s (some true) (failed target_error, s', commands) = s'.mesh ≡ s.mesh
Leaves req s (some true) (failed network, s', commands) = s'.mesh ≡ s.mesh
Leaves req s (some true) (panicked, s', commands) = s'.mesh ≡ s.mesh

mesh-export_agent :
    (a : Surroundings) (s : WasmtimeSandbox) (id : List ℕ) → (export_agent a s id).1.mesh ≡ s.mesh
unfolding export_agent Sandbox.snapshot Sandbox.import_snapshot
mesh-export_agent a s id = ground arith

-- The sending itself never fails for want of a permission.
abbrev is_denied : Sending → Bool
is_denied (sent bytes) = false
is_denied (stopped permission_denied) = true
is_denied (stopped e) = false

is_denied-outcome : (n : ℕ) (r : List Command × Bool) → is_denied (outcome n r).1 ≡ false
unfolding outcome
is_denied-outcome n (commands, true) = refl
is_denied-outcome n (commands, false) = refl

is_denied-send_payload :
    (delivers : ℕ → Bool) (o : Option (List ℕ)) → is_denied (send_payload delivers o).1 ≡ false
unfolding send_payload
is_denied-send_payload delivers none = refl
is_denied-send_payload delivers (some bytes) =
    is_denied-outcome (total_length (payload_chunks bytes)) (send_all delivers 1 (rest_of bytes))

is_denied-stream_directly :
    (bincode : Bincode) (delivers : ℕ → Bool) (manifest : AgentManifest) (id : List ℕ)
    (p : SnapshotPayload)
    → is_denied (stream_directly bincode delivers manifest id p).1 ≡ false
unfolding stream_directly
is_denied-stream_directly bincode delivers manifest id p = elim (Bool-cases (delivers 0)) [
  | inl through ↦ rw through (is_denied-send_payload delivers (bincode.serialize p))
  | inr lost ↦ rw lost refl
]

is_denied-push_to_registry :
    (o : Option (SnapshotPayload → List ℕ → Bool)) (delivers : ℕ → Bool) (agent_id : List ℕ)
    (manifest : AgentManifest) (id : List ℕ) (p : SnapshotPayload)
    → is_denied (push_to_registry o delivers agent_id manifest id p).1 ≡ false
unfolding push_to_registry
is_denied-push_to_registry none delivers agent_id manifest id p = refl
is_denied-push_to_registry (some push) delivers agent_id manifest id p =
    let reference = agent_id ++ codes "-state:temp" in
    elim (Bool-cases (push p reference)) [
      | inl pushed ↦
          rw pushed (
            is_denied-outcome 0 (send_all delivers 0 (migration_notice reference manifest id ∷ [])))
      | inr refused ↦ rw refused refl
    ]

conclude-Leaves :
    (a : Surroundings) (req : TeleportRequest) (s : WasmtimeSandbox) (commands : List Command)
    (sending : Sending)
    → is_denied sending ≡ false
    → Leaves req s
        (some true)
        ((conclude a req s sending).0, (conclude a req s sending).1, commands)
unfolding conclude
conclude-Leaves a req s commands (stopped permission_denied) h = cc
conclude-Leaves a req s commands (stopped target_error) h = refl
conclude-Leaves a req s commands (stopped network) h = refl
conclude-Leaves a req s commands (sent bytes) h = elim (Bool-cases a.wallet_loads) [
  | inl loads ↦ rw loads refl
  | inr fails ↦ rw fails refl
]

Leaves-sending :
    (a : Surroundings) (req : TeleportRequest) (s : WasmtimeSandbox) (may by_registry : Bool)
    (push stream : List Command × Sending)
    → is_denied push.1 ≡ false
    → is_denied stream.1 ≡ false
    → Leaves req s (some may) (
        if not may
        then (failed permission_denied, s, [])
        else (let (commands, sending) = if by_registry then push else stream in
            let (result, s') = conclude a req s sending in (result, s', commands)))
Leaves-sending a req s false by_registry push stream h k = (refl, refl, refl)
Leaves-sending a req s true true push stream h k = conclude-Leaves a req s push.0 push.1 h
Leaves-sending a req s true false push stream h k = conclude-Leaves a req s stream.0 stream.1 k

send_agent-Leaves :
    (bincode : Bincode) (a : Surroundings) (req : TeleportRequest) (s : WasmtimeSandbox)
    (agent : Exported)
    → Leaves req s (allowed agent) (send_agent bincode a req s agent)
unfolding send_agent
send_agent-Leaves bincode a req s not_exported = (refl, refl, refl)
send_agent-Leaves bincode a req s (exported p manifest) =
    Leaves-sending a req s manifest.permissions.can_teleport req.use_registry _ _
      (is_denied-push_to_registry a.push_state a.delivers req.agent_id manifest a.snapshot_id p)
      (is_denied-stream_directly bincode a.delivers manifest a.snapshot_id p)

-- The same from another sandbox with the same mesh.
Leaves-mesh :
    (req : TeleportRequest) (s t : WasmtimeSandbox) (o : Option Bool)
    (r : Teleported × WasmtimeSandbox × List Command)
    → t.mesh ≡ s.mesh
    → Leaves req t o r
    → Leaves req s o r
Leaves-mesh req s t none (result, s', commands) e h = (h.0, h.1, h.2 ∙ e)
Leaves-mesh req s t (some false) (result, s', commands) e h = (h.0, h.1, h.2 ∙ e)
Leaves-mesh req s t (some true) (done receipt, s', commands) e h =
    h ∙ ap (λ m. deregister m req.agent_id) e
Leaves-mesh req s t (some true) (failed permission_denied, s', commands) e h = h
Leaves-mesh req s t (some true) (failed target_error, s', commands) e h = h ∙ e
Leaves-mesh req s t (some true) (failed network, s', commands) e h = h ∙ e
Leaves-mesh req s t (some true) (panicked, s', commands) e h = h ∙ e

permission-resolved :
    (a : Surroundings) (req : TeleportRequest) (s : WasmtimeSandbox) (o : Option TetMetadata)
    → resolve_local s.mesh req.agent_id a.now ≡ o
    → permission a req s
      ≡ elim o [ none ↦ none | some metadata ↦ allowed (export_agent a s req.agent_id).0 ]
unfolding permission
permission-resolved a req s o e =
    ap
      (λ o. elim o as (λ x. Option Bool) [
        | none ↦ none
        | some metadata ↦ allowed (export_agent a s req.agent_id).0
      ])
      e

-- Of an agent whose manifest does not let it leave, no command is sent, by either way, and the
-- teleportation is denied; of one that is not found or cannot be exported none is sent either, and the
-- teleportation fails. In both cases the node's mesh is as it was. Of one that may leave, the alias is
-- gone from its node if there is a receipt, and else the mesh is as it was; it is never denied.
pub execute-Leaves :
    (bincode : Bincode) (a : Surroundings) (req : TeleportRequest) (s : WasmtimeSandbox)
    → Leaves req s (permission a req s) (execute bincode a req s)
unfolding execute
execute-Leaves bincode a req s = elim (Option-cases (resolve_local s.mesh req.agent_id a.now)) [
  | inl e ↦
      subst (λ o. Leaves req s o (execute bincode a req s))
        (sym (permission-resolved a req s none e)) (rw (e, execute) (refl, refl, refl))
  | inr (metadata, e) ↦
      let (agent, s') = export_agent a s req.agent_id in
      subst (λ o. Leaves req s o (execute bincode a req s))
        (sym (permission-resolved a req s (some metadata) e))
        (rw (e, execute)
          (Leaves-mesh req s s' (allowed agent) (send_agent bincode a req s' agent)
            (mesh-export_agent a s req.agent_id) (send_agent-Leaves bincode a req s' agent)))
]
