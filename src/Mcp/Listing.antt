-- ===== src/Mcp/Listing.antt =====
-- src/mcp/server.rs: the tools that are listed are those that can be called.
use trytet.Prelude.{
  ℕ, ◌≡◌, refl, sym, ap, ◌∙◌, arith, Bool, true, false, not, Option, none, some, List, [], ◌∷◌,
  ◌++◌, ◌||◌, map, ◌==◌, bytes_eq, contains, contains-append, codes, if◌then◌else◌, Bool-cases, inl,
  inr,
}
use trytet.Cartridge.{Wasm}
use trytet.Economy.Crypto.{Ed25519, Hex}
use trytet.Sandbox.{Runtime, Executed}
use trytet.Mcp.{
  CartridgeDef, method_not_found, Tool, Response, make_response, make_error, Json, all_cartridges,
  find_cartridge, unwrap_or_empty,
}
use trytet.Mcp.Requests.{
  describe, tool_list, Moment, Errors, McpServer, call_cartridge, invoke_execute, invoke_snapshot,
  snapshot_answer, invoke_fork, fork_answer, invoke_tool, is_empty,
}

-- An answer that says that there is no such tool.
abbrev pub is_not_found {ℓ} : {Value : Type ℓ} → Response Value → Bool
is_not_found (make_response id r) = false
is_not_found (make_error id method_not_found message) = true
is_not_found (make_error id _ message) = false

abbrev pub tool_names : List Tool → List (List ℕ)
tool_names [] = []
tool_names (t ∷ ts) = t.name ∷ tool_names ts

describe-name : (name : List ℕ) → (describe name).name ≡ name
unfolding describe
describe-name name = ground arith

abbrev def_names : List CartridgeDef → List (List ℕ)
def_names [] = []
def_names (def ∷ defs) = def.name ∷ def_names defs

tool_names-append : (xs ys : List Tool) → tool_names (xs ++ ys) ≡ tool_names xs ++ tool_names ys
tool_names-append [] ys = refl
tool_names-append (x ∷ xs) ys = ap (λ names. x.name ∷ names) (tool_names-append xs ys)

tool_names-describe :
    (defs : List CartridgeDef) → tool_names (map (λ def. describe def.name) defs) ≡ def_names defs
tool_names-describe [] = refl
tool_names-describe (def ∷ defs) =
    rw (describe-name def.name) (ap (λ names. def.name ∷ names) (tool_names-describe defs))

-- Whether a cartridge of that name is found.
abbrev found : Option CartridgeDef → Bool
found none = false
found (some def) = true

found-find_cartridge :
    (name : List ℕ) (defs : List CartridgeDef)
    → found (find_cartridge name defs) ≡ contains name (def_names defs)
unfolding find_cartridge contains
found-find_cartridge name [] = refl
found-find_cartridge name (def ∷ defs) = ground (
  arith,
  found-find_cartridge name defs,
  bytes_eq.beq_iff name def.name,
  bytes_eq.beq_iff def.name name,
)

-- The three tools that are no cartridges.
abbrev others : List (List ℕ)
others = codes "trytet_execute" ∷ codes "trytet_snapshot" ∷ codes "trytet_fork" ∷ []

contains-listed :
    (name : List ℕ) (defs : List CartridgeDef) (rest : List Tool)
    → contains name (tool_names (map (λ def. describe def.name) defs ++ rest))
      ≡ (found (find_cartridge name defs) || contains name (tool_names rest))
contains-listed name defs rest =
    let listed = map (λ (def : CartridgeDef). describe def.name) defs in
    ap (contains name) (tool_names-append listed rest)
    ∙ contains-append name (tool_names listed) (tool_names rest)
    ∙ ap (λ b. b || contains name (tool_names rest))
        (ap (contains name) (tool_names-describe defs) ∙ sym (found-find_cartridge name defs))

contains-tool_list :
    (name : List ℕ) (extra : List CartridgeDef)
    → contains name (tool_names (tool_list extra))
      ≡ (found (find_cartridge name (all_cartridges extra)) || contains name others)
unfolding tool_list
contains-tool_list name extra = contains-listed name (all_cartridges extra) (
    describe (codes "trytet_execute")
    ∷ describe (codes "trytet_snapshot")
    ∷ describe (codes "trytet_fork")
    ∷ [])

-- A choice between three answers that are not refusals, and a fourth.
choice-not_found {ℓ κ} :
    {Value : Type ℓ} {S : Type κ} (a b c f : Bool) (x y z w : Response Value × S)
    → is_not_found x.0 ≡ false
    → is_not_found y.0 ≡ false
    → is_not_found z.0 ≡ false
    → is_not_found w.0 ≡ not f
    → is_not_found (if a then x else if b then y else if c then z else w).0
      ≡ not (f || (a || (b || (c || false))))
choice-not_found true b c true x y z w p q r h = p
choice-not_found true b c false x y z w p q r h = p
choice-not_found false true c true x y z w p q r h = q
choice-not_found false true c false x y z w p q r h = q
choice-not_found false false true true x y z w p q r h = r
choice-not_found false false true false x y z w p q r h = r
choice-not_found false false false true x y z w p q r h = h
choice-not_found false false false false x y z w p q r h = h

module _ (crypto : Ed25519) (hex : Hex) (runtime : Runtime) (json : Json) (wasm : Wasm)
    {Dir : Type 0} (read : Dir → List (List ℕ) → Option (List ℕ)) (errors : Errors) where
  open json use {Value, field, as_str}

  invoke_snapshot-found :
      (moment : Moment) (s : McpServer wasm Dir) (id args : Value)
      → is_not_found (invoke_snapshot json wasm read errors moment s id args).0 ≡ false
  unfolding invoke_snapshot snapshot_answer
  invoke_snapshot-found moment s id args = ground arith

  fork_answer-found :
      (id : Value) (e : Executed) → is_not_found (fork_answer json wasm read errors id e) ≡ false
  unfolding fork_answer
  fork_answer-found id (Executed.ran req r) = refl
  fork_answer-found id (Executed.refused r) = refl
  fork_answer-found id (Executed.failed e) = refl
  fork_answer-found id (Executed.broke req e) = refl

  invoke_fork-found :
      (moment : Moment) (s : McpServer wasm Dir) (id args : Value)
      → is_not_found (invoke_fork crypto hex runtime json wasm read errors moment s id args).0
        ≡ false
  unfolding invoke_fork
  invoke_fork-found moment s id args =
      elim (Bool-cases (is_empty (unwrap_or_empty (as_str (field args (codes "snapshot_id")))))) [
        | inl e ↦ rw e refl
        | inr e ↦ rw e (fork_answer-found id _)
      ]

  call_cartridge-found :
      (moment : Moment) (s : McpServer wasm Dir) (id args : Value) (name : List ℕ)
      (o : Option CartridgeDef)
      → is_not_found (call_cartridge json wasm read errors moment s id args name o).0
        ≡ not (found o)
  unfolding call_cartridge
  call_cartridge-found moment s id args name none = refl
  call_cartridge-found moment s id args name (some def) = refl

  -- A call of a tool is answered by "Tool not found" exactly when the tool is not on the list that the
  -- server gives, whatever was registered and whatever comes of the call.
  pub invoke_tool-listed :
      (moment : Moment) (s : McpServer wasm Dir) (id params : Value)
      → is_not_found (invoke_tool crypto hex runtime json wasm read errors moment s id params).0
        ≡ not (
            contains
              (unwrap_or_empty (as_str (field params (codes "name"))))
              (tool_names (tool_list s.extra_cartridges)))
  unfolding invoke_tool contains invoke_execute
  invoke_tool-listed moment s id params =
      let name = unwrap_or_empty (as_str (field params (codes "name"))) in
      let args = field params (codes "arguments") in
      let o = find_cartridge name (all_cartridges s.extra_cartridges) in
      choice-not_found (name == codes "trytet_execute") (name == codes "trytet_snapshot")
        (name == codes "trytet_fork") (found o)
        (invoke_execute json wasm read errors moment s id args)
        (invoke_snapshot json wasm read errors moment s id args)
        (invoke_fork crypto hex runtime json wasm read errors moment s id args) _ refl
        (invoke_snapshot-found moment s id args) (invoke_fork-found moment s id args)
        (call_cartridge-found moment s id args name o)
      ∙ ap not (sym (contains-tool_list name s.extra_cartridges))
