-- ===== src/Gateway/Routes.antt =====
-- src/gateway.rs: the routes that a history of registrations leaves.
use trytet.Prelude.{
  ◌≡◌, refl, ap, ◌∙◌, sym, arith, ℕ, true, ◌&&◌, Option, none, some, List, [], ◌∷◌, ◌++◌, ◌==◌,
  bytes_eq, bytes_beq_iff, if◌then◌else◌, starts_with, Bool-cases, inl, inr,
}
use trytet.Prelude.HashMap
use trytet.Gateway.{
  Outside, IngressRoute, GatewayRequest, Routes, or_default, has_path, add_route, register_route,
  find_route, mesh_call, local_reply, handle_remote, handle_request,
}

abbrev pub or_else : Option IngressRoute → Option IngressRoute → Option IngressRoute
or_else none o = o
or_else (some r) o = some r

abbrev serves : List ℕ → IngressRoute → Option IngressRoute
serves path r = if starts_with path r.path then some r else none

or_else-none : (o : Option IngressRoute) → o ≡ or_else o none
or_else-none none = refl
or_else-none (some r) = refl

find_route-append :
    (path : List ℕ) (routes : List IngressRoute) (r : IngressRoute)
    → find_route path (routes ++ r ∷ []) ≡ or_else (find_route path routes) (serves path r)
unfolding find_route
find_route-append path [] r = ground arith
find_route-append path (x ∷ routes) r = ground (arith, find_route-append path routes r)

-- Where a registered path fits a request, one of the routes does.
find_route-has_path :
    (path : List ℕ) (routes : List IngressRoute) (r : IngressRoute)
    → has_path r.path routes ≡ true
    → or_else (find_route path routes) (serves path r) ≡ find_route path routes
unfolding find_route has_path
find_route-has_path path [] r h = cc
find_route-has_path path (x ∷ routes) r h = elim (Bool-cases (x.path == r.path)) [
  | inl same ↦
      let one = (bytes_beq_iff x.path r.path).0 same in
      let alike = ap (starts_with path) one in ground arith
  | inr other ↦ ground (arith, find_route-has_path path routes r)
]

find_route-add_route :
    (path : List ℕ) (routes : List IngressRoute) (r : IngressRoute)
    → find_route path (add_route r routes) ≡ or_else (find_route path routes) (serves path r)
unfolding add_route
find_route-add_route path routes r = elim (Bool-cases (has_path r.path routes)) [
  | inl old ↦ rw (old, add_route) (sym (find_route-has_path path routes r old))
  | inr new ↦ rw (new, add_route) (find_route-append path routes r)
]

-- Registrations in order.
unfoldable pub register_all : Routes → List IngressRoute → Routes
register_all routes [] = routes
register_all routes (r ∷ history) =
    register_all (register_route routes r.alias r.path r.handler_func) history

-- The first registration under an alias whose path begins the path of a request.
unfoldable pub first_match : List ℕ → List ℕ → List IngressRoute → Option IngressRoute
first_match alias path [] = none
first_match alias path (r ∷ history) =
    if r.alias == alias && starts_with path r.path then some r else first_match alias path history

abbrev found : List ℕ → List ℕ → Routes → Option IngressRoute
found alias path routes = find_route path (or_default (HashMap.lookup alias routes))

found-register_route :
    (alias path : List ℕ) (routes : Routes) (r : IngressRoute)
    → found alias path (register_route routes r.alias r.path r.handler_func)
      ≡ or_else
          (found alias path routes)
          (if r.alias == alias && starts_with path r.path then some r else none)
unfolding register_route
found-register_route alias path routes r =
    let old = or_default (HashMap.lookup r.alias routes) in
    let put = HashMap.lookup-insert r.alias alias (add_route r old) routes in
    let here = find_route-add_route path old r in
    elim (Bool-cases (r.alias == alias)) [
      | inl same ↦
          let one = (bytes_beq_iff r.alias alias).0 same in
          let entry = ap (λ a. found a path routes) one in
          rw (put, same) (here ∙ ap (λ o. or_else o (serves path r)) entry)
      | inr other ↦ rw (put, other) (or_else-none (found alias path routes))
    ]

found-register_all :
    (alias path : List ℕ) (routes : Routes) (history : List IngressRoute)
    → found alias path (register_all routes history)
      ≡ or_else (found alias path routes) (first_match alias path history)
unfolding register_all first_match
found-register_all alias path routes [] = or_else-none (found alias path routes)
found-register_all alias path routes (r ∷ history) =
    let first = found-register_route alias path routes r in
    let rest =
      found-register_all alias path (register_route routes r.alias r.path r.handler_func) history in
    ground arith

-- After any history of registrations, a request is answered by the tet and handler that were the
-- first registered under its alias with a path that begins its own; no later registration takes it
-- over, not even one of a longer path. Only if there is none is it passed on.
pub handle_request-register_all :
    (outside : Outside) (history : List IngressRoute) (req : GatewayRequest)
    → handle_request outside (register_all [] history) req
      ≡ elim (first_match req.alias req.path history) [
        | none ↦ handle_remote outside req
        | some r ↦ local_reply (outside.send_mesh_call (mesh_call r req))
      ]
unfolding handle_request HashMap.lookup find_route
handle_request-register_all outside history req =
    let same = found-register_all req.alias req.path [] history in ground arith
