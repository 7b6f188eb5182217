-- ===== src/Gateway.antt =====
-- src/gateway.rs: the routes of a node's tets, and the routing of a request to a tet here or to the
-- node that has it. Texts are their bytes, and the texts of errors are left out. The registry of the
-- swarm, the network and the sandbox are parameters. `register_route` keeps its guard on the
-- alias's routes, and so it is one step.
pub mod Routes
pub mod Tests
use trytet.Prelude.{
  ℕ, ◌+◌, Bool, true, false, ◌&&◌, ◌||◌, not, leb, Option, none, some, List, [], ◌∷◌, ◌++◌, map,
  ◌==◌, bytes_eq, if◌then◌else◌, codes, starts_with,
}
use trytet.Prelude.HashMap
use trytet.Prelude.HashMap.{HashMap}
use trytet.Engine.{MeshCallRequest, MeshCallResponse, is_success}

pub data GatewayError : Type 0 where
  route_not_found node_unreachable dht_error execution_failed : GatewayError

pub data Reply : Type 0 where
  ok : List ℕ → Reply
  err : GatewayError → Reply

pub record IngressRoute : Type 0 where
  pub alias : List ℕ
  pub path : List ℕ
  pub handler_func : List ℕ

pub record GatewayRequest : Type 0 where
  pub alias : List ℕ
  pub path : List ℕ
  pub method : List ℕ
  pub body : List ℕ
  pub headers : List (List ℕ × List ℕ)

-- `local_routes`, the part of a `Gateway` that changes.
abbrev pub Routes : Type 0
Routes = HashMap (List ℕ) (List IngressRoute)

abbrev pub or_default : Option (List IngressRoute) → List IngressRoute
or_default none = []
or_default (some routes) = routes

unfoldable pub has_path : List ℕ → List IngressRoute → Bool
has_path path [] = false
has_path path (r ∷ routes) = r.path == path || has_path path routes

-- A path that the alias has already keeps its handler.
unfoldable pub add_route : IngressRoute → List IngressRoute → List IngressRoute
unfolding has_path
add_route r routes = if has_path r.path routes then routes else routes ++ r ∷ []

unfoldable pub register_route : Routes → List ℕ → List ℕ → List ℕ → Routes
unfolding add_route
register_route local_routes alias path handler_func =
    HashMap.insert alias
      (add_route (record { alias = alias; path = path; handler_func = handler_func })
        (or_default (HashMap.lookup alias local_routes)))
      local_routes

-- `iter().find(|r| req.path.starts_with(&r.path))`
unfoldable pub find_route : List ℕ → List IngressRoute → Option IngressRoute
unfolding starts_with
find_route path [] = none
find_route path (r ∷ routes) = if starts_with path r.path then some r else find_route path routes

pub data HttpMethod : Type 0 where
  get post put delete : HttpMethod

pub record HttpRequest : Type 0 where
  pub method : HttpMethod
  pub url : List ℕ
  pub headers : List (List ℕ × List ℕ)
  pub body : List ℕ

-- What comes of a request: no connection, or a status with the body, if that can be read.
pub data HttpReply : Type 0 where
  unreachable : HttpReply
  responds : ℕ → Option (List ℕ) → HttpReply

pub data Resolved : Type 0 where
  at_node : List ℕ → Resolved
  nowhere : Resolved
  dht_failed : GatewayError → Resolved

-- What the gateway calls: the sandbox, the registry of the swarm, and the network.
pub record Outside : Type 0 where
  pub send_mesh_call : MeshCallRequest → Option MeshCallResponse
  pub resolve_alias : List ℕ → Resolved
  pub send : HttpRequest → HttpReply

unfoldable pub method_of : List ℕ → HttpMethod
method_of m =
    if m == codes "GET"
    then get
    else if m == codes "POST"
    then post
    else if m == codes "PUT"
    then put
    else if m == codes "DELETE"
    then delete
    else post

-- `to_lowercase` of the ASCII letters; no other letter becomes one of `x-trytet-`.
unfoldable pub to_lowercase : List ℕ → List ℕ
to_lowercase text = map (λ c. if leb 65 c && leb c 90 then c + 32 else c) text

unfoldable pub identity_headers : List (List ℕ × List ℕ) → List (List ℕ × List ℕ)
unfolding to_lowercase starts_with
identity_headers [] = []
identity_headers ((k, v) ∷ headers) =
    let rest = identity_headers headers in
    if starts_with (to_lowercase k) (codes "x-trytet-") then (k, v) ∷ rest else rest

unfoldable pub mesh_call : IngressRoute → GatewayRequest → MeshCallRequest
mesh_call route req = record {
  target_alias = route.alias;
  method = req.method;
  payload = req.body;
  fuel_to_transfer = 10000000;
  current_depth = 0;
  target_function = some route.handler_func;
}

unfoldable pub local_reply : Option MeshCallResponse → Reply
local_reply none = err execution_failed
local_reply (some res) = if is_success res.status then ok res.return_data else err execution_failed

unfoldable pub proxy_request : List ℕ → GatewayRequest → HttpRequest
unfolding method_of identity_headers
proxy_request target_ip req = record {
  method = method_of req.method;
  url = codes "http://" ++ (target_ip ++ (codes "/ingress/" ++ (req.alias ++ req.path)));
  headers = identity_headers req.headers;
  body = req.body;
}

-- `is_client_error() || is_server_error()`
unfoldable pub proxy_reply : HttpReply → Reply
proxy_reply unreachable = err node_unreachable
proxy_reply (responds status body) =
    if leb 400 status && leb status 599
    then err execution_failed
    else elim body [ none ↦ err node_unreachable | some out ↦ ok out ]

module _ (outside : Outside) where
  open outside use {send_mesh_call, resolve_alias, send}

  -- Steps 2 and 3.
  unfoldable pub handle_remote : GatewayRequest → Reply
  unfolding proxy_request proxy_reply
  handle_remote req = elim (resolve_alias req.alias) [
    | dht_failed e ↦ err e
    | nowhere ↦ err route_not_found
    | at_node target_ip ↦ proxy_reply (send (proxy_request target_ip req))
  ]

  unfoldable pub handle_request : Routes → GatewayRequest → Reply
  unfolding find_route mesh_call local_reply handle_remote
  handle_request local_routes req =
      elim (find_route req.path (or_default (HashMap.lookup req.alias local_routes))) [
        | none ↦ handle_remote req
        | some route ↦ local_reply (send_mesh_call (mesh_call route req))
      ]
