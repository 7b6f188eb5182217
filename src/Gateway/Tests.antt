-- ===== src/Gateway/Tests.antt =====
-- Witnesses and tests of the gateway.
use trytet.Prelude.{ℕ, ◌≡◌, refl, none, some, List, [], ◌∷◌, codes, starts_with}
use trytet.Prelude.HashMap
use trytet.Engine.{success}
use trytet.Gateway.{
  Outside, IngressRoute, GatewayRequest, HttpReply, Resolved, Reply, local_reply, register_route,
  mesh_call, handle_request,
}
use trytet.Gateway.Routes.{register_all, first_match, handle_request-register_all}

-- A sandbox that returns the name of the handler, and a swarm without nodes.
abbrev outside : Outside
outside = record {
  send_mesh_call = λ call. some (record {
    status = success;
    return_data = elim call.target_function [ none ↦ [] | some f ↦ f ];
    fuel_used = 0;
  });
  resolve_alias = λ alias. Resolved.nowhere;
  send = λ req. HttpReply.unreachable;
}

abbrev route : List ℕ → List ℕ → IngressRoute
route path handler = record { alias = codes "shop"; path = path; handler_func = handler }

abbrev request : GatewayRequest
request = record {
  alias = codes "shop";
  path = codes "/api/cart";
  method = codes "GET";
  body = [];
  headers = [];
}

abbrev history : List IngressRoute
history = route (codes "/api") (codes "api") ∷ route (codes "/api/cart") (codes "cart") ∷ []

handle_request-register_all_example :
    handle_request outside (register_all [] history) request
    ≡ local_reply (outside.send_mesh_call (mesh_call (route (codes "/api") (codes "api")) request))
unfolding register_all local_reply first_match starts_with
handle_request-register_all_example = handle_request-register_all outside history request

-- The longer path is never served.
shadowed : handle_request outside (register_all [] history) request ≡ Reply.ok (codes "api")
unfolding handle_request register_all register_route HashMap.lookup HashMap.insert
shadowed = refl
