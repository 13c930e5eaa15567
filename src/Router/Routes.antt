-- ===== src/Router/Routes.antt =====
-- Registering and unregistering routes, and what that means for the messages that follow.
use testmerge.Base.{
  String, ◌≡◌, refl, ap, false, none, some, List, [], ◌∷◌, str_eq, if◌then◌else◌, if-false, arith,
  Bool-cases, inl, inr, ◌∙◌,
}
use testmerge.Base.Maps
use testmerge.Base.Maps.{get-set, get-delete}
use testmerge.Router.{
  ClientId, RpcMessage, WshRouter, new_router, Delivery, to_client, to_upstream, announce,
  unannounce, deliver, send_routed_message, recv_rpc_message, register_route, unregister_route,
}
use testmerge.Router.Rpc.{routes-recv}

-- A route other than the reserved one is announced upstream once and registered: from then on a
-- message to it goes to its client, and a message to any other route goes where it went before.
pub register_route-sends :
    (r : WshRouter) (route_id other : String) (client : ClientId) (msg : RpcMessage)
    → str_eq route_id "sys" ≡ false
    → (r' : WshRouter) × (register_route r route_id client
        ≡ some (r', to_upstream (announce route_id) ∷ []))
      × (send_routed_message r' msg (some other) ≡ (
          if str_eq route_id other
          then to_client client msg
          else send_routed_message r msg (some other)))
unfolding register_route send_routed_message
register_route-sends r route_id other client msg h = (
  record r { route_map = Maps.set r.route_map route_id client },
  if-false _ _ h,
  elim (Bool-cases (str_eq route_id other)) [
    | inl e ↦ simp (get-set, e)
    | inr e ↦ simp (get-set, e)
  ],
)

-- An unregistered route is taken back upstream once: from then on a message to it goes upstream,
-- and a message to any other route goes where it went before.
pub unregister_route-sends :
    (r : WshRouter) (route_id other : String) (msg : RpcMessage)
    → ((unregister_route r route_id).1 ≡ to_upstream (unannounce route_id) ∷ [])
      × (send_routed_message (unregister_route r route_id).0 msg (some other) ≡ (
          if str_eq route_id other
          then to_upstream msg
          else send_routed_message r msg (some other)))
unfolding unregister_route send_routed_message
unregister_route-sends r route_id other msg = (
  refl,
  elim (Bool-cases (str_eq route_id other)) [
    | inl e ↦ simp (get-delete, e)
    | inr e ↦ simp (get-delete, e)
  ],
)

-- The routers that the calls of the methods lead to.
pub data Reachable : WshRouter → Type 0 where
  fresh : Reachable new_router
  received : {r : WshRouter} (msg : RpcMessage) → Reachable r → Reachable (recv_rpc_message r msg).0
  registered :
      {r r' : WshRouter} {out : List Delivery} (route_id : String) (client : ClientId)
      → register_route r route_id client ≡ some (r', out)
      → Reachable r
      → Reachable r'
  unregistered :
      {r : WshRouter} (route_id : String) → Reachable r → Reachable (unregister_route r route_id).0

registered_lem :
    (r r' : WshRouter) (out : List Delivery) (route_id : String) (client : ClientId)
    → register_route r route_id client ≡ some (r', out)
    → (str_eq route_id "sys" ≡ false) × (r'.route_map ≡ Maps.set r.route_map route_id client)
unfolding register_route
registered_lem r r' out route_id client e = ground arith

sys_unregistered : {r : WshRouter} → Reachable r → Maps.get r.route_map "sys" ≡ none
unfolding unregister_route
sys_unregistered fresh = unfold Maps.get in refl
sys_unregistered (received {r} msg h) =
    ap (λ m. Maps.get m "sys") (routes-recv r msg) ∙ sys_unregistered h
sys_unregistered (registered {r} {r'} {out} route_id client e h) =
    let (free, routes) = registered_lem r r' out route_id client e in
    ap (λ m. Maps.get m "sys") routes
    ∙ (get-set r.route_map route_id client "sys" ∙ (if-false _ _ free ∙ sys_unregistered h))
sys_unregistered (unregistered {r} route_id h) =
    get-delete r.route_map route_id "sys" ∙ ground (arith, sys_unregistered h)

-- Whatever methods were called, a message to the reserved route goes upstream.
pub sys_goes_upstream :
    (r : WshRouter) (msg : RpcMessage)
    → Reachable r
    → send_routed_message r msg (some "sys") ≡ to_upstream msg
unfolding send_routed_message
sys_goes_upstream r msg h = ap (deliver msg) (sys_unregistered h)
