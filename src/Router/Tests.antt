-- ===== src/Router/Tests.antt =====
-- The theorems on the router at concrete messages.
use testmerge.Base.{◌≡◌, ◌⊎◌, refl, true, false, none, some, [], ◌∷◌, if◌then◌else◌}
use testmerge.Router.{
  empty_message, RpcMessage, WshRouter, to_client, to_upstream, announce, find_rpc,
  send_routed_message, register_route,
}
use testmerge.Router.Rpc.{IsRequest, IsResponse, after, sent, info_of, request-response}
use testmerge.Router.Routes.{register_route-sends}

abbrev request : RpcMessage
request = record empty_message {
  command = some "getmeta";
  reqid = some "r1";
  route = some "feblock:1";
  source = some "window:1";
}

abbrev response : RpcMessage
response = record empty_message { resid = some "r1"; source = some "feblock:1" }

abbrev router : WshRouter
router = record { route_map = ("window:1", 4) ∷ []; rpc_map = [] }

request-IsRequest : IsRequest request "r1"
request-IsRequest = record {
  has_command = refl;
  no_announce = refl;
  no_unannounce = refl;
  no_event = refl;
  has_id = refl;
  real_id = refl;
}

response-IsResponse : IsResponse response "r1"
response-IsResponse = record { no_command = refl; no_reqid = refl; has_id = refl; real_id = refl }

request-response_example :
    (sent router request ≡ send_routed_message router request (some "feblock:1") ∷ [])
    × (sent (after router request) response
        ≡ send_routed_message router response (some "window:1") ∷ [])
    × (find_rpc (after (after router request) response) (some "r1")
        ≡ (if false then some (info_of request "r1") else none))
    × ((false ≡ true) ⊎ (sent (after (after router request) response) response ≡ []))
request-response_example =
    request-response router request response "r1" request-IsRequest response-IsResponse

register_route-sends_example :
    (r' : WshRouter) × (register_route router "feblock:1" 7
      ≡ some (r', to_upstream (announce "feblock:1") ∷ []))
    × (send_routed_message r' request (some "feblock:1") ≡ (
        if true
        then to_client 7 request
        else send_routed_message router request (some "feblock:1")))
register_route-sends_example = register_route-sends router "feblock:1" "feblock:1" 7 request refl
