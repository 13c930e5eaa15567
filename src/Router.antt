-- ===== src/Router.antt =====
-- WshRouter of frontend/app/store/wshrouter.ts: routing messages between the clients of a window
-- and the upstream client. What a client does with a message is not modelled: a method returns the
-- new state and the messages that it hands on, in order.
pub mod Rpc
pub mod Routes
mod Tests
use testmerge.Base.{
  ℕ, String, Bool, true, false, not, ◌||◌, Option, none, some, List, [], ◌∷◌, ◌++◌, str_eq,
  if◌then◌else◌,
}
use testmerge.Base.Maps
use testmerge.Base.Maps.{Map}

-- A client object.
abbrev pub ClientId : Type 0
ClientId = ℕ

-- The field `data`: the name of a route in an announcement, or a value that the router passes on.
pub data Content : Type 0 where
  nothing : Content
  route_name : String → Content
  value : ℕ → Content

-- The fields of a message that the code reads. A field that is not there is `none`, false for `cont`
-- and `cancel`, and 0 for `timeout`.
pub record RpcMessage : Type 0 where
  pub command : Option String
  pub reqid : Option String
  pub resid : Option String
  pub route : Option String
  pub source : Option String
  pub timeout : ℕ
  pub cont : Bool
  pub cancel : Bool
  pub error : Option String
  pub content : Content

-- `{}`
abbrev pub empty_message : RpcMessage
empty_message = record {
  command = none;
  reqid = none;
  resid = none;
  route = none;
  source = none;
  timeout = 0;
  cont = false;
  cancel = false;
  error = none;
  content = nothing;
}

pub record RouteInfo : Type 0 where
  pub rpc_id : String
  pub source_route_id : Option String
  pub dest_route_id : Option String

-- What leaves the router: `client.recvRpcMessage(msg)`, the same of the upstream client, and
-- `handleWaveEvent(msg.data)`.
pub data Delivery : Type 0 where
  to_client : ClientId → RpcMessage → Delivery
  to_upstream : RpcMessage → Delivery
  wave_event : Content → Delivery

-- The constructor requires an upstream client, so there is one.
pub record WshRouter : Type 0 where
  pub route_map : Map ClientId
  pub rpc_map : Map RouteInfo

abbrev pub new_router : WshRouter
new_router = record { route_map = []; rpc_map = [] }

-- util.ts
abbrev pub is_blank : Option String → Bool
is_blank none = true
is_blank (some s) = str_eq s ""

abbrev pub text_is : Option String → String → Bool
text_is none t = false
text_is (some s) t = str_eq s t

abbrev announcement : String → String → RpcMessage
announcement command route_id = record empty_message {
  command = some command;
  source = some route_id;
  content = route_name route_id;
}

abbrev pub announce : String → RpcMessage
announce = announcement "routeannounce"

abbrev pub unannounce : String → RpcMessage
unannounce = announcement "routeunannounce"

abbrev pub find_client : WshRouter → Option String → Option ClientId
find_client r none = none
find_client r (some route_id) = Maps.get r.route_map route_id

abbrev pub deliver : RpcMessage → Option ClientId → Delivery
deliver msg none = to_upstream msg
deliver msg (some client) = to_client client msg

unfoldable pub send_routed_message : WshRouter → RpcMessage → Option String → Delivery
send_routed_message r msg dest = deliver msg (find_client r dest)

abbrev pub register_route_info :
    WshRouter → Option String → Option String → Option String → WshRouter
register_route_info r none source dest = r
register_route_info r (some reqid) source dest = if str_eq reqid "" then r else record r {
  rpc_map =
      Maps.set r.rpc_map reqid
        (record { rpc_id = reqid; source_route_id = source; dest_route_id = dest });
}

abbrev pub find_rpc : WshRouter → Option String → Option RouteInfo
find_rpc r none = none
find_rpc r (some id) = Maps.get r.rpc_map id

abbrev forget_rpc : WshRouter → Option String → WshRouter
forget_rpc r none = r
forget_rpc r (some id) = record r { rpc_map = Maps.delete r.rpc_map id }

-- A request without a command goes where the request of its id went.
abbrev recv_more : WshRouter → RpcMessage → Option RouteInfo → WshRouter × List Delivery
recv_more r msg none = (r, [])
recv_more r msg (some info) = (r, send_routed_message r msg info.dest_route_id ∷ [])

-- A response goes back to the source; the last one ends the exchange.
abbrev recv_response : WshRouter → RpcMessage → Option RouteInfo → WshRouter × List Delivery
recv_response r msg none = (r, [])
recv_response r msg (some info) = (
  if msg.cont then r else forget_rpc r msg.resid,
  send_routed_message r msg info.source_route_id ∷ [],
)

pub recv_rpc_message : WshRouter → RpcMessage → WshRouter × List Delivery
unfolding send_routed_message
recv_rpc_message r msg =
    if text_is msg.command "routeannounce" || text_is msg.command "routeunannounce"
    then (r, [])
    else if text_is msg.command "eventrecv"
    then (r, wave_event msg.content ∷ [])
    else if not (is_blank msg.command)
    then (let r' = register_route_info r msg.reqid msg.source msg.route in
        (r', send_routed_message r' msg msg.route ∷ []))
    else if not (is_blank msg.reqid)
    then recv_more r msg (find_rpc r msg.reqid)
    else if not (is_blank msg.resid)
    then recv_response r msg (find_rpc r msg.resid)
    else (r, [])

abbrev announce_all : Map ClientId → List Delivery
announce_all [] = []
announce_all ((route_id, client) ∷ m) = to_upstream (announce route_id) ∷ announce_all m

pub reannounce_routes : WshRouter → List Delivery
reannounce_routes r = announce_all r.route_map

-- `none` is the error for the reserved name.
pub register_route : WshRouter → String → ClientId → Option (WshRouter × List Delivery)
register_route r route_id client =
    if str_eq route_id "sys"
    then none
    else some (
      record r { route_map = Maps.set r.route_map route_id client },
      to_upstream (announce route_id) ∷ [],
    )

pub unregister_route : WshRouter → String → WshRouter × List Delivery
unregister_route r route_id = (
  record r { route_map = Maps.delete r.route_map route_id },
  to_upstream (unannounce route_id) ∷ [],
)
