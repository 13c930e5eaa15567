-- ===== src/Router/Rpc.antt =====
-- Requests and responses: where each message of an exchange goes, and when the exchange ends.
use text.Mathlib.TextPositions.{eq_refl}
use testmerge.Base.{
  String, ◌≡◌, refl, ap, ◌∙◌, Bool, true, false, not, ◌||◌, Option, none, some, List, [], ◌∷◌,
  str_eq, if◌then◌else◌, arith, Bool-cases, inl, inr, ◌⊎◌, if-false, length, ◌≤◌,
}
use testmerge.Base.Maps
use testmerge.Base.Maps.{Map, get-set, get-delete, map_laws}
use testmerge.Router.{
  RpcMessage, RouteInfo, WshRouter, Delivery, wave_event, is_blank, text_is, find_rpc,
  send_routed_message, register_route_info, recv_rpc_message, recv_response, recv_more, forget_rpc,
  deliver,
}

-- A command that the router sends on, not one that it handles itself.
pub record IsRequest (msg : RpcMessage) (id : String) : Type 0 where
  pub has_command : is_blank msg.command ≡ false
  pub no_announce : text_is msg.command "routeannounce" ≡ false
  pub no_unannounce : text_is msg.command "routeunannounce" ≡ false
  pub no_event : text_is msg.command "eventrecv" ≡ false
  pub has_id : msg.reqid ≡ some id
  pub real_id : str_eq id "" ≡ false

-- A message without a command and request id that answers a request.
pub record IsResponse (msg : RpcMessage) (id : String) : Type 0 where
  pub no_command : msg.command ≡ none
  pub no_reqid : msg.reqid ≡ none
  pub has_id : msg.resid ≡ some id
  pub real_id : str_eq id "" ≡ false

request_lem :
    (r : WshRouter) (msg : RpcMessage) (id : String)
    → IsRequest msg id
    → recv_rpc_message r msg ≡ (
      register_route_info r msg.reqid msg.source msg.route,
      send_routed_message (register_route_info r msg.reqid msg.source msg.route) msg msg.route ∷ [],
    )
unfolding recv_rpc_message
request_lem r msg id h = simp (h.no_announce, h.no_unannounce, h.no_event, h.has_command)

response_lem :
    (r : WshRouter) (msg : RpcMessage) (id : String)
    → IsResponse msg id
    → recv_rpc_message r msg ≡ recv_response r msg (find_rpc r (some id))
unfolding recv_rpc_message
response_lem r msg id h = simp (h.no_command, h.no_reqid, h.has_id, h.real_id)

-- A request is handed on to its route, and noted with its source and route.
recv-request :
    (r : WshRouter) (msg : RpcMessage) (id : String)
    → IsRequest msg id
    → (find_rpc (recv_rpc_message r msg).0 (some id)
        ≡ some (record { rpc_id = id; source_route_id = msg.source; dest_route_id = msg.route }))
      × ((recv_rpc_message r msg).1 ≡ send_routed_message r msg msg.route ∷ [])
      × ((recv_rpc_message r msg).0.route_map ≡ r.route_map)
unfolding send_routed_message
recv-request r msg id h =
    simp (request_lem r msg id h, h.has_id, h.real_id, map_laws, eq_refl) (refl, refl, refl)

abbrev pub info_of : RpcMessage → String → RouteInfo
info_of req id = record { rpc_id = id; source_route_id = req.source; dest_route_id = req.route }

-- A message with another route map entry for entry goes the same way.
send-same :
    (r r' : WshRouter) (msg : RpcMessage) (dest : Option String)
    → r'.route_map ≡ r.route_map
    → send_routed_message r' msg dest ≡ send_routed_message r msg dest
unfolding send_routed_message
send-same r r' msg none e = refl
send-same r r' msg (some d) e = ap (λ m. deliver msg (Maps.get m d)) e

recv-response :
    (r : WshRouter) (resp : RpcMessage) (id : String) (info : RouteInfo)
    → IsResponse resp id
    → find_rpc r (some id) ≡ some info
    → ((recv_rpc_message r resp).1 ≡ send_routed_message r resp info.source_route_id ∷ [])
      × (find_rpc (recv_rpc_message r resp).0 (some id) ≡ (if resp.cont then some info else none))
recv-response r resp id info h noted =
    let eq : recv_rpc_message r resp ≡ recv_response r resp (some info) =
      response_lem r resp id h ∙ ap (recv_response r resp) noted in
    (
      ap (λ x. x.1) eq,
      ap (λ x. find_rpc x.0 (some id)) eq ∙ elim (Bool-cases resp.cont) [
        | inl e ↦ simp e noted
        | inr e ↦ simp (e, h.has_id, get-delete, eq_refl)
      ],
    )

recv-unknown :
    (r : WshRouter) (resp : RpcMessage) (id : String)
    → IsResponse resp id
    → find_rpc r (some id) ≡ none
    → (recv_rpc_message r resp).1 ≡ []
recv-unknown r resp id h unknown =
    ap (λ x. x.1) (response_lem r resp id h ∙ ap (recv_response r resp) unknown)

-- The state after a message.
abbrev pub after : WshRouter → RpcMessage → WshRouter
after r msg = (recv_rpc_message r msg).0

abbrev pub sent : WshRouter → RpcMessage → List Delivery
sent r msg = (recv_rpc_message r msg).1

-- The exchange of a request: the request goes to its route, and a response of its id back to the
-- route that sent it. Unless more responses are announced the exchange is then forgotten, and
-- another response of the id goes nowhere.
pub request-response :
    (r : WshRouter) (req resp : RpcMessage) (id : String)
    → IsRequest req id
    → IsResponse resp id
    → (sent r req ≡ send_routed_message r req req.route ∷ [])
      × (sent (after r req) resp ≡ send_routed_message r resp req.source ∷ [])
      × (find_rpc (after (after r req) resp) (some id)
          ≡ (if resp.cont then some (info_of req id) else none))
      × ((resp.cont ≡ true) ⊎ (sent (after (after r req) resp) resp ≡ []))
request-response r req resp id h k =
    let (noted, request, same) = recv-request r req id h in
    let (back, left) = recv-response (after r req) resp id (info_of req id) k noted in
    (
      request,
      back ∙ ap (λ d. d ∷ []) (send-same r (after r req) resp req.source same),
      left,
      elim (Bool-cases resp.cont) [
        | inl e ↦ inl e
        | inr e ↦ inr (recv-unknown (after (after r req) resp) resp id k (left ∙ if-false _ _ e))
      ],
    )

kept_by_register :
    (r : WshRouter) (reqid source dest : Option String) (id : String)
    → text_is reqid id ≡ false
    → find_rpc (register_route_info r reqid source dest) (some id) ≡ find_rpc r (some id)
kept_by_register r none source dest id h = refl
kept_by_register r (some j) source dest id h = elim (Bool-cases (str_eq j "")) [
  | inl e ↦ rw e
  | inr e ↦ simp (e, h, get-set)
]

kept_by_forget :
    (r : WshRouter) (resid : Option String) (id : String)
    → text_is resid id ≡ false
    → find_rpc (forget_rpc r resid) (some id) ≡ find_rpc r (some id)
kept_by_forget r none id h = refl
kept_by_forget r (some j) id h = simp (h, get-delete)

routes_kept :
    (r : WshRouter) (reqid source dest : Option String)
    → (register_route_info r reqid source dest).route_map ≡ r.route_map
routes_kept r none source dest = refl
routes_kept r (some j) source dest = ground arith

-- What a message does to the exchange of another id, and to the routes.
record IsQuiet (r : WshRouter) (msg : RpcMessage) (id : String) (x : WshRouter × List Delivery)
    : Type 0 where
  exchange :
      text_is msg.reqid id ≡ false
      → text_is msg.resid id ≡ false
      → find_rpc x.0 (some id) ≡ find_rpc r (some id)
  at_most_one : length x.1 ≤ 1
  routes : x.0.route_map ≡ r.route_map

module _ (r : WshRouter) (msg : RpcMessage) (id : String) where
  IsQuiet-if :
      (b : Bool) (x y : WshRouter × List Delivery)
      → IsQuiet r msg id x
      → IsQuiet r msg id y
      → IsQuiet r msg id (if b then x else y)
  IsQuiet-if true x y h k = h
  IsQuiet-if false x y h k = k

  IsQuiet-idle : (out : List Delivery) → length out ≤ 1 → IsQuiet r msg id (r, out)
  IsQuiet-idle out h = record { exchange = λ p q. refl; at_most_one = h; routes = refl }

  IsQuiet-more : (o : Option RouteInfo) → IsQuiet r msg id (recv_more r msg o)
  IsQuiet-more none = IsQuiet-idle _ (omega arith)
  IsQuiet-more (some info) = IsQuiet-idle _ (omega arith)

  routes_forgotten : (o : Option String) → (forget_rpc r o).route_map ≡ r.route_map
  routes_forgotten none = refl
  routes_forgotten (some j) = refl

  IsQuiet-response : (o : Option RouteInfo) → IsQuiet r msg id (recv_response r msg o)
  IsQuiet-response none = IsQuiet-idle _ (omega arith)
  IsQuiet-response (some info) = elim (Bool-cases msg.cont) [
    | inl e ↦ record { exchange = λ p q. rw e; at_most_one = omega arith; routes = rw e }
    | inr e ↦ record {
      exchange = λ p q. rw e (kept_by_forget r msg.resid id q);
      at_most_one = omega arith;
      routes = rw e (routes_forgotten msg.resid);
    }
  ]

recv-IsQuiet :
    (r : WshRouter) (msg : RpcMessage) (id : String) → IsQuiet r msg id (recv_rpc_message r msg)
unfolding recv_rpc_message
recv-IsQuiet r msg id =
    let on = IsQuiet-if r msg id in
    let idle = IsQuiet-idle r msg id in
    on (text_is msg.command "routeannounce" || text_is msg.command "routeunannounce") _ _
      (idle [] (omega arith))
      (on (text_is msg.command "eventrecv") _ _ (idle (wave_event msg.content ∷ []) (omega arith)) (
        on (not (is_blank msg.command)) _ _
          (record {
            exchange = λ p q. kept_by_register r msg.reqid msg.source msg.route id p;
            at_most_one = omega arith;
            routes = routes_kept r msg.reqid msg.source msg.route;
          })
          (on (not (is_blank msg.reqid)) _ _ (IsQuiet-more r msg id (find_rpc r msg.reqid)) (
            on (not (is_blank msg.resid)) _ _ (IsQuiet-response r msg id (find_rpc r msg.resid))
              (idle [] (omega arith))))))

pub routes-recv :
    (r : WshRouter) (msg : RpcMessage) → (recv_rpc_message r msg).0.route_map ≡ r.route_map
routes-recv r msg = (recv-IsQuiet r msg "").routes

-- A message whose request id and response id are others leaves the exchange of an id alone; it is
-- handed on at most once, and it changes no route.
pub recv-other :
    (r : WshRouter) (msg : RpcMessage) (id : String)
    → text_is msg.reqid id ≡ false
    → text_is msg.resid id ≡ false
    → (find_rpc (after r msg) (some id) ≡ find_rpc r (some id))
      × (length (sent r msg) ≤ 1)
      × ((after r msg).route_map ≡ r.route_map)
recv-other r msg id h k = let q = recv-IsQuiet r msg id in (q.exchange h k, q.at_most_one, q.routes)
