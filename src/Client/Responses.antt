-- ===== src/Client/Responses.antt =====
-- What a requester gets for a command that a client handles.
use mathlib.Core.Path.{subst}
use testmerge.Base.{
  String, ◌≡◌, refl, ap, ◌∙◌, sym, Bool, true, false, ◌||◌, Option, none, some, List, [], ◌∷◌, ◌++◌,
  str_eq, arith, Bool-cases, inl, inr, ◌⊎◌,
}
use testmerge.Router.{RpcMessage, empty_message, is_blank}
use testmerge.Client.{
  WshClient, RpcResponseHelper, Responded, HandlerRun, HandlerEnd, returned, threw, send_response,
  send_responses, respond_if_open, end_message, handle_incoming_command, is_none, close_rpc,
}

-- Responses to a request of this id from a client of this route: partial ones, and one final one
-- behind them exactly if `ends`.
pub data IsAnswer (source id : String) : (responses : List RpcMessage) (ends : Bool) → Type 0 where
  none_yet : IsAnswer source id [] false
  partial :
      {r : RpcMessage} {rs : List RpcMessage} {ends : Bool}
      → r.resid ≡ some id
      → r.source ≡ some source
      → r.cont ≡ true
      → IsAnswer source id rs ends
      → IsAnswer source id (r ∷ rs) ends
  final :
      {r : RpcMessage}
      → r.resid ≡ some id
      → r.source ≡ some source
      → r.cont ≡ false
      → IsAnswer source id (r ∷ []) true

IsAnswer-snoc :
    {source id : String} {rs : List RpcMessage} {b : Bool} (r : RpcMessage)
    → IsAnswer source id rs b
    → b ≡ false
    → r.resid ≡ some id
    → r.source ≡ some source
    → r.cont ≡ false
    → IsAnswer source id (rs ++ r ∷ []) true
IsAnswer-snoc r none_yet e p q h = final p q h
IsAnswer-snoc r (partial x y z k) e p q h = partial x y z (IsAnswer-snoc r k e p q h)
IsAnswer-snoc r (final x y z) e p q h = ground arith

-- A helper that is done, or whose request has no id, sends nothing.
silent :
    (c : WshClient) (h : RpcResponseHelper) (msgs : List RpcMessage)
    → (h.done || is_blank h.cmd_reqid) ≡ true
    → send_responses c h msgs ≡ record { client = c; helper = h; responses = [] }
unfolding send_responses send_response
silent c h [] e = refl
silent c h (msg ∷ msgs) e = simp (e, silent c h msgs e)

module _ (source id : String) (real : str_eq id "" ≡ false) where
  abbrev helper_of : Bool → RpcResponseHelper
  helper_of done = record { cmd_reqid = some id; done = done }

  -- What was sent so far.
  record IsSent (r : Responded) (done : Bool) : Type 0 where
    sent : IsAnswer source id r.responses done
    helper : r.helper ≡ helper_of done
    route : r.client.route_id ≡ source

  abbrev answer_of : RpcMessage → RpcMessage
  answer_of msg = record msg { resid = some id; source = some source }

  send-partial :
      (c : WshClient) (msg : RpcMessage)
      → c.route_id ≡ source
      → msg.cont ≡ true
      → send_response c (helper_of false) msg
        ≡ record { client = c; helper = helper_of false; responses = answer_of msg ∷ [] }
  unfolding send_response
  send-partial c msg e h = simp (real, h, e)

  send-final :
      (c : WshClient) (msg : RpcMessage)
      → c.route_id ≡ source
      → msg.cont ≡ false
      → send_response c (helper_of false) msg ≡ record {
        client = close_rpc c (some id);
        helper = helper_of true;
        responses = answer_of msg ∷ [];
      }
  unfolding send_response
  send-final c msg e h = simp (real, h, e)

  abbrev and_send : List RpcMessage → Responded → Responded
  and_send msgs r =
      let r' = send_responses r.client r.helper msgs in
      record r' { responses = r.responses ++ r'.responses }

  sends-IsSent :
      (msgs : List RpcMessage) (c : WshClient)
      → c.route_id ≡ source
      → (done : Bool) × IsSent (send_responses c (helper_of false) msgs) done
  unfolding send_responses
  sends-IsSent [] c e = (false, record { sent = none_yet; helper = refl; route = e })
  sends-IsSent (msg ∷ msgs) c e = elim (Bool-cases msg.cont) [
    | inl h ↦
        let (done, rest) = sends-IsSent msgs c e in
        (
          done,
          subst (λ r. IsSent (and_send msgs r) done) (sym (send-partial c msg e h))
              (record {
                sent = partial refl refl h rest.sent;
                helper = rest.helper;
                route = rest.route;
              }),
        )
    | inr h ↦ (
      true,
      subst (λ r. IsSent (and_send msgs r) true) (sym (send-final c msg e h))
          (subst (λ r. IsSent (record r { responses = answer_of msg ∷ r.responses }) true)
            (sym (silent (close_rpc c (some id)) (helper_of true) msgs refl))
            (record { sent = final refl refl h; helper = refl; route = e })),
    )
  ]

  -- After a response that is sent only if none was final yet, one was.
  respond-IsSent :
      (r : Responded) (done : Bool) (msg : RpcMessage)
      → msg.cont ≡ false
      → IsSent r done
      → IsSent (respond_if_open r msg) true
  unfolding respond_if_open
  respond-IsSent r true msg h k = simp (ap (λ x. x.done) k.helper) k
  respond-IsSent r false msg h k =
      simp (k.helper, send-final r.client msg k.route h)
        (record {
          sent = IsAnswer-snoc (answer_of msg) k.sent refl refl refl h;
          helper = refl;
          route = k.route;
        })

end-cont : (ends : HandlerEnd) → (end_message ends).cont ≡ false
end-cont (returned content) = refl
end-cont (threw message) = refl

abbrev exchange : WshClient → HandlerRun → RpcResponseHelper → Responded
exchange c run h =
    respond_if_open (respond_if_open (send_responses c h run.sends) (end_message run.ends))
      empty_message

blank_of : (a b : Bool) → (a || b) ≡ true → a ≡ false → b ≡ true
blank_of true b e d = cc
blank_of false b e d = e

-- A response of a helper that sends nothing.
respond-silent :
    (c : WshClient) (h : RpcResponseHelper) (msg : RpcMessage)
    → (h.done || is_blank h.cmd_reqid) ≡ true
    → respond_if_open (record { client = c; helper = h; responses = [] }) msg
      ≡ record { client = c; helper = h; responses = [] }
unfolding respond_if_open send_response
respond-silent c h msg e = elim (Bool-cases h.done) [
  | inl d ↦ simp d
  | inr d ↦ simp (d, blank_of h.done (is_blank h.cmd_reqid) e d)
]

exchange-silent :
    (c : WshClient) (run : HandlerRun) (h : RpcResponseHelper)
    → (h.done || is_blank h.cmd_reqid) ≡ true
    → (exchange c run h).responses ≡ []
exchange-silent c run h e =
    ap (λ r. r.responses)
      (ap (λ r. respond_if_open (respond_if_open r (end_message run.ends)) empty_message)
          (silent c h run.sends e)
        ∙ ap (λ r. respond_if_open r empty_message) (respond-silent c h (end_message run.ends) e)
        ∙ respond-silent c h empty_message e)

exchange-answers :
    (c : WshClient) (run : HandlerRun) (id : String)
    → str_eq id "" ≡ false
    → IsAnswer c.route_id id
        (exchange c run (record { cmd_reqid = some id; done = false })).responses
        true
exchange-answers c run id real =
    let (done, sends) = sends-IsSent c.route_id id real run.sends c refl in
    (respond-IsSent c.route_id id real _ true empty_message refl (
      respond-IsSent c.route_id id real _ done (end_message run.ends) (end-cont run.ends)
        sends)).sent

-- However the handler of a command responds and ends: a request with an id gets any number of
-- partial responses and behind them exactly one final one, all of its id and from the route of the
-- client; a request without an id, or with an empty one, gets none.
pub handle_incoming_command-answers :
    (c : WshClient) (msg : RpcMessage) (run : HandlerRun)
    → ((is_blank msg.reqid ≡ true) × ((handle_incoming_command c msg run).responses ≡ []))
      ⊎ ((id : String) × (msg.reqid ≡ some id)
          × IsAnswer c.route_id id (handle_incoming_command c msg run).responses true)
unfolding handle_incoming_command
handle_incoming_command-answers c msg run = by_id msg.reqid
  where
    by_id :
        (o : Option String)
        → ((is_blank o ≡ true)
            × ((exchange c run (record { cmd_reqid = o; done = is_none o })).responses ≡ []))
          ⊎ ((id : String) × (o ≡ some id)
              × IsAnswer c.route_id id
                  (exchange c run (record { cmd_reqid = o; done = is_none o })).responses
                  true)
    by_id none = inl (refl, exchange-silent c run _ refl)
    by_id (some id) = elim (Bool-cases (str_eq id "")) [
      | inl e ↦ inl (e, exchange-silent c run _ e)
      | inr e ↦ inr (id, refl, exchange-answers c run id e)
    ]
