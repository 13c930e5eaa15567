-- ===== src/Client/Calls.antt =====
-- A request of a client and its response.
use text.Mathlib.TextPositions.{eq_refl}
use testmerge.Base.{
  ℕ, String, ◌≡◌, refl, ap, ◌∙◌, Bool, true, false, not, ◌&&◌, Option, none, some, [], ◌∷◌,
  if◌then◌else◌, Bool-cases, inl, inr, ltb,
}
use testmerge.Base.Maps
use testmerge.Base.Maps.{get-set, get-delete}
use testmerge.Router.{Content, RpcMessage}
use testmerge.Client.{
  WshClient, to_router, answered, RpcOpts, HandlerRun, command_message, wsh_rpc_call,
  recv_rpc_message, update_rpc, next, send_rpc_command,
}
use testmerge.Client.Stream.{
  Generator, waiting, Yield, produced, ended, failed, asked, got_message, on_message, has_no_data,
  new_generator,
}

-- A response to a request of this id.
pub record IsResponseTo (id : String) (msg : RpcMessage) : Type 0 where
  pub no_command : msg.command ≡ none
  pub no_reqid : msg.reqid ≡ none
  pub has_id : msg.resid ≡ some id

abbrev yield_of : Option String → Bool → Content → Yield
yield_of (some e) cont content = failed e
yield_of none cont content = if not cont && has_no_data content then ended else produced content

-- What the caller gets: a throw, the end (`undefined`), or the data.
abbrev pub answer_to : RpcMessage → Yield
answer_to msg = yield_of msg.error msg.cont msg.content

abbrev pub ends_rpc : Yield → Bool
ends_rpc (produced content) = false
ends_rpc ended = true
ends_rpc (failed e) = true

abbrev is_there : Option Generator → Bool
is_there none = false
is_there (some g) = true

abbrev pub is_open_rpc : WshClient → String → Bool
is_open_rpc c id = is_there (Maps.get c.open_rpcs id)

-- The entry of a call that waits.
abbrev waiting_call : String → ℕ → Generator
waiting_call id timeout = record {
  reqid = id;
  msg_queue = [];
  phase = waiting;
  timer = ltb 0 timeout;
}

call_lem :
    (c : WshClient) (id command : String) (content : Content) (opts : RpcOpts)
    → opts.noresponse ≡ false
    → (c' : WshClient) × (wsh_rpc_call c id command content opts
        ≡ (c', to_router (command_message c id command content opts) ∷ []))
      × (Maps.get c'.open_rpcs id ≡ some (waiting_call id opts.timeout))
unfolding wsh_rpc_call send_rpc_command next asked
call_lem c id command content opts h = (
  record c {
    open_rpcs =
        Maps.set (Maps.set c.open_rpcs id (new_generator id opts.timeout)) id
          (waiting_call id opts.timeout);
  },
  simp (h, get-set, eq_refl),
  simp (get-set, eq_refl),
)

deleted :
    (c : WshClient) (id : String) → is_there (Maps.get (Maps.delete c.open_rpcs id) id) ≡ false
deleted c id = simp (get-delete, eq_refl)

answer_lem :
    (c : WshClient) (id : String) (timeout : ℕ) (msg : RpcMessage) (e : Option String)
    → let x = update_rpc c id (on_message (waiting_call id timeout) msg e) in
      (x.1 ≡ answered id (yield_of e msg.cont msg.content) ∷ [])
      × (is_open_rpc x.0 id ≡ not (ends_rpc (yield_of e msg.cont msg.content)))
answer_lem c id timeout msg (some e) = (refl, deleted c id)
answer_lem c id timeout msg none = elim (Bool-cases (not msg.cont && has_no_data msg.content)) [
  | inl h ↦ simp h (refl, deleted c id)
  | inr h ↦ simp (h, get-set, eq_refl) (refl, refl)
]

receive_lem :
    (c : WshClient) (id : String) (timeout : ℕ) (msg : RpcMessage) (run : HandlerRun)
    → IsResponseTo id msg
    → Maps.get c.open_rpcs id ≡ some (waiting_call id timeout)
    → recv_rpc_message c msg run
      ≡ update_rpc c id (on_message (waiting_call id timeout) msg msg.error)
unfolding recv_rpc_message got_message
receive_lem c id timeout msg run r e = simp (r.no_command, r.no_reqid, r.has_id, e)

-- A call sends its request and waits. A response of its id fulfils the promise, with its data, with
-- nothing if it is final and has no data, or with its error as a throw; but only in the last two
-- cases is the entry of the request removed. After data, even of a final response, it stays open,
-- since the call does not ask its generator again.
pub wsh_rpc_call-response :
    (c : WshClient) (id command : String) (content : Content) (opts : RpcOpts) (msg : RpcMessage)
    (run : HandlerRun)
    → opts.noresponse ≡ false
    → IsResponseTo id msg
    → let called = wsh_rpc_call c id command content opts in
      let received = recv_rpc_message called.0 msg run in
      (called.1 ≡ to_router (command_message c id command content opts) ∷ [])
      × (received.1 ≡ answered id (answer_to msg) ∷ [])
      × (is_open_rpc received.0 id ≡ not (ends_rpc (answer_to msg)))
wsh_rpc_call-response c id command content opts msg run h r =
    let (c', called, entry) = call_lem c id command content opts h in
    let received : recv_rpc_message (wsh_rpc_call c id command content opts).0 msg run
        ≡ update_rpc c' id (on_message (waiting_call id opts.timeout) msg msg.error) =
      ap (λ x. recv_rpc_message x.0 msg run) called
      ∙ receive_lem c' id opts.timeout msg run r entry in
    let (answer, still_open) = answer_lem c' id opts.timeout msg msg.error in
    (
      ap (λ x. x.1) called,
      ap (λ x. x.1) received ∙ answer,
      ap (λ x. is_open_rpc x.0 id) received ∙ still_open,
    )
