-- ===== src/Client.antt =====
-- WshClient and RpcResponseHelper of frontend/app/store/wshclient.ts, and the generator of responses
-- of frontend/app/store/wshrpcutil.ts. A request id is drawn by one call alone, so a generator is
-- found by its id; a consumer asks again only when it has the last answer. What the handlers of
-- commands do is a parameter. A method returns the next state and what leaves the client, in order.
pub mod Stream
pub mod Order
pub mod Responses
pub mod Calls
pub mod Session
mod Tests
use testmerge.Base.{
  ℕ, String, Bool, true, false, not, ◌||◌, ◌&&◌, Option, none, some, List, [], ◌∷◌, ◌++◌, str_eq,
  if◌then◌else◌, ltb,
}
use testmerge.Base.Maps
use testmerge.Base.Maps.{Map}
use testmerge.Router.{Content, nothing, RpcMessage, empty_message, is_blank}
use testmerge.Client.Stream.{
  Generator, Phase, started, finished, Yield, Answer, asked, got_message, timed_out, new_generator,
}

pub record WshClient : Type 0 where
  pub route_id : String
  pub open_rpcs : Map Generator

-- A message handed to DefaultRouter, and the answer to a consumer of the generator of an id.
pub data Output : Type 0 where
  to_router : RpcMessage → Output
  answered : String → Yield → Output

abbrev pub is_finished : Phase → Bool
is_finished finished = true
is_finished _ = false

-- The `finally` of the generator removes its entry.
abbrev pub keep_open : WshClient → String → Generator → WshClient
keep_open c id g = record c {
  open_rpcs = if is_finished g.phase then Maps.delete c.open_rpcs id else Maps.set c.open_rpcs id g;
}

abbrev answer_out : String → Option Yield → List Output
answer_out id none = []
answer_out id (some y) = answered id y ∷ []

-- sendRpcCancel
abbrev pub cancel_message : String → RpcMessage
cancel_message id = record empty_message { reqid = some id; cancel = true }

abbrev cancel_out : String → Bool → List Output
cancel_out id false = []
cancel_out id true = to_router (cancel_message id) ∷ []

-- A step of the generator of an id.
abbrev pub update_rpc : WshClient → String → Answer → WshClient × List Output
update_rpc c id a = (keep_open c id a.generator, cancel_out id a.cancels ++ answer_out id a.answer)

-- The generator's `next`. One that has finished is no longer there.
abbrev next_of : WshClient → String → Bool → Option Generator → WshClient × List Output
next_of c id terminate none = (c, answered id Yield.ended ∷ [])
next_of c id terminate (some g) = update_rpc c id (asked g terminate)

unfoldable pub next : WshClient → String → Bool → WshClient × List Output
unfolding asked
next c id terminate = next_of c id terminate (Maps.get c.open_rpcs id)

abbrev timeout_of : WshClient → String → Option Generator → WshClient × List Output
timeout_of c id none = (c, [])
timeout_of c id (some g) = update_rpc c id (timed_out g)

-- The timer of a generator, which its `finally` clears.
unfoldable pub rpc_timeout : WshClient → String → WshClient × List Output
unfolding timed_out
rpc_timeout c id = timeout_of c id (Maps.get c.open_rpcs id)

-- A timeout of 0 is none.
pub record RpcOpts : Type 0 where
  pub timeout : ℕ
  pub noresponse : Bool
  pub route : Option String

abbrev given_route : Option String → Option String
given_route route = if is_blank route then none else route

abbrev pub command_message : WshClient → String → String → Content → RpcOpts → RpcMessage
command_message c id command content opts = record empty_message {
  command = some command;
  reqid = if opts.noresponse then none else some id;
  route = given_route opts.route;
  source = some c.route_id;
  timeout = opts.timeout;
  content = content;
}

abbrev pub register_rpc : WshClient → RpcMessage → Option String → WshClient × List Output
register_rpc c msg none = (c, to_router msg ∷ [])
register_rpc c msg (some id) = (keep_open c id (new_generator id msg.timeout), to_router msg ∷ [])

-- The message goes out before the generator is registered.
unfoldable pub send_rpc_command : WshClient → RpcMessage → WshClient × List Output
send_rpc_command c msg = register_rpc c msg msg.reqid

-- `id` is the result of randomUUID. The promise is fulfilled by the answer for `id`; without a response it is null at once.
unfoldable pub wsh_rpc_call :
    WshClient → String → String → Content → RpcOpts → WshClient × List Output
unfolding send_rpc_command next
wsh_rpc_call c id command content opts =
    let (c', out) = send_rpc_command c (command_message c id command content opts) in
    if opts.noresponse then (c', out) else (let (c'', out') = next c' id true in (c'', out ++ out'))

-- `none` is the error for `noresponse`.
unfoldable pub wsh_rpc_stream :
    WshClient → String → String → Content → RpcOpts → Option (WshClient × List Output)
unfolding send_rpc_command
wsh_rpc_stream c id command content opts =
    if opts.noresponse
    then none
    else some (send_rpc_command c (command_message c id command content opts))

-- RpcResponseHelper; `cmd_reqid` is `cmdMsg.reqid`.
pub record RpcResponseHelper : Type 0 where
  pub cmd_reqid : Option String
  pub done : Bool

abbrev pub is_none : Option String → Bool
is_none none = true
is_none (some s) = false

abbrev pub new_helper : RpcMessage → RpcResponseHelper
new_helper cmd_msg = record { cmd_reqid = cmd_msg.reqid; done = is_none cmd_msg.reqid }

abbrev close_rpc : WshClient → Option String → WshClient
close_rpc c none = c
close_rpc c (some id) = record c { open_rpcs = Maps.delete c.open_rpcs id }

pub record Responded : Type 0 where
  pub client : WshClient
  pub helper : RpcResponseHelper
  pub responses : List RpcMessage

unfoldable pub send_response : WshClient → RpcResponseHelper → RpcMessage → Responded
send_response c h msg =
    if h.done || is_blank h.cmd_reqid
    then record { client = c; helper = h; responses = [] }
    else record {
      client = if msg.cont then c else close_rpc c h.cmd_reqid;
      helper = if msg.cont then h else record h { done = true };
      responses = record msg { resid = h.cmd_reqid; source = some c.route_id } ∷ [];
    }

-- What a handler does: the responses that it sends through the helper, and how it ends.
pub data HandlerEnd : Type 0 where
  returned : Content → HandlerEnd
  threw : String → HandlerEnd

pub record HandlerRun : Type 0 where
  pub sends : List RpcMessage
  pub ends : HandlerEnd

unfoldable pub send_responses : WshClient → RpcResponseHelper → List RpcMessage → Responded
unfolding send_response
send_responses c h [] = record { client = c; helper = h; responses = [] }
send_responses c h (msg ∷ msgs) =
    let r = send_response c h msg in
    let r' = send_responses r.client r.helper msgs in
    record r' { responses = r.responses ++ r'.responses }

-- `if (!helper.done) helper.sendResponse(msg)`, after what was sent before.
unfoldable pub respond_if_open : Responded → RpcMessage → Responded
unfolding send_response
respond_if_open r msg =
    if r.helper.done
    then r
    else (let r' = send_response r.client r.helper msg in
        record r' { responses = r.responses ++ r'.responses })

abbrev pub end_message : HandlerEnd → RpcMessage
end_message (returned content) = record empty_message { content = content }
end_message (threw message) = record empty_message { error = some message }

-- The try, catch and finally of the handler.
unfoldable pub handle_incoming_command : WshClient → RpcMessage → HandlerRun → Responded
unfolding send_responses respond_if_open
handle_incoming_command c msg run =
    respond_if_open
      (respond_if_open (send_responses c (new_helper msg) run.sends) (end_message run.ends))
      empty_message

abbrev all_to_router : List RpcMessage → List Output
all_to_router [] = []
all_to_router (msg ∷ msgs) = to_router msg ∷ all_to_router msgs

abbrev handled : Responded → WshClient × List Output
handled r = (r.client, all_to_router r.responses)

abbrev pub message_of : WshClient → RpcMessage → String → Option Generator → WshClient × List Output
message_of c msg id none = (c, [])
message_of c msg id (some g) = update_rpc c id (got_message g msg)

abbrev pub response_for : WshClient → RpcMessage → Option String → WshClient × List Output
response_for c msg none = (c, [])
response_for c msg (some id) = message_of c msg id (Maps.get c.open_rpcs id)

-- `run` is what the handler of the command does with the message.
unfoldable pub recv_rpc_message : WshClient → RpcMessage → HandlerRun → WshClient × List Output
unfolding handle_incoming_command got_message
recv_rpc_message c msg run =
    if not (is_none msg.command) || not (is_none msg.reqid)
    then handled (handle_incoming_command c msg run)
    else response_for c msg msg.resid
