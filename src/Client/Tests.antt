-- ===== src/Client/Tests.antt =====
-- The theorems on clients at concrete messages.
use testmerge.Base.{ℕ, String, ◌≡◌, ◌⊎◌, refl, true, false, not, none, some, List, [], ◌∷◌, ◌++◌}
use testmerge.Base.Maps
use testmerge.Router.{RpcMessage, WshRouter, Content, value, nothing, empty_message, is_blank}
use testmerge.Router.Rpc
use testmerge.Client.{
  WshClient, RpcOpts, HandlerRun, returned, to_router, answered, command_message, wsh_rpc_call,
  recv_rpc_message, handle_incoming_command,
}
use testmerge.Client.Stream.{new_generator}
use testmerge.Client.Order.{
  StreamCall, asks, arrives, times_out, values, data_of, arrived, values-prefix,
}
use testmerge.Client.Responses.{IsAnswer, handle_incoming_command-answers}
use testmerge.Client.Calls.{IsResponseTo, answer_to, is_open_rpc, ends_rpc, wsh_rpc_call-response}

abbrev window : WshClient
window = record { route_id = "window:1"; open_rpcs = [] }

abbrev router : WshRouter
router = record { route_map = ("window:1", 4) ∷ []; rpc_map = [] }

abbrev opts : RpcOpts
opts = record { timeout = 0; noresponse = false; route = none }

abbrev response : RpcMessage
response = record empty_message { resid = some "r1"; content = value 5 }

abbrev request : RpcMessage
request = record empty_message { command = some "message"; reqid = some "r9" }

abbrev run : HandlerRun
run = record {
  sends = record empty_message { cont = true; content = value 1 } ∷ [];
  ends = returned (value 2);
}

abbrev part : ℕ → RpcMessage
part n = record empty_message { resid = some "r1"; cont = true; content = value n }

abbrev calls : List StreamCall
calls =
    arrives (part 1)
    ∷ asks false
    ∷ arrives (part 2)
    ∷ arrives response
    ∷ asks false
    ∷ asks false
    ∷ times_out
    ∷ []

calls-values : values (new_generator "r1" 1000) calls ≡ value 1 ∷ value 2 ∷ value 5 ∷ []
unfolding values
calls-values = refl

values-prefix_example :
    (rest : List Content) × (values (new_generator "r1" 1000) calls ++ rest
      ≡ data_of (new_generator "r1" 1000).msg_queue ++ data_of (arrived calls))
values-prefix_example = values-prefix calls (new_generator "r1" 1000)

handle_incoming_command-answers_example :
    ((is_blank request.reqid ≡ true)
      × ((handle_incoming_command window request run).responses ≡ []))
    ⊎ ((id : String) × (request.reqid ≡ some id)
        × IsAnswer window.route_id id (handle_incoming_command window request run).responses true)
handle_incoming_command-answers_example = handle_incoming_command-answers window request run

response-IsResponseTo : IsResponseTo "r1" response
response-IsResponseTo = record { no_command = refl; no_reqid = refl; has_id = refl }

wsh_rpc_call-response_example :
    let called = wsh_rpc_call window "r1" "getmeta" nothing opts in
    let received = recv_rpc_message called.0 response run in
    (called.1 ≡ to_router (command_message window "r1" "getmeta" nothing opts) ∷ [])
    × (received.1 ≡ answered "r1" (answer_to response) ∷ [])
    × (is_open_rpc received.0 "r1" ≡ not (ends_rpc (answer_to response)))
wsh_rpc_call-response_example =
    wsh_rpc_call-response window "r1" "getmeta" nothing opts response run refl response-IsResponseTo
