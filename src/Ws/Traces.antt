-- ===== src/Ws/Traces.antt =====
-- Sequences of calls of a connection's methods, by timers, by the socket and by other code.
use testmerge.Base.{ℕ, Bool, List, [], ◌∷◌, ◌++◌}
use testmerge.Ws.{
  Effect, WsControl, ServerMessage, connect_now, reconnect, on_close, on_open, on_message,
  push_message, run_msg_queue, send_ping,
}

pub data Call (M : Type 0) : Type 0 where
  connects : ℕ → Call M
  reconnects : Bool → ℕ → Call M
  closes : ℕ → Call M
  opens : List M → Call M
  receives : ServerMessage → Call M
  pushes : M → Call M
  runs_queue : Call M
  pings : Call M

module _ {M : Type 0} (size : M → ℕ) where
  unfoldable pub step : WsControl M → Call M → WsControl M × List (Effect M)
  unfolding connect_now reconnect on_close on_open on_message push_message run_msg_queue send_ping
  step c (connects now) = connect_now c now
  step c (reconnects force_close now) = reconnect c force_close now
  step c (closes now) = on_close c now
  step c (opens handler_msgs) = on_open size c handler_msgs
  step c (receives msg) = on_message c msg
  step c (pushes msg) = push_message size c msg
  step c runs_queue = run_msg_queue size c
  step c pings = (c, send_ping c)

  unfoldable pub run : WsControl M → List (Call M) → WsControl M × List (Effect M)
  unfolding step
  run c [] = (c, [])
  run c (call ∷ calls) =
      let (c', out) = step c call in let (c'', out') = run c' calls in (c'', out ++ out')
