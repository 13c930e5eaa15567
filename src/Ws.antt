-- ===== src/Ws.antt =====
-- frontend/app/store/ws.ts: the WebSocket connection of a window, WSControl, with its reconnects and
-- the queue of the messages that wait for it. A method returns the next state and what it does
-- outside, in order. What a message weighs in bytes is a parameter, `size`, and so are the times of
-- Date.now, in milliseconds. The headers of the connection are left out.
pub mod Traces
pub mod Queue
pub mod Drain
pub mod Reconnect
pub mod Handlers
mod Tests
use testmerge.Base.{
  ℕ, zero, suc, ◌+◌, ◌-◌, ◌*◌, Bool, true, false, not, ◌||◌, List, [], ◌∷◌, ◌++◌, ltb,
  if◌then◌else◌,
}

abbrev pub max_size : ℕ
max_size = 5 * 1024 * 1024

-- What a message of the server says: nothing (no data, or null), one of the three types that the
-- connection handles itself, or something for the callback.
pub data ServerMessage : Type 0 where
  nothing : ServerMessage
  ping : ServerMessage
  pong : ServerMessage
  hello : ServerMessage
  event : ℕ → ServerMessage

-- What a method does outside: a new socket, a close of the socket, a message on the socket, a
-- message refused for its size, the answer to a ping, a ping, a timer of so many seconds for
-- `connectNow`, a timer of 100 milliseconds for `runMsgQueue`, a call of the callback.
pub data Effect (M : Type 0) : Type 0 where
  new_socket : Effect M
  close_socket : Effect M
  sent : M → Effect M
  too_large : M → Effect M
  sent_pong : Effect M
  sent_ping : Effect M
  connect_in : ℕ → Effect M
  run_queue_later : Effect M
  callback : ℕ → Effect M

pub record WsControl (M : Type 0) : Type 0 where
  pub is_open : Bool
  pub opening : Bool
  pub reconnect_times : ℕ
  pub msg_queue : List M
  pub last_reconnect_time : ℕ

abbrev pub new_control : {M : Type 0} → WsControl M
new_control = record {
  is_open = false;
  opening = false;
  reconnect_times = 0;
  msg_queue = [];
  last_reconnect_time = 0;
}

abbrev pub timeout_arr : List ℕ
timeout_arr = 0 ∷ 0 ∷ 2 ∷ 5 ∷ 10 ∷ 10 ∷ 30 ∷ 60 ∷ []

-- timeoutArr[i], or 60 past its end.
abbrev pub item_or_60 : List ℕ → ℕ → ℕ
item_or_60 [] i = 60
item_or_60 (t ∷ ts) zero = t
item_or_60 (t ∷ ts) (suc i) = item_or_60 ts i

-- After `times` attempts in a row; the clock may go back, which counts as no time at all.
unfoldable pub reconnect_timeout : ℕ → ℕ → ℕ → ℕ
reconnect_timeout times now last = if ltb (now - last) 500 then 1 else item_or_60 timeout_arr times

module _ {M : Type 0} where
  unfoldable pub connect_now : WsControl M → ℕ → WsControl M × List (Effect M)
  connect_now c now =
      if c.is_open
      then (c, [])
      else (record c { last_reconnect_time = now; opening = true }, new_socket ∷ [])

  abbrev pub try_again : WsControl M → ℕ → WsControl M × List (Effect M)
  try_again c now =
      if ltb 20 c.reconnect_times
      then (c, [])
      else (c, connect_in (reconnect_timeout c.reconnect_times now c.last_reconnect_time) ∷ [])

  unfoldable pub reconnect : WsControl M → Bool → ℕ → WsControl M × List (Effect M)
  unfolding reconnect_timeout
  reconnect c force_close now =
      if c.is_open
      then (c, if force_close then close_socket ∷ [] else [])
      else try_again (record c { reconnect_times = suc c.reconnect_times }) now

  unfoldable pub on_close : WsControl M → ℕ → WsControl M × List (Effect M)
  unfolding reconnect
  on_close c now =
      if c.is_open || c.opening
      then reconnect (record c { is_open = false; opening = false }) false now
      else (c, [])

  module _ (size : M → ℕ) where
    unfoldable pub send_message : WsControl M → M → List (Effect M)
    send_message c msg =
        if not c.is_open
        then []
        else if ltb max_size (size msg)
        then too_large msg ∷ []
        else sent msg ∷ []

    unfoldable pub push_message : WsControl M → M → WsControl M × List (Effect M)
    unfolding send_message
    push_message c msg =
        if not c.is_open
        then (record c { msg_queue = c.msg_queue ++ msg ∷ [] }, [])
        else (c, send_message c msg)

    abbrev pub run_first : WsControl M → List M → WsControl M × List (Effect M)
    run_first c [] = (c, [])
    run_first c (msg ∷ rest) =
        (record c { msg_queue = rest }, send_message c msg ++ run_queue_later ∷ [])

    unfoldable pub run_msg_queue : WsControl M → WsControl M × List (Effect M)
    unfolding send_message
    run_msg_queue c = if not c.is_open then (c, []) else run_first c c.msg_queue

    -- The messages that the reconnect handlers push, in order.
    unfoldable pub push_all : WsControl M → List M → WsControl M × List (Effect M)
    unfolding push_message
    push_all c [] = (c, [])
    push_all c (msg ∷ msgs) =
        let (c', out) = push_message c msg in
        let (c'', out') = push_all c' msgs in (c'', out ++ out')

    unfoldable pub on_open : WsControl M → List M → WsControl M × List (Effect M)
    unfolding push_all run_msg_queue
    on_open c handler_msgs =
        let (c', out) = push_all (record c { is_open = true; opening = false }) handler_msgs in
        let (c'', out') = run_msg_queue c' in (c'', out ++ out')

  unfoldable pub on_message : WsControl M → ServerMessage → WsControl M × List (Effect M)
  on_message c nothing = (c, [])
  on_message c ping = (c, sent_pong ∷ [])
  on_message c pong = (c, [])
  on_message c hello = (record c { reconnect_times = 0 }, [])
  on_message c (event data') = (c, callback data' ∷ [])

  unfoldable pub send_ping : WsControl M → List (Effect M)
  send_ping c = if not c.is_open then [] else sent_ping ∷ []
