-- ===== src/Ws/Drain.antt =====
-- An open connection empties its queue, in order.
use mathlib.Core.List.{append-nil, append_assoc}
use testmerge.Base.{
  ℕ, zero, suc, ◌≡◌, ◌≤◌, refl, ap, ◌∙◌, Bool, true, false, List, [], ◌∷◌, ◌++◌, length, arith, ltb,
  if◌then◌else◌,
}
use testmerge.Ws.{
  Effect, sent, too_large, run_queue_later, WsControl, max_size, send_message, push_message,
  push_all, run_msg_queue, on_open,
}
use testmerge.Ws.Traces.{Call, opens, runs_queue, step, run}

-- Calls of the timer for `runMsgQueue`.
abbrev pub ticks : {M : Type 0} → ℕ → List (Call M)
ticks zero = []
ticks (suc n) = runs_queue ∷ ticks n

module _ {M : Type 0} (size : M → ℕ) where
  abbrev pub outcome : M → Effect M
  outcome m = if ltb max_size (size m) then too_large m else sent m

  -- What comes of messages that are pushed, and of messages in a queue.
  abbrev pub outcomes : List M → List (Effect M)
  outcomes [] = []
  outcomes (m ∷ ms) = outcome m ∷ outcomes ms

  abbrev pub drained : List M → List (Effect M)
  drained [] = []
  drained (m ∷ ms) = outcome m ∷ run_queue_later ∷ drained ms

  abbrev opened : Bool → ℕ → ℕ → List M → WsControl M
  opened opening times last queue = record {
    is_open = true;
    opening = opening;
    reconnect_times = times;
    msg_queue = queue;
    last_reconnect_time = last;
  }

  send-outcome :
      (opening : Bool) (times last : ℕ) (queue : List M) (m : M)
      → send_message size (opened opening times last queue) m ≡ outcome m ∷ []
  unfolding send_message
  send-outcome opening times last queue m = ground arith

  pub push_all-outcomes :
      (opening : Bool) (times last : ℕ) (queue ms : List M)
      → push_all size (opened opening times last queue) ms
        ≡ (opened opening times last queue, outcomes ms)
  unfolding push_all push_message
  push_all-outcomes opening times last queue [] = refl
  push_all-outcomes opening times last queue (m ∷ ms) =
      rw (send-outcome opening times last queue m, push_all-outcomes opening times last queue ms)

  ticks-drain :
      (opening : Bool) (times last n : ℕ) (queue : List M)
      → length queue ≤ n
      → run size (opened opening times last queue) (ticks n)
        ≡ (opened opening times last [], drained queue)
  unfolding run step run_msg_queue
  ticks-drain opening times last zero [] h = refl
  ticks-drain opening times last (suc n) [] h =
      rw (ticks-drain opening times last n [] (omega arith))
  ticks-drain opening times last zero (m ∷ ms) h = absurd (omega arith)
  ticks-drain opening times last (suc n) (m ∷ ms) h =
      rw (send-outcome opening times last ms m, ticks-drain opening times last n ms (omega arith))

  run-∷ :
      (c c' : WsControl M) (call : Call M) (calls : List (Call M)) (out : List (Effect M))
      → step size c call ≡ (c', out)
      → run size c (call ∷ calls) ≡ ((run size c' calls).0, out ++ (run size c' calls).1)
  unfolding run
  run-∷ c c' call calls out e = ap (λ x. ((run size x.0 calls).0, x.1 ++ (run size x.0 calls).1)) e

  on_open-empty :
      (c : WsControl M) (handler_msgs : List M)
      → on_open size (record c { msg_queue = [] }) handler_msgs
        ≡ (opened false c.reconnect_times c.last_reconnect_time [], outcomes handler_msgs ++ [])
  unfolding on_open run_msg_queue
  on_open-empty c handler_msgs =
      rw (push_all-outcomes false c.reconnect_times c.last_reconnect_time [] handler_msgs) refl

  on_open-first :
      (c : WsControl M) (handler_msgs : List M) (m : M) (ms : List M)
      → on_open size (record c { msg_queue = m ∷ ms }) handler_msgs ≡ (
        opened false c.reconnect_times c.last_reconnect_time ms,
        outcomes handler_msgs ++ outcome m ∷ run_queue_later ∷ [],
      )
  unfolding on_open run_msg_queue
  on_open-first c handler_msgs m ms =
      rw
        (
          push_all-outcomes false c.reconnect_times c.last_reconnect_time (m ∷ ms) handler_msgs,
          send-outcome false c.reconnect_times c.last_reconnect_time ms m,
        )
        refl

  -- When the connection opens, what the reconnect handlers push is sent, then one queued message
  -- after the other, each sending setting the timer of the next; as many calls of that timer as
  -- there were messages leave the queue empty. A message that is too large is refused in its turn.
  pub opens-drain :
      (c : WsControl M) (handler_msgs : List M)
      → run size c (opens handler_msgs ∷ ticks (length c.msg_queue)) ≡ (
        record c { is_open = true; opening = false; msg_queue = [] },
        outcomes handler_msgs ++ drained c.msg_queue,
      )
  unfolding step
  opens-drain c handler_msgs = by_queue c.msg_queue
    where
      by_queue :
          (queue : List M)
          → run size (record c { msg_queue = queue }) (opens handler_msgs ∷ ticks (length queue))
            ≡ (
              opened false c.reconnect_times c.last_reconnect_time [],
              outcomes handler_msgs ++ drained queue,
            )
      by_queue [] =
          run-∷ (record c { msg_queue = [] }) _ (opens handler_msgs) [] _
            (on_open-empty c handler_msgs)
          ∙ unfold run in rw (append-nil, append-nil) refl
      by_queue (m ∷ ms) =
          run-∷ (record c { msg_queue = m ∷ ms }) _ (opens handler_msgs) (ticks (suc (length ms))) _
            (on_open-first c handler_msgs m ms)
          ∙ ap (λ x. (x.0, (outcomes handler_msgs ++ outcome m ∷ run_queue_later ∷ []) ++ x.1))
              (ticks-drain false c.reconnect_times c.last_reconnect_time (suc (length ms)) ms
                (omega arith))
          ∙ ap (λ out. (opened false c.reconnect_times c.last_reconnect_time [], out))
              (append_assoc (outcomes handler_msgs) (outcome m ∷ run_queue_later ∷ []) (drained ms))
