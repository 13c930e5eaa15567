-- ===== src/Ws/Queue.antt =====
-- No message is lost or doubled, and an open connection empties its queue in order.
use testmerge.Base.{
  ℕ, ◌+◌, ◌≡◌, refl, ap, Bool, true, false, List, [], ◌∷◌, ◌++◌, arith, if◌then◌else◌, Bool-cases,
  inl, inr,
}
use testmerge.Ws.{
  Effect, sent, too_large, WsControl, send_message, push_message, push_all, run_msg_queue,
  run_first, connect_now, reconnect, on_close, on_open, on_message, send_ping,
}
use testmerge.Ws.Traces.{
  Call, connects, reconnects, closes, opens, receives, pushes, runs_queue, pings, step, run,
}

-- How many messages of a kind are in a list, were sent or refused, and were pushed.
module _ {M : Type 0} (p : M → Bool) where
  abbrev pub count : List M → ℕ
  count [] = 0
  count (m ∷ ms) = (if p m then 1 else 0) + count ms

  abbrev pub in_effect : Effect M → ℕ
  in_effect (sent m) = if p m then 1 else 0
  in_effect (too_large m) = if p m then 1 else 0
  in_effect _ = 0

  abbrev pub count_out : List (Effect M) → ℕ
  count_out [] = 0
  count_out (x ∷ out) = in_effect x + count_out out

  abbrev pub in_call : Call M → ℕ
  in_call (pushes m) = if p m then 1 else 0
  in_call (opens ms) = count ms
  in_call _ = 0

  abbrev pub count_pushed : List (Call M) → ℕ
  count_pushed [] = 0
  count_pushed (call ∷ calls) = in_call call + count_pushed calls

  count-append : (xs ys : List M) → count (xs ++ ys) ≡ count xs + count ys
  count-append [] ys = omega arith
  count-append (x ∷ xs) ys = omega (arith, count-append xs ys)

  count_out-append : (xs ys : List (Effect M)) → count_out (xs ++ ys) ≡ count_out xs + count_out ys
  count_out-append [] ys = omega arith
  count_out-append (x ∷ xs) ys = omega (arith, count_out-append xs ys)

  -- Of what was queued and what was pushed all is sent, refused or queued.
  abbrev Balances : WsControl M → ℕ → WsControl M × List (Effect M) → Type 0
  Balances c pushed (c', out) = count c.msg_queue + pushed ≡ count_out out + count c'.msg_queue

  module _ (size : M → ℕ) where
    push-Balances :
        (c : WsControl M) (m : M) → Balances c (in_call (pushes m)) (push_message size c m)
    unfolding push_message send_message
    push-Balances c m = ground (arith, count-append c.msg_queue (m ∷ []))

    run_first-Balances :
        (c : WsControl M) (ms : List M)
        → c.is_open ≡ true
        → c.msg_queue ≡ ms
        → Balances c 0 (run_first size c ms)
    unfolding send_message
    run_first-Balances c [] h e = omega arith
    run_first-Balances c (m ∷ ms) h e = ground (arith, ap count e)

    run_queue-Balances : (c : WsControl M) → Balances c 0 (run_msg_queue size c)
    unfolding run_msg_queue
    run_queue-Balances c = elim (Bool-cases c.is_open) [
      | inl h ↦ simp h (run_first-Balances c c.msg_queue h refl)
      | inr h ↦ simp h (omega arith)
    ]

    push_all-Balances : (ms : List M) (c : WsControl M) → Balances c (count ms) (push_all size c ms)
    unfolding push_all
    push_all-Balances [] c = omega arith
    push_all-Balances (m ∷ ms) c =
        let (c', out) = push_message size c m in
        omega (
          arith,
          push-Balances c m,
          push_all-Balances ms c',
          count_out-append out (push_all size c' ms).1,
        )

    on_open-Balances : (c : WsControl M) (ms : List M) → Balances c (count ms) (on_open size c ms)
    unfolding on_open
    on_open-Balances c ms =
        let opened : WsControl M = record c { is_open = true; opening = false } in
        let (c', out) = push_all size opened ms in
        omega (
          arith,
          push_all-Balances ms opened,
          run_queue-Balances c',
          count_out-append out (run_msg_queue size c').1,
        )

    step-Balances : (c : WsControl M) (call : Call M) → Balances c (in_call call) (step size c call)
    unfolding step
    step-Balances c (pushes m) = push-Balances c m
    step-Balances c (opens ms) = on_open-Balances c ms
    step-Balances c runs_queue = run_queue-Balances c
    step-Balances c (connects now) = unfold connect_now in ground arith
    step-Balances c (reconnects b now) = unfold reconnect in ground arith
    step-Balances c (closes now) = unfold on_close in unfold reconnect in ground arith
    step-Balances c (receives msg) = unfold on_message in ground arith
    step-Balances c pings = unfold send_ping in ground arith

    -- Whatever calls are made, in whatever order: of every kind of messages, those that were queued
    -- at first and those that were pushed are just as many as those that were sent, those that were
    -- refused for their size, and those that are queued at the end.
    pub run-conserves :
        (calls : List (Call M)) (c : WsControl M)
        → count c.msg_queue + count_pushed calls
          ≡ count_out (run size c calls).1 + count (run size c calls).0.msg_queue
    unfolding run
    run-conserves [] c = omega arith
    run-conserves (call ∷ calls) c =
        let (c', out) = step size c call in
        omega (
          arith,
          step-Balances c call,
          run-conserves calls c',
          count_out-append out (run size c' calls).1,
        )
