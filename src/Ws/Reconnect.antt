-- ===== src/Ws/Reconnect.antt =====
-- How often a connection tries again.
use testmerge.Base.{ℕ, ◌+◌, ◌≡◌, ◌≤◌, ◌∙◌, Bool, true, false, List, [], ◌∷◌, ◌++◌, arith}
use testmerge.Ws.{
  Effect, connect_in, WsControl, new_control, hello, ping, pong, nothing, event, connect_now,
  reconnect, on_close, on_open, on_message, send_ping, send_message, push_message, push_all,
  run_msg_queue, run_first,
}
use testmerge.Ws.Traces.{
  Call, connects, reconnects, closes, opens, receives, pushes, runs_queue, pings, step,
}

module _ {M : Type 0} where
  abbrev pub is_attempt : Effect M → ℕ
  is_attempt (connect_in t) = 1
  is_attempt _ = 0

  abbrev pub attempts : List (Effect M) → ℕ
  attempts [] = 0
  attempts (x ∷ out) = is_attempt x + attempts out

  attempts-append : (xs ys : List (Effect M)) → attempts (xs ++ ys) ≡ attempts xs + attempts ys
  attempts-append [] ys = omega arith
  attempts-append (x ∷ xs) ys = omega (arith, attempts-append xs ys)

  -- The attempts since the last greeting of the server.
  abbrev pub attempts_after : ℕ → Call M → List (Effect M) → ℕ
  attempts_after n (receives hello) out = 0
  attempts_after n _ out = n + attempts out

  module _ (size : M → ℕ) where
    unfoldable pub attempts_in_a_row : ℕ → WsControl M → List (Call M) → ℕ
    unfolding step
    attempts_in_a_row n c [] = n
    attempts_in_a_row n c (call ∷ calls) =
        let (c', out) = step size c call in attempts_in_a_row (attempts_after n call out) c' calls

    record IsLimited (n : ℕ) (c : WsControl M) : Type 0 where
      by_times : n ≤ c.reconnect_times
      by_limit : n ≤ 20

    -- Calls that make no attempt and do not change the counter.
    record IsIdle (c : WsControl M) (x : WsControl M × List (Effect M)) : Type 0 where
      no_attempt : attempts x.1 ≡ 0
      same_times : x.0.reconnect_times ≡ c.reconnect_times

    push-IsIdle : (c : WsControl M) (m : M) → IsIdle c (push_message size c m)
    unfolding push_message send_message
    push-IsIdle c m = ground arith

    run_first-IsIdle : (c : WsControl M) (ms : List M) → IsIdle c (run_first size c ms)
    unfolding send_message
    run_first-IsIdle c [] = ground arith
    run_first-IsIdle c (m ∷ ms) = ground arith

    run_queue-IsIdle : (c : WsControl M) → IsIdle c (run_msg_queue size c)
    unfolding run_msg_queue
    run_queue-IsIdle c = ground (arith, run_first-IsIdle c c.msg_queue)

    push_all-IsIdle : (ms : List M) (c : WsControl M) → IsIdle c (push_all size c ms)
    unfolding push_all
    push_all-IsIdle [] c = ground arith
    push_all-IsIdle (m ∷ ms) c =
        let (c', out) = push_message size c m in
        let first = push-IsIdle c m in
        let rest = push_all-IsIdle ms c' in
        record {
          no_attempt = omega (
            arith,
            attempts-append out (push_all size c' ms).1,
            first.no_attempt,
            rest.no_attempt,
          );
          same_times = rest.same_times ∙ first.same_times;
        }

    on_open-IsIdle : (c : WsControl M) (ms : List M) → IsIdle c (on_open size c ms)
    unfolding on_open
    on_open-IsIdle c ms =
        let opened : WsControl M = record c { is_open = true; opening = false } in
        let (c', out) = push_all size opened ms in
        let first = push_all-IsIdle ms opened in
        let rest = run_queue-IsIdle c' in
        record {
          no_attempt = omega (
            arith,
            attempts-append out (run_msg_queue size c').1,
            first.no_attempt,
            rest.no_attempt,
          );
          same_times = rest.same_times ∙ first.same_times;
        }

    IsLimited-idle :
        (n : ℕ) (c : WsControl M) (x : WsControl M × List (Effect M))
        → IsIdle c x
        → IsLimited n c
        → IsLimited (n + attempts x.1) x.0
    IsLimited-idle n c x i h = omega (arith, i.no_attempt, i.same_times, h.by_times, h.by_limit)

    IsLimited-reconnect :
        (n : ℕ) (c : WsControl M) (b : Bool) (now : ℕ)
        → IsLimited n c
        → IsLimited (n + attempts (reconnect c b now).1) (reconnect c b now).0
    unfolding reconnect
    IsLimited-reconnect n c b now h = ground arith

    IsLimited-step :
        (n : ℕ) (c : WsControl M) (call : Call M)
        → IsLimited n c
        → IsLimited (attempts_after n call (step size c call).1) (step size c call).0
    unfolding step
    IsLimited-step n c (connects now) h = unfold connect_now in ground arith
    IsLimited-step n c (reconnects b now) h = IsLimited-reconnect n c b now h
    IsLimited-step n c (closes now) h =
        unfold on_close in
        ground
          (arith, IsLimited-reconnect n (record c { is_open = false; opening = false }) false now)
    IsLimited-step n c (opens ms) h = IsLimited-idle n c _ (on_open-IsIdle c ms) h
    IsLimited-step n c (receives nothing) h = unfold on_message in ground arith
    IsLimited-step n c (receives ping) h = unfold on_message in ground arith
    IsLimited-step n c (receives pong) h = unfold on_message in ground arith
    IsLimited-step n c (receives hello) h = unfold on_message in ground arith
    IsLimited-step n c (receives (event d)) h = unfold on_message in ground arith
    IsLimited-step n c (pushes m) h = IsLimited-idle n c _ (push-IsIdle c m) h
    IsLimited-step n c runs_queue h = IsLimited-idle n c _ (run_queue-IsIdle c) h
    IsLimited-step n c pings h = unfold send_ping in ground arith

    limited :
        (n : ℕ) (c : WsControl M) (calls : List (Call M))
        → IsLimited n c
        → attempts_in_a_row n c calls ≤ 20
    unfolding attempts_in_a_row
    limited n c [] h = h.by_limit
    limited n c (call ∷ calls) h =
        limited (attempts_after n call (step size c call).1) (step size c call).0 calls
          (IsLimited-step n c call h)

    -- Whatever calls are made of a new connection, it sets a timer for at most twenty attempts to
    -- connect again without a greeting of the server in between.
    pub attempts-bound : (calls : List (Call M)) → attempts_in_a_row 0 new_control calls ≤ 20
    attempts-bound calls =
        limited 0 new_control calls (record { by_times = omega arith; by_limit = omega arith })
