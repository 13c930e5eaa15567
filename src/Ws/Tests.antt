-- ===== src/Ws/Tests.antt =====
-- The theorems on the connection at concrete calls; a message is its size.
use testmerge.Base.{ℕ, ◌+◌, ◌≡◌, ◌≤◌, refl, true, false, List, [], ◌∷◌, ◌++◌, length, ltb}
use testmerge.Ws.{
  WsControl, new_control, hello, connect_in, new_socket, sent, too_large, run_queue_later,
}
use testmerge.Base.{zero, suc, Option, none, some}
use testmerge.Base.Maps
use testmerge.Events.{Subjects, Command, eventunsub, make_wave_resub_command, wps_reconnect_handler}
use testmerge.Ws.{run_msg_queue}
use testmerge.Ws.Handlers.{reopened, messages, reopened-resubscribes}
use testmerge.Ws.Traces.{Call, connects, closes, opens, receives, pushes, runs_queue, run}
use testmerge.Ws.Queue.{count, count_out, count_pushed, run-conserves}
use testmerge.Ws.Drain.{ticks, outcomes, drained, opens-drain}
use testmerge.Ws.Reconnect.{attempts_in_a_row, attempts-bound}

abbrev size : ℕ → ℕ
size m = m

-- Two messages wait, one of them too large; the connection fails once, then opens.
abbrev calls : List (Call ℕ)
calls =
    connects 1000
    ∷ pushes 7
    ∷ closes 1100
    ∷ pushes 6000000
    ∷ connects 2100
    ∷ opens (3 ∷ [])
    ∷ receives hello
    ∷ runs_queue
    ∷ []

abbrev waiting : WsControl ℕ
waiting = record new_control { opening = true; msg_queue = 7 ∷ 6000000 ∷ [] }

calls_out :
    (run size new_control calls).1
    ≡ new_socket
      ∷ connect_in 1
      ∷ new_socket
      ∷ sent 3
      ∷ sent 7
      ∷ run_queue_later
      ∷ too_large 6000000
      ∷ run_queue_later
      ∷ []
unfolding run
calls_out = refl

run-conserves_example :
    count (ltb 5) (new_control {M = ℕ}).msg_queue + count_pushed (ltb 5) calls
    ≡ count_out (ltb 5) (run size new_control calls).1
      + count (ltb 5) (run size new_control calls).0.msg_queue
run-conserves_example = run-conserves (ltb 5) size calls new_control

opens-drain_example : run size waiting (opens (3 ∷ []) ∷ ticks (length waiting.msg_queue)) ≡ (
  record waiting { is_open = true; opening = false; msg_queue = [] },
  outcomes size (3 ∷ []) ++ drained size waiting.msg_queue,
)
opens-drain_example = opens-drain size waiting (3 ∷ [])

attempts-bound_example : attempts_in_a_row size 0 new_control calls ≤ 20
attempts-bound_example = attempts-bound size calls

-- A window with one subscription, whose connection opens again while a message waits. The first
-- handler announces a route.
abbrev subscribed_once : Subjects
subscribed_once = ("config", record { id = "u1"; handler = 1; scope = none } ∷ []) ∷ []

abbrev pushed_by : ℕ → List (Option Command)
pushed_by zero = none ∷ []
pushed_by (suc h) = messages some (wps_reconnect_handler subscribed_once)

abbrev one_waits : WsControl (Option Command)
one_waits = record new_control { opening = true; msg_queue = some (eventunsub "old") ∷ [] }

config_subscribed :
    Maps.get subscribed_once "config" ≡ some (record { id = "u1"; handler = 1; scope = none } ∷ [])
unfolding Maps.get
config_subscribed = refl

reopened-resubscribes_example :
    (pre : List (Option Command)) × (post : List (Option Command)) × ((reopened pushed_by
        (λ msg. 100)
        one_waits
        (0 ∷ 1 ∷ [])).1
      ≡ outcomes
          (λ msg. 100)
          (pre ++ some (make_wave_resub_command subscribed_once "config") ∷ post)
        ++ (run_msg_queue (λ msg. 100) (record one_waits { is_open = true; opening = false })).1)
reopened-resubscribes_example =
    reopened-resubscribes some pushed_by (λ msg. 100) one_waits (0 ∷ []) [] 1 subscribed_once
      "config" _ refl config_subscribed
