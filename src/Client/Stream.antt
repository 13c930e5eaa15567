-- ===== src/Client/Stream.antt =====
-- rpcResponseGenerator of frontend/app/store/wshrpcutil.ts: the queue of the responses of a request,
-- and the consumer's `next`.
use testmerge.Base.{
  ℕ, String, Bool, true, false, not, ◌&&◌, Option, none, some, List, [], ◌∷◌, ◌++◌, ltb,
  if◌then◌else◌,
}
use testmerge.Router.{Content, nothing, RpcMessage, empty_message}

-- Suspended at `yield null`; a `next` waits for a message; suspended at `yield msg.data`, with
-- `msg.cont`; at its end.
pub data Phase : Type 0 where
  started : Phase
  waiting : Phase
  yielded : Bool → Phase
  finished : Phase

pub record Generator : Type 0 where
  pub reqid : String
  pub msg_queue : List RpcMessage
  pub phase : Phase
  pub timer : Bool

-- What a `next` gives: a value, the end, or a throw.
pub data Yield : Type 0 where
  produced : Content → Yield
  ended : Yield
  failed : String → Yield

-- After a step: the generator, what a waiting `next` is given, and whether the rpc is cancelled.
pub record Answer : Type 0 where
  pub generator : Generator
  pub answer : Option Yield
  pub cancels : Bool

-- The generator when its first `next` has returned. A timer is set for a positive timeout.
abbrev pub new_generator : String → ℕ → Generator
new_generator reqid timeout = record {
  reqid = reqid;
  msg_queue = [];
  phase = started;
  timer = ltb 0 timeout;
}

abbrev pub finish : Generator → Option Yield → Bool → Answer
finish g answer cancels = record {
  generator = record g { phase = finished; timer = false };
  answer = answer;
  cancels = cancels;
}

abbrev pub has_no_data : Content → Bool
has_no_data nothing = true
has_no_data _ = false

abbrev pub on_message : Generator → RpcMessage → Option String → Answer
on_message g msg (some e) = finish g (some (failed e)) false
on_message g msg none =
    if not msg.cont && has_no_data msg.content then finish g (some ended) false else record {
      generator = record g { phase = yielded msg.cont };
      answer = some (produced msg.content);
      cancels = false;
    }

-- The loops: a message in the queue is yielded or ends the generator; an empty queue is waited on.
abbrev pub take_message : Generator → List RpcMessage → Answer
take_message g [] = record {
  generator = record g { phase = waiting };
  answer = none;
  cancels = false;
}
take_message g (msg ∷ rest) = on_message (record g { msg_queue = rest }) msg msg.error

abbrev pub idle : Generator → Answer
idle g = record { generator = g; answer = none; cancels = false }

-- `next(terminate)`. The value of the first one is that of `yield null`, which is not read.
abbrev pub asked_in : Phase → Generator → Bool → Answer
asked_in started g terminate = take_message g g.msg_queue
asked_in waiting g terminate = idle g
asked_in (yielded cont) g terminate =
    if terminate
    then finish g (some ended) true
    else if not cont
    then finish g (some ended) false
    else take_message g g.msg_queue
asked_in finished g terminate = record { generator = g; answer = some ended; cancels = false }

unfoldable pub asked : Generator → Bool → Answer
asked g terminate = asked_in g.phase g terminate

-- A message in the queue resolves the signal, on which a waiting `next` goes on.
abbrev pub signalled : Phase → Generator → Answer
signalled waiting g = take_message g g.msg_queue
signalled _ g = idle g

-- `msgFn(msg)`
unfoldable pub got_message : Generator → RpcMessage → Answer
got_message g msg = signalled g.phase (record g { msg_queue = g.msg_queue ++ msg ∷ [] })

abbrev pub timeout_message : String → RpcMessage
timeout_message reqid = record empty_message {
  resid = some reqid;
  error = some "EC-TIME: timeout waiting for response";
}

unfoldable pub timed_out : Generator → Answer
unfolding got_message
timed_out g =
    if g.timer then got_message (record g { timer = false }) (timeout_message g.reqid) else idle g
