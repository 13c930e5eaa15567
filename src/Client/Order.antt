-- ===== src/Client/Order.antt =====
-- The order in which the consumer of a generator gets the data of the responses.
use mathlib.Core.Path.{subst}
use mathlib.Core.List.{append-nil, append_assoc}
use testmerge.Base.{
  String, ◌≡◌, refl, ap, ◌∙◌, sym, Bool, true, false, not, ◌&&◌, Option, none, some, List, [], ◌∷◌,
  ◌++◌, Bool-cases, inl, inr,
}
use testmerge.Router.{Content, RpcMessage}
use testmerge.Client.{is_finished}
use testmerge.Client.Stream.{
  Generator, Phase, started, waiting, yielded, finished, Yield, produced, ended, Answer, asked,
  asked_in, got_message, timed_out, take_message, on_message, signalled, has_no_data, finish, idle,
  timeout_message,
}

-- What happens to a generator, in any order.
pub data StreamCall : Type 0 where
  asks : Bool → StreamCall
  arrives : RpcMessage → StreamCall
  times_out : StreamCall

unfoldable pub stream_step : Generator → StreamCall → Answer
unfolding asked got_message timed_out
stream_step g (asks terminate) = asked g terminate
stream_step g (arrives msg) = got_message g msg
stream_step g times_out = timed_out g

abbrev pub value_of : Option Yield → List Content
value_of (some (produced content)) = content ∷ []
value_of _ = []

-- The data of all values that the consumer gets.
unfoldable pub values : Generator → List StreamCall → List Content
unfolding stream_step
values g [] = []
values g (call ∷ calls) =
    let a = stream_step g call in value_of a.answer ++ values a.generator calls

abbrev data_if : Option String → Content → List Content → List Content
data_if none content rest = content ∷ rest
data_if (some e) content rest = rest

-- The data of the messages without an error.
abbrev pub data_of : List RpcMessage → List Content
data_of [] = []
data_of (msg ∷ msgs) = data_if msg.error msg.content (data_of msgs)

abbrev pub arrived : List StreamCall → List RpcMessage
arrived [] = []
arrived (arrives msg ∷ calls) = msg ∷ arrived calls
arrived (_ ∷ calls) = arrived calls

data_if-append :
    (e : Option String) (content : Content) (xs ys : List Content)
    → data_if e content (xs ++ ys) ≡ data_if e content xs ++ ys
data_if-append none content xs ys = refl
data_if-append (some e) content xs ys = refl

data_of-append : (xs ys : List RpcMessage) → data_of (xs ++ ys) ≡ data_of xs ++ data_of ys
data_of-append [] ys = refl
data_of-append (x ∷ xs) ys =
    ap (data_if x.error x.content) (data_of-append xs ys)
    ∙ data_if-append x.error x.content (data_of xs) (data_of ys)

-- Of the data that is there an answer takes the first, or none; unless the generator is at its end,
-- the rest is in its queue.
record IsFlow (pending : List Content) (a : Answer) : Type 0 where
  rest : List Content
  in_order : value_of a.answer ++ rest ≡ pending
  queued : is_finished a.generator.phase ≡ false → rest ≡ data_of a.generator.msg_queue

IsFlow-message :
    (g : Generator) (msg : RpcMessage) (e : Option String)
    → IsFlow (data_if e msg.content (data_of g.msg_queue)) (on_message g msg e)
IsFlow-message g msg (some e) = record {
  rest = data_of g.msg_queue;
  in_order = refl;
  queued = λ h. cc;
}
IsFlow-message g msg none = elim (Bool-cases (not msg.cont && has_no_data msg.content)) [
  | inl h ↦
      rw h (record { rest = msg.content ∷ data_of g.msg_queue; in_order = refl; queued = λ k. cc })
  | inr h ↦ rw h (record { rest = data_of g.msg_queue; in_order = refl; queued = λ k. refl })
]

IsFlow-take :
    (g : Generator) (queue : List RpcMessage)
    → g.msg_queue ≡ queue
    → IsFlow (data_of queue) (take_message g queue)
IsFlow-take g [] e = record { rest = []; in_order = refl; queued = λ h. ap data_of (sym e) }
IsFlow-take g (msg ∷ rest) e = IsFlow-message (record g { msg_queue = rest }) msg msg.error

IsFlow-idle : (g : Generator) → IsFlow (data_of g.msg_queue) (idle g)
IsFlow-idle g = record { rest = data_of g.msg_queue; in_order = refl; queued = λ h. refl }

IsFlow-finish : (g : Generator) (b : Bool) → IsFlow (data_of g.msg_queue) (finish g (some ended) b)
IsFlow-finish g b = record { rest = data_of g.msg_queue; in_order = refl; queued = λ h. cc }

IsFlow-asked :
    (g : Generator) (phase : Phase) (terminate : Bool)
    → IsFlow (data_of g.msg_queue) (asked_in phase g terminate)
IsFlow-asked g started terminate = IsFlow-take g g.msg_queue refl
IsFlow-asked g waiting terminate = IsFlow-idle g
IsFlow-asked g (yielded cont) true = IsFlow-finish g true
IsFlow-asked g (yielded false) false = IsFlow-finish g false
IsFlow-asked g (yielded true) false = IsFlow-take g g.msg_queue refl
IsFlow-asked g finished terminate = record {
  rest = data_of g.msg_queue;
  in_order = refl;
  queued = λ h. refl;
}

IsFlow-signalled :
    (g : Generator) (phase : Phase) → IsFlow (data_of g.msg_queue) (signalled phase g)
IsFlow-signalled g waiting = IsFlow-take g g.msg_queue refl
IsFlow-signalled g started = IsFlow-idle g
IsFlow-signalled g (yielded cont) = IsFlow-idle g
IsFlow-signalled g finished = IsFlow-idle g

IsFlow-got :
    (g : Generator) (msg : RpcMessage)
    → IsFlow (data_of g.msg_queue ++ data_of (msg ∷ [])) (got_message g msg)
unfolding got_message
IsFlow-got g msg =
    subst (λ l. IsFlow l (got_message g msg)) (data_of-append g.msg_queue (msg ∷ []))
      (IsFlow-signalled (record g { msg_queue = g.msg_queue ++ msg ∷ [] }) g.phase)

IsFlow-timed_out : (g : Generator) → IsFlow (data_of g.msg_queue ++ []) (timed_out g)
unfolding timed_out
IsFlow-timed_out g = elim (Bool-cases g.timer) [
  | inl h ↦ simp h (IsFlow-got (record g { timer = false }) (timeout_message g.reqid))
  | inr h ↦
      simp h
        (subst (λ l. IsFlow l (idle g)) (sym (append-nil (data_of g.msg_queue))) (IsFlow-idle g))
]

IsFlow-step :
    (g : Generator) (call : StreamCall)
    → IsFlow (data_of g.msg_queue ++ data_of (arrived (call ∷ []))) (stream_step g call)
unfolding stream_step
IsFlow-step g (asks terminate) =
    subst (λ l. IsFlow l (asked g terminate)) (sym (append-nil (data_of g.msg_queue)))
      (unfold asked in IsFlow-asked g g.phase terminate)
IsFlow-step g (arrives msg) = IsFlow-got g msg
IsFlow-step g times_out = IsFlow-timed_out g

-- A generator at its end gives no more data.
finished-signalled :
    (phase : Phase) (g : Generator)
    → is_finished phase ≡ true
    → is_finished g.phase ≡ true
    → (value_of (signalled phase g).answer ≡ [])
      × (is_finished (signalled phase g).generator.phase ≡ true)
finished-signalled finished g e h = (refl, h)
finished-signalled started g e h = cc
finished-signalled waiting g e h = cc
finished-signalled (yielded b) g e h = cc

finished-step :
    (g : Generator) (call : StreamCall)
    → is_finished g.phase ≡ true
    → (value_of (stream_step g call).answer ≡ [])
      × (is_finished (stream_step g call).generator.phase ≡ true)
unfolding stream_step asked got_message timed_out
finished-step g (asks terminate) h = by_phase g.phase h
  where
    by_phase :
        (phase : Phase)
        → is_finished phase ≡ true
        → (value_of (asked_in phase g terminate).answer ≡ [])
          × (is_finished (asked_in phase g terminate).generator.phase ≡ true)
    by_phase finished e = (refl, h)
    by_phase started e = cc
    by_phase waiting e = cc
    by_phase (yielded b) e = cc
finished-step g (arrives msg) h =
    finished-signalled g.phase (record g { msg_queue = g.msg_queue ++ msg ∷ [] }) h h
finished-step g times_out h = elim (Bool-cases g.timer) [
  | inl e ↦ simp e (
      finished-signalled g.phase
        (record g { timer = false; msg_queue = g.msg_queue ++ timeout_message g.reqid ∷ [] }) h h)
  | inr e ↦ simp e (refl, h)
]

finished-values :
    (g : Generator) (calls : List StreamCall) → is_finished g.phase ≡ true → values g calls ≡ []
unfolding values
finished-values g [] h = refl
finished-values g (call ∷ calls) h =
    let (no_value, still) = finished-step g call h in
    ap (λ l. l ++ values (stream_step g call).generator calls) no_value
    ∙ finished-values (stream_step g call).generator calls still

arrived-∷ :
    (call : StreamCall) (calls : List StreamCall)
    → data_of (arrived (call ∷ calls)) ≡ data_of (arrived (call ∷ [])) ++ data_of (arrived calls)
arrived-∷ (asks b) calls = refl
arrived-∷ (arrives msg) calls = data_of-append (msg ∷ []) (arrived calls)
arrived-∷ times_out calls = refl

-- What comes behind a step's value, and what it leaves, joined with what arrives later.
after_step :
    (g : Generator) (call : StreamCall) (calls : List StreamCall)
    (f : IsFlow (data_of g.msg_queue ++ data_of (arrived (call ∷ []))) (stream_step g call))
    → value_of (stream_step g call).answer ++ (f.rest ++ data_of (arrived calls))
      ≡ data_of g.msg_queue ++ data_of (arrived (call ∷ calls))
after_step g call calls f =
    sym (append_assoc (value_of (stream_step g call).answer) f.rest (data_of (arrived calls)))
    ∙ ap (λ l. l ++ data_of (arrived calls)) f.in_order
    ∙ append_assoc (data_of g.msg_queue) (data_of (arrived (call ∷ []))) (data_of (arrived calls))
    ∙ ap (λ l. data_of g.msg_queue ++ l) (sym (arrived-∷ call calls))

-- Whatever arrives, whenever the consumer asks and the timer runs out: the data that the consumer
-- gets are the first data of those that waited or arrived without an error, in their order; none is
-- left out or given twice.
pub values-prefix :
    (calls : List StreamCall) (g : Generator)
    → (rest : List Content) × (values g calls ++ rest
        ≡ data_of g.msg_queue ++ data_of (arrived calls))
unfolding values
values-prefix [] g = (data_of g.msg_queue, sym (append-nil _))
values-prefix (call ∷ calls) g =
    let a = stream_step g call in
    let f = IsFlow-step g call in
    elim (Bool-cases (is_finished a.generator.phase)) [
      | inl over ↦ (
        f.rest ++ data_of (arrived calls),
        ap (λ l. (value_of a.answer ++ l) ++ (f.rest ++ data_of (arrived calls)))
              (finished-values a.generator calls over)
            ∙ ap (λ l. l ++ (f.rest ++ data_of (arrived calls))) (append-nil (value_of a.answer))
            ∙ after_step g call calls f,
      )
      | inr open_still ↦
          let (rest, later) = values-prefix calls a.generator in
          (
            rest,
            append_assoc (value_of a.answer) (values a.generator calls) rest
                ∙ ap (λ l. value_of a.answer ++ l)
                    (later ∙ ap (λ l. l ++ data_of (arrived calls)) (sym (f.queued open_still)))
                ∙ after_step g call calls f,
          )
    ]
