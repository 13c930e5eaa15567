-- ===== src/Events.antt =====
-- frontend/app/store/wps.ts: the subscriptions of a window to the events of the server. A handler is
-- a number, and the calls of handlers and the commands sent to the server are results, in order. The
-- results of crypto.randomUUID come with the subscriptions that draw them.
pub mod Broker
pub mod Resub
pub mod Told
pub mod Subscribe
pub mod Cancel
pub mod Files
mod Tests
use mathlib.Core.Option
use testmerge.Base.{
  ℕ, zero, suc, ◌+◌, ◌-◌, String, Bool, true, false, ◌||◌, Option, none, some, List, [], ◌∷◌, ◌++◌,
  str_eq, ◌==◌, if◌then◌else◌,
}
use testmerge.Base.Maps
use testmerge.Base.Maps.{Map}

abbrev pub Handler : Type 0
Handler = ℕ

-- WaveEventSubjectContainer
pub record SubjectContainer : Type 0 where
  pub id : String
  pub handler : Handler
  pub scope : Option String

-- WaveEventSubscription; the handler may be null.
pub record Subscription : Type 0 where
  pub event_type : String
  pub handler : Option Handler
  pub scope : Option String

-- WaveEventUnsubscribe
pub record Unsubscribe : Type 0 where
  pub id : String
  pub event_type : String

pub record WaveEvent : Type 0 where
  pub event : String
  pub scopes : Option (List String)

-- waveEventSubjects
abbrev pub Subjects : Type 0
Subjects = Map (List SubjectContainer)

pub data Command : Type 0 where
  eventunsub : String → Command
  eventsub : String → List String → Bool → Command

-- util.ts
abbrev pub is_blank : Option String → Bool
is_blank none = true
is_blank (some s) = str_eq s ""

abbrev pub scope_text : Option String → String
scope_text none = ""
scope_text (some s) = s

-- The loop over the containers: the first one without a scope asks for all events, and ends it.
pub resub_loop : String → List String → List SubjectContainer → Command
resub_loop event scopes [] = eventsub event scopes false
resub_loop event scopes (scont ∷ rest) =
    let later = resub_loop event (scopes ++ scope_text scont.scope ∷ []) rest in
    if is_blank scont.scope then eventsub event [] true else later

abbrev pub resub_command : String → Option (List SubjectContainer) → Command
resub_command event_type none = eventunsub event_type
resub_command event_type (some subjects) = resub_loop event_type [] subjects

pub make_wave_resub_command : Subjects → String → Command
unfolding resub_loop
make_wave_resub_command m event_type = resub_command event_type (Maps.get m event_type)

abbrev pub updates : Subjects → List String → List Command
updates m [] = []
updates m (event_type ∷ rest) = make_wave_resub_command m event_type ∷ updates m rest

abbrev pub keys : Subjects → List String
keys [] = []
keys ((event_type, subjects) ∷ m) = event_type ∷ keys m

unfoldable pub wps_reconnect_handler : Subjects → List Command
wps_reconnect_handler m = updates m (keys m)

-- A `Set`, in the order of insertion.
abbrev pub add_to_set : String → List String → List String
add_to_set x [] = x ∷ []
add_to_set x (y ∷ ys) = if str_eq y x then y ∷ ys else y ∷ add_to_set x ys

abbrev pub or_empty : Option (List SubjectContainer) → List SubjectContainer
or_empty none = []
or_empty (some subjects) = subjects

abbrev pub subjects_of : Subjects → String → List SubjectContainer
subjects_of m event_type = or_empty (Maps.get m event_type)

abbrev pub add_container : Subjects → String → SubjectContainer → Subjects
add_container m event_type subcont =
    Maps.set m event_type (subjects_of m event_type ++ subcont ∷ [])

-- A `return` in a loop, at a value that is not there; what follows is the rest of the loop.
abbrev pub or_stop {ℓ κ} :
    {A : Type ℓ} {B : Type κ}
    → Option A
    → Subjects
    → (A → Subjects × Option B)
    → Subjects × Option B
or_stop none m after = (m, none)
or_stop (some a) m after = after a

-- The ids in front of the subscriptions are those that it draws. The loop returns early, with no
-- list, at a null handler.
pub subscribe_loop :
    Subjects
    → List (String × Subscription)
    → List Unsubscribe
    → List String
    → Subjects × Option (List Unsubscribe × List String)
subscribe_loop m [] unsubs types = (m, some (unsubs, types))
subscribe_loop m ((id, sub) ∷ rest) unsubs types = or_stop sub.handler m λ handler.
    subscribe_loop
      (add_container m sub.event_type (record { id = id; handler = handler; scope = sub.scope }))
      rest (unsubs ++ record { id = id; event_type = sub.event_type } ∷ [])
      (add_to_set sub.event_type types)

-- What the call leaves: the subjects, the commands sent, and the arguments of the function that it
-- returns, or `undefined`.
pub record Subscribed : Type 0 where
  pub subjects : Subjects
  pub commands : List Command
  pub unsubs : Option (List Unsubscribe)

abbrev pub subscribed : Subjects × Option (List Unsubscribe × List String) → Subscribed
subscribed (m, none) = record { subjects = m; commands = []; unsubs = none }
subscribed (m, some (unsubs, types)) = record {
  subjects = m;
  commands = updates m types;
  unsubs = some unsubs;
}

pub wave_event_subscribe : Subjects → List (String × Subscription) → Subscribed
unfolding subscribe_loop make_wave_resub_command
wave_event_subscribe m subscriptions = subscribed (subscribe_loop m subscriptions [] [])

-- `findIndex` and `splice`: `none` where no container has the id.
pub remove_container : String → List SubjectContainer → Option (List SubjectContainer)
remove_container id [] = none
remove_container id (c ∷ cs) =
    if str_eq c.id id then some cs else Option.map (λ rest. c ∷ rest) (remove_container id cs)

abbrev pub put_back : Subjects → String → List SubjectContainer → Subjects
put_back m event_type [] = Maps.delete m event_type
put_back m event_type (c ∷ cs) = Maps.set m event_type (c ∷ cs)

-- The loop returns early, with no list, at an event type or an id that is not there.
pub unsubscribe_loop : Subjects → List Unsubscribe → List String → Subjects × Option (List String)
unfolding remove_container
unsubscribe_loop m [] types = (m, some types)
unsubscribe_loop m (u ∷ rest) types = or_stop (Maps.get m u.event_type) m λ subjects.
    or_stop (remove_container u.id subjects) m
      λ left. unsubscribe_loop (put_back m u.event_type left) rest (add_to_set u.event_type types)

abbrev pub unsubscribed : Subjects × Option (List String) → Subjects × List Command
unsubscribed (m, none) = (m, [])
unsubscribed (m, some types) = (m, updates m types)

pub wave_event_unsubscribe : Subjects → List Unsubscribe → Subjects × List Command
unfolding unsubscribe_loop make_wave_resub_command
wave_event_unsubscribe m unsubscribes = unsubscribed (unsubscribe_loop m unsubscribes [])

abbrev pub includes : List String → String → Bool
includes [] s = false
includes (t ∷ ts) s = str_eq t s || includes ts s

-- The tests of the loop of `handleWaveEvent`, on the scopes of the event and that of a container.
abbrev pub is_wanted : Option (List String) → Option String → Bool
is_wanted scopes none = true
is_wanted none (some scope) = str_eq scope ""
is_wanted (some scopes) (some scope) = str_eq scope "" || includes scopes scope

-- The loop of `handleWaveEvent`: the handlers called, in order.
pub handle_loop : WaveEvent → List SubjectContainer → List Handler
handle_loop event [] = []
handle_loop event (scont ∷ rest) =
    let others = handle_loop event rest in
    if is_wanted event.scopes scont.scope then scont.handler ∷ others else others

pub handle_wave_event : Subjects → WaveEvent → List Handler
unfolding handle_loop
handle_wave_event m event = handle_loop event (subjects_of m event.event)
