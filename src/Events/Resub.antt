-- ===== src/Events/Resub.antt =====
-- The command that tells the server what a window wants, against the handlers that an event calls.
use testmerge.Base.{
  String, ◌≡◌, refl, ap, sym, ◌∙◌, Bool, true, false, not, ◌||◌, Option, none, some, List, [], ◌∷◌,
  ◌++◌, if◌then◌else◌, arith, All, inl, inr, Bool-cases, str_eq, eq_iff,
}
use testmerge.Base.Maps
use testmerge.Events.{
  SubjectContainer, is_blank, scope_text, is_wanted, or_empty, subjects_of, resub_command,
  WaveEvent, Subjects, Command, eventunsub, eventsub, resub_loop, make_wave_resub_command, includes,
  handle_loop, handle_wave_event, Handler,
}
use testmerge.Events.Broker.{scope_has_star_match, scope_fits, any_in, scopes_of, asks}

abbrev pub is_empty : List Handler → Bool
is_empty [] = true
is_empty (h ∷ hs) = false

any_in-append :
    (scopes xs ys : List String) → any_in scopes (xs ++ ys) ≡ (any_in scopes xs || any_in scopes ys)
any_in-append scopes [] ys = refl
any_in-append scopes (x ∷ xs) ys = ground (arith, any_in-append scopes xs ys)

any_in-none : (xs : List String) → any_in [] xs ≡ false
any_in-none [] = refl
any_in-none (x ∷ xs) = elim (Bool-cases (scope_has_star_match x)) [
  | inl e ↦ rw e (any_in-none xs)
  | inr e ↦ rw e (any_in-none xs)
]

-- No part of the container's scope is a star.
abbrev pub IsPlain : SubjectContainer → Type 0
IsPlain c = scope_has_star_match (scope_text c.scope) ≡ false

scope_fits-plain :
    (scopes : List String) (s : String)
    → scope_has_star_match s ≡ false
    → scope_fits scopes s ≡ includes scopes s
scope_fits-plain scopes s h = rw h refl

-- A container wants an event: it has no scope, or the event has its scope.
wanted_fits :
    (scopes : Option (List String)) (acc : List String) (scope : Option String) (wanted : Bool)
    → scope_has_star_match (scope_text scope) ≡ false
    → (if is_blank scope
        then true
        else any_in (scopes_of scopes) (acc ++ scope_text scope ∷ []) || wanted)
      ≡ (any_in (scopes_of scopes) acc || (is_wanted scopes scope || wanted))
wanted_fits scopes acc none wanted h = ground arith
wanted_fits none acc (some scope) wanted h =
    ground (arith, any_in-none acc, any_in-none (acc ++ scope ∷ []))
wanted_fits (some scopes) acc (some scope) wanted h =
    ground (arith, any_in-append scopes acc (scope ∷ []), scope_fits-plain scopes scope h)

if_calls :
    (b : Bool) (h : Handler) (hs : List Handler)
    → not (is_empty (if b then h ∷ hs else hs)) ≡ (b || not (is_empty hs))
if_calls true h hs = refl
if_calls false h hs = refl

-- What a subscription for the event's type asks for.
abbrev fits : Command → WaveEvent → Bool
fits (eventunsub t) event = false
fits (eventsub t scopes all) event = all || any_in (scopes_of event.scopes) scopes

if_fits :
    (b : Bool) (t : String) (later : Command) (event : WaveEvent)
    → fits (if b then eventsub t [] true else later) event ≡ (if b then true else fits later event)
if_fits true t later event = refl
if_fits false t later event = refl

loop_fits :
    (event : WaveEvent) (t : String) (acc : List String) (cs : List SubjectContainer)
    → All IsPlain cs
    → fits (resub_loop t acc cs) event
      ≡ (any_in (scopes_of event.scopes) acc || not (is_empty (handle_loop event cs)))
unfolding resub_loop handle_loop
loop_fits event t acc [] h = ground arith
loop_fits event t acc (c ∷ cs) h =
    if_fits (is_blank c.scope) t (resub_loop t (acc ++ scope_text c.scope ∷ []) cs) event
    ∙ ap (λ b. if is_blank c.scope then true else b)
        (loop_fits event t (acc ++ scope_text c.scope ∷ []) cs h.1)
    ∙ wanted_fits event.scopes acc c.scope (not (is_empty (handle_loop event cs))) h.0
    ∙ ap (λ b. any_in (scopes_of event.scopes) acc || b)
        (sym (if_calls (is_wanted event.scopes c.scope) c.handler (handle_loop event cs)))

-- The loop ends with a subscription for the event name that it was given.
loop_asks :
    (event : WaveEvent) (t : String) (acc : List String) (cs : List SubjectContainer)
    → str_eq t "" ≡ false
    → str_eq t event.event ≡ true
    → asks (resub_loop t acc cs) event ≡ fits (resub_loop t acc cs) event
unfolding resub_loop
loop_asks event t acc [] p q = rw (p, q) refl
loop_asks event t acc (c ∷ cs) p q = elim (Bool-cases (is_blank c.scope)) [
  | inl e ↦ rw (e, p, q) refl
  | inr e ↦ rw e (loop_asks event t (acc ++ scope_text c.scope ∷ []) cs p q)
]

str_eq_refl : (t : String) → str_eq t t ≡ true
str_eq_refl t = ground (arith, eq_iff t t)

-- For an event with a name, where no container of its type has a scope with a star for one of its
-- parts: the server sends the event to a window whose last command for the type was the one computed
-- from its containers, exactly when the event would call one of the window's handlers.
pub make_wave_resub_command-asks :
    (m : Subjects) (event : WaveEvent)
    → str_eq event.event "" ≡ false
    → All IsPlain (subjects_of m event.event)
    → asks (make_wave_resub_command m event.event) event
      ≡ not (is_empty (handle_wave_event m event))
unfolding make_wave_resub_command handle_wave_event
make_wave_resub_command-asks m event named = by_subjects (Maps.get m event.event)
  where
    by_subjects :
        (found : Option (List SubjectContainer))
        → All IsPlain (or_empty found)
        → asks (resub_command event.event found) event
          ≡ not (is_empty (handle_loop event (or_empty found)))
    by_subjects none h = refl
    by_subjects (some subjects) h =
        loop_asks event event.event [] subjects named (str_eq_refl event.event)
        ∙ loop_fits event event.event [] subjects h
