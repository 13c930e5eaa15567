-- ===== src/Events/Tests.antt =====
-- The theorems on subscriptions at concrete subjects.
use testmerge.Base.{
  String, ◌≡◌, ◌≢◌, All, str_eq, refl, true, false, none, some, List, [], ◌∷◌, not, arith,
}
use testmerge.Base.Maps
use testmerge.Events.{
  SubjectContainer, Subscription, Unsubscribe, WaveEvent, Subjects, eventsub,
  make_wave_resub_command, wave_event_subscribe, wave_event_unsubscribe, handle_wave_event,
  handle_loop, subjects_of, remove_container,
}
use testmerge.Events.Broker.{asks, split_scope, scope_has_star_match, star_match_string}
use testmerge.Base.Texts.{text}
use testmerge.Events.Resub.{is_empty, make_wave_resub_command-asks}
use testmerge.Events.Subscribe
use testmerge.Events.Cancel.{subscribe-unsubscribe}
use testmerge.Events.Cancel

abbrev focus : SubjectContainer
focus = record { id = "u1"; handler = 1; scope = some "block:1" }

abbrev any : SubjectContainer
any = record { id = "u2"; handler = 2; scope = none }

abbrev window : Subjects
window = ("controllerstatus", focus ∷ any ∷ []) ∷ ("config", any ∷ []) ∷ []

abbrev status : WaveEvent
status = record { event = "controllerstatus"; scopes = some ("block:1" ∷ []) }

abbrev other_block : Subscription
other_block = record { event_type = "controllerstatus"; handler = some 3; scope = some "block:2" }

abbrev every_config : Subscription
every_config = record { event_type = "config"; handler = some 4; scope = none }

abbrev both : List (String × Subscription)
both = ("u3", other_block) ∷ ("u4", every_config) ∷ []

window_handles : handle_wave_event window status ≡ 1 ∷ 2 ∷ []
unfolding handle_wave_event handle_loop Maps.get
window_handles = refl

abbrev block_event : String → WaveEvent
block_event scope = record { event = "config"; scopes = some (scope ∷ []) }

star_scopes :
    (asks (eventsub "config" ("block:*" ∷ []) false) (block_event "block:1") ≡ true)
    × (asks (eventsub "config" ("block:*" ∷ []) false) (block_event "block:1:2") ≡ false)
    × (asks (eventsub "config" ("block:**" ∷ []) false) (block_event "block:1:2") ≡ true)
    × (asks (eventsub "config" ("**:1" ∷ []) false) (block_event "block:1") ≡ false)
unfolding scope_has_star_match star_match_string split_scope text
star_scopes = (refl, refl, refl, refl)

make_wave_resub_command-asks_example :
    asks (make_wave_resub_command window status.event) status
    ≡ not (is_empty (handle_wave_event window status))
unfolding scope_has_star_match split_scope text Maps.get
make_wave_resub_command-asks_example =
    make_wave_resub_command-asks window status refl (refl, (refl, tt))

abbrev cancelled : List Unsubscribe
cancelled = record { id = "u2"; event_type = "config" } ∷ []

cancelled-AllThere : Cancel.AllThere window cancelled
unfolding remove_container Maps.get
cancelled-AllThere = Cancel.and_there refl refl Cancel.none_left

free : All (λ c. str_eq c.id "u3" ≡ false) (subjects_of window "config")
unfolding Maps.get
free = (refl, tt)

full : Maps.get window "config" ≢ some []
unfolding Maps.get
full = λ e. ground arith

subscribe-unsubscribe_example :
    Maps.get
      (wave_event_unsubscribe
        (wave_event_subscribe window (
          ("u3", record { event_type = "config"; handler = some 3; scope = some "block:2" })
          ∷ [])).subjects
        (record { id = "u3"; event_type = "config" } ∷ [])).0
      "config"
    ≡ Maps.get window "config"
subscribe-unsubscribe_example =
    subscribe-unsubscribe window "u3" "config" 3 (some "block:2") "config" free full
