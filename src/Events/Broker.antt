-- ===== src/Events/Broker.antt =====
-- What the server does with a window's command: Subscribe and getMatchingRouteIds of pkg/wps/wps.go, for
-- the route of one window, and StarMatchString of pkg/util/utilfn/utilfn.go.
use testmerge.Base.{
  ℕ, String, Bool, true, false, not, ◌&&◌, ◌||◌, List, [], ◌∷◌, Option, none, some, ◌==◌, str_eq,
  if◌then◌else◌,
}
use testmerge.Base.Texts.{Text, text, text_eq}
use testmerge.Events.{WaveEvent, Command, eventunsub, eventsub, includes}

abbrev onto_first : ℕ → List Text → List Text
onto_first c [] = (c ∷ []) ∷ []
onto_first c (part ∷ parts) = (c ∷ part) ∷ parts

-- `strings.Split` at the colons.
unfoldable pub split_scope : Text → List Text
split_scope [] = [] ∷ []
split_scope (c ∷ cs) =
    let parts = split_scope cs in if c == b':' then [] ∷ parts else onto_first c parts

abbrev is_star : Text → Bool
is_star part = text_eq part (b'*' ∷ [])

abbrev is_double_star : Text → Bool
is_double_star part = text_eq part (b'*' ∷ b'*' ∷ [])

abbrev any_star : List Text → Bool
any_star [] = false
any_star (part ∷ parts) = is_star part || is_double_star part || any_star parts

unfoldable pub scope_has_star_match : String → Bool
unfolding split_scope text
scope_has_star_match scope = any_star (split_scope (text scope))

abbrev is_end : List Text → Bool
is_end [] = true
is_end (part ∷ parts) = false

-- The loop over the parts of the pattern, and the test of the lengths behind it.
abbrev parts_match : List Text → List Text → Bool
parts_match [] [] = true
parts_match [] (s ∷ ss) = false
parts_match (p ∷ ps) [] = is_double_star p && is_end ps
parts_match (p ∷ ps) (s ∷ ss) =
    let later = parts_match ps ss in
    if is_double_star p
    then is_end ps
    else if not (is_star p) && not (text_eq p s)
    then false
    else later

unfoldable pub star_match_string : String → String → Bool
unfolding split_scope text
star_match_string pattern s = parts_match (split_scope (text pattern)) (split_scope (text s))

abbrev pub any_matches : String → List String → Bool
any_matches pattern [] = false
any_matches pattern (scope ∷ scopes) = star_match_string pattern scope || any_matches pattern scopes

-- A scope of the subscription, in the map of the star scopes or in that of the others, against the
-- scopes of an event.
abbrev pub scope_fits : List String → String → Bool
scope_fits scopes s = if scope_has_star_match s then any_matches s scopes else includes scopes s

abbrev pub any_in : List String → List String → Bool
any_in scopes [] = false
any_in scopes (s ∷ ss) = scope_fits scopes s || any_in scopes ss

abbrev pub scopes_of : Option (List String) → List String
scopes_of none = []
scopes_of (some scopes) = scopes

-- Whether the event is sent to the window whose last command for events of a type was this one. A
-- subscription without an event name is not kept.
abbrev pub asks : Command → WaveEvent → Bool
asks (eventunsub t) event = false
asks (eventsub t scopes all) event =
    not (str_eq t "") && str_eq t event.event && (all || any_in (scopes_of event.scopes) scopes)
