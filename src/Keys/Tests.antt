-- ===== src/Keys/Tests.antt =====
-- The theorems on key descriptions at concrete descriptions and events.
use testmerge.Base.{◌+◌, ◌≡◌, refl, true, false, some, [], ◌∷◌, if◌then◌else◌}
use testmerge.Base.Texts.{Text, text}
use testmerge.Keys.{
  Mods, by_key, by_code, no_mods, keydown, is_upper, WaveKeyboardEvent, DomKeyEvent,
  ElectronKeyEvent, key_down, match_code, parse_key_description, check_key_pressed,
  adapt_from_react_or_native_key_event, adapt_from_electron_key_event,
}
use testmerge.Keys.Descriptions.{IsPlain, print_description, parse_key_description-print}
use testmerge.Keys.Input.{is_input_event}

abbrev lower_in : Text → Text
lower_in [] = []
lower_in (c ∷ s) = (if is_upper c then c + 32 else c) ∷ lower_in s

-- A press of the key e with shift, and with caps lock besides.
abbrev press : Text → DomKeyEvent
press key = record {
  event_type = keydown;
  key = key;
  code = text "KeyE";
  repeat = false;
  location = 0;
  shift_key = true;
  ctrl_key = false;
  alt_key = false;
  meta_key = false;
}

abbrev electron_press : Text → ElectronKeyEvent
electron_press key = record {
  event_type = key_down;
  key = key;
  code = text "KeyE";
  is_auto_repeat = false;
  location = 0;
  shift = true;
  control = false;
  alt = false;
  meta = false;
}

abbrev event : Text → WaveKeyboardEvent
event key = record {
  event_type = keydown;
  key = key;
  code = text "KeyE";
  repeat = false;
  location = 0;
  shift = true;
  control = false;
  alt = false;
  meta = false;
  cmd = false;
  option = false;
}

from_dom : adapt_from_react_or_native_key_event true (press (b'E' ∷ [])) ≡ event (b'E' ∷ [])
unfolding adapt_from_react_or_native_key_event
from_dom = refl

from_electron : adapt_from_electron_key_event true (electron_press (b'E' ∷ [])) ≡ event (b'E' ∷ [])
unfolding adapt_from_electron_key_event
from_electron = refl

with_code :
    parse_key_description (text "Ctrl:c{KeyE}")
    ≡ record { mods = record no_mods { ctrl = true }; key = text "KeyE"; key_type = some by_code }
unfolding parse_key_description text
with_code = refl

-- With shift and caps lock the event has the lower case key.
caps_lock :
    (check_key_pressed lower_in (event (b'e' ∷ [])) (text "Shift:e") ≡ true)
    × (check_key_pressed lower_in (event (b'e' ∷ [])) (text "E") ≡ false)
unfolding check_key_pressed text
caps_lock = (refl, refl)

an_input : is_input_event lower_in (λ s. 1) (event (b'e' ∷ [])) ≡ true
unfolding is_input_event
an_input = refl

no_input : is_input_event lower_in (λ s. 2) (event (text "F5")) ≡ false
unfolding is_input_event text
no_input = refl

abbrev shift_ctrl : Mods
shift_ctrl = record no_mods { shift = true; ctrl = true }

enter-IsPlain : IsPlain (text "Enter")
unfolding text match_code
enter-IsPlain = record {
  no_separator = (refl, (refl, (refl, (refl, (refl, tt)))));
  no_cmd = refl;
  no_shift = refl;
  no_ctrl = refl;
  no_option = refl;
  no_alt = refl;
  no_meta = refl;
  no_code = refl;
  no_change = refl;
}

parse_key_description-print_example :
    parse_key_description (print_description shift_ctrl (text "Enter"))
    ≡ record { mods = shift_ctrl; key = text "Enter"; key_type = some by_key }
parse_key_description-print_example =
    parse_key_description-print shift_ctrl (text "Enter") enter-IsPlain
