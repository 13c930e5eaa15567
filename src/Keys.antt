-- ===== src/Keys.antt =====
-- frontend/util/keyutil.ts: the descriptions of key presses, and events against them. A modifier that
-- is not set is false. The platform is a parameter, `mac`, and so is toLocaleLowerCase.
pub mod Descriptions
pub mod Letters
pub mod Input
mod Tests
use testmerge.Base.{
  ℕ, suc, Bool, true, false, not, ◌&&◌, ◌||◌, Option, none, some, List, [], ◌∷◌, ltb, leb, ◌==◌,
  if◌then◌else◌,
}
use testmerge.Base.Texts.{Text, text, text_eq}

pub record Mods : Type 0 where
  pub cmd : Bool
  pub option : Bool
  pub shift : Bool
  pub ctrl : Bool
  pub alt : Bool
  pub meta : Bool

pub data KeyType : Type 0 where
  by_key by_code : KeyType

-- `key_type` is undefined before a key is read.
pub record KeyPressDecl : Type 0 where
  pub mods : Mods
  pub key : Text
  pub key_type : Option KeyType

pub data EventType : Type 0 where
  keydown keyup keypress unknown : EventType

pub record WaveKeyboardEvent : Type 0 where
  pub event_type : EventType
  pub key : Text
  pub code : Text
  pub repeat : Bool
  pub location : ℕ
  pub shift : Bool
  pub control : Bool
  pub alt : Bool
  pub meta : Bool
  pub cmd : Bool
  pub option : Bool

-- replace(/[()]/g, "")
unfoldable pub strip_parens : Text → Text
strip_parens [] = []
strip_parens (c ∷ s) =
    let rest = strip_parens s in if c == b'(' || c == b')' then rest else c ∷ rest

abbrev push_front : ℕ → List Text → List Text
push_front c [] = (c ∷ []) ∷ []
push_front c (w ∷ ws) = (c ∷ w) ∷ ws

-- split(":")
unfoldable pub split_keys : Text → List Text
split_keys [] = [] ∷ []
split_keys (c ∷ s) = let rest = split_keys s in if c == b':' then [] ∷ rest else push_front c rest

-- What `.` does not match.
abbrev is_line_end : ℕ → Bool
is_line_end c = c == 10 || c == 13 || c == 8232 || c == 8233

abbrev group_before : ℕ → Option Text → Option Text
group_before c (some group) = some (c ∷ group)
group_before c none = if c == b'}' then some [] else none

-- (.*)} at the front, with the group.
unfoldable pub match_group : Text → Option Text
match_group [] = none
match_group (c ∷ s) =
    let rest = match_group s in if is_line_end c then none else group_before c rest

abbrev or_text : Option Text → Option Text → Option Text
or_text none o = o
or_text (some t) o = some t

-- The group of the first match of /c{(.*)}/.
unfoldable pub match_code : Text → Option Text
unfolding match_group
match_code [] = none
match_code (c ∷ []) = none
match_code (c ∷ d ∷ s) =
    let rest = match_code (d ∷ s) in
    if c == b'c' && d == b'{' then or_text (match_group s) rest else rest

abbrev pub no_mods : Mods
no_mods = record {
  cmd = false;
  option = false;
  shift = false;
  ctrl = false;
  alt = false;
  meta = false;
}

abbrev pub is_upper : ℕ → Bool
is_upper c = leb b'A' c && leb c b'Z'

abbrev pub with_key : KeyPressDecl → Text → KeyPressDecl
with_key d key = record d { key = key; key_type = some by_key }

-- A key of one code unit: an upper case letter sets the shift key, and a blank is the space key.
abbrev pub plain_key : KeyPressDecl → Text → KeyPressDecl
plain_key d (c ∷ []) =
    if is_upper c
    then record (with_key d (c ∷ [])) { mods = record (d.mods) { shift = true } }
    else if c == b' '
    then with_key d (text "Space")
    else with_key d (c ∷ [])
plain_key d key = with_key d key

abbrev pub code_or_key : KeyPressDecl → Text → Option Text → KeyPressDecl
code_or_key d key (some code) = record d { key = code; key_type = some by_code }
code_or_key d key none = plain_key d key

-- One part of a description.
unfoldable pub read_part : KeyPressDecl → Text → KeyPressDecl
unfolding match_code text
read_part d key =
    if text_eq key (text "Cmd")
    then record d { mods = record (d.mods) { cmd = true } }
    else if text_eq key (text "Shift")
    then record d { mods = record (d.mods) { shift = true } }
    else if text_eq key (text "Ctrl")
    then record d { mods = record (d.mods) { ctrl = true } }
    else if text_eq key (text "Option")
    then record d { mods = record (d.mods) { option = true } }
    else if text_eq key (text "Alt")
    then record d { mods = record (d.mods) { alt = true } }
    else if text_eq key (text "Meta")
    then record d { mods = record (d.mods) { meta = true } }
    else code_or_key d key (match_code key)

unfoldable pub read_parts : KeyPressDecl → List Text → KeyPressDecl
unfolding read_part
read_parts d [] = d
read_parts d (key ∷ keys) = read_parts (read_part d key) keys

unfoldable pub parse_from : KeyPressDecl → Text → KeyPressDecl
unfolding strip_parens split_keys read_parts
parse_from d s = read_parts d (split_keys (strip_parens s))

unfoldable pub parse_key_description : Text → KeyPressDecl
unfolding parse_from
parse_key_description s = parse_from (record { mods = no_mods; key = []; key_type = none }) s

abbrev not_mod : Bool → Bool → Bool
not_mod key_press_mod event_mod =
    (key_press_mod && not event_mod) || (event_mod && not key_press_mod)

abbrev pub mods_fit : Mods → WaveKeyboardEvent → Bool
mods_fit m ev =
    if not m.alt && not_mod m.option ev.option
    then false
    else if not m.meta && not_mod m.cmd ev.cmd
    then false
    else if not_mod m.shift ev.shift
    then false
    else if not_mod m.ctrl ev.control
    then false
    else if m.alt && not ev.alt
    then false
    else not (m.meta && not ev.meta)

module _ (to_lower : Text → Text) where
  abbrev pub key_fits : Text → Text → Bool
  key_fits desc (c ∷ []) =
      if is_upper c
      then text_eq (to_lower desc) (to_lower (c ∷ []))
      else if c == b' '
      then text_eq desc (text "Space")
      else text_eq desc (c ∷ [])
  key_fits desc key = text_eq desc key

  -- Without a type the event's key stays empty.
  abbrev pub decl_fits : KeyPressDecl → Option KeyType → WaveKeyboardEvent → Bool
  decl_fits d none ev = text_eq d.key []
  decl_fits d (some by_code) ev = text_eq d.key ev.code
  decl_fits d (some by_key) ev = key_fits d.key ev.key

  unfoldable pub check_key_pressed : WaveKeyboardEvent → Text → Bool
  unfolding parse_key_description
  check_key_pressed ev s =
      let d = parse_key_description s in mods_fit d.mods ev && decl_fits d d.key_type ev

-- What a keyboard event of React or the DOM has; its type is one of EventType's or another.
pub record DomKeyEvent : Type 0 where
  pub event_type : EventType
  pub key : Text
  pub code : Text
  pub repeat : Bool
  pub location : ℕ
  pub shift_key : Bool
  pub ctrl_key : Bool
  pub alt_key : Bool
  pub meta_key : Bool

unfoldable pub adapt_from_react_or_native_key_event : Bool → DomKeyEvent → WaveKeyboardEvent
adapt_from_react_or_native_key_event mac ev = record {
  event_type = ev.event_type;
  key = ev.key;
  code = ev.code;
  repeat = ev.repeat;
  location = ev.location;
  shift = ev.shift_key;
  control = ev.ctrl_key;
  alt = ev.alt_key;
  meta = ev.meta_key;
  cmd = if mac then ev.meta_key else ev.alt_key;
  option = if mac then ev.alt_key else ev.meta_key;
}

pub data ElectronType : Type 0 where
  key_up key_down other : ElectronType

pub record ElectronKeyEvent : Type 0 where
  pub event_type : ElectronType
  pub key : Text
  pub code : Text
  pub is_auto_repeat : Bool
  pub location : ℕ
  pub shift : Bool
  pub control : Bool
  pub alt : Bool
  pub meta : Bool

abbrev electron_type : ElectronType → EventType
electron_type key_up = keyup
electron_type key_down = keydown
electron_type other = unknown

unfoldable pub adapt_from_electron_key_event : Bool → ElectronKeyEvent → WaveKeyboardEvent
adapt_from_electron_key_event mac ev = record {
  event_type = electron_type ev.event_type;
  key = ev.key;
  code = ev.code;
  repeat = ev.is_auto_repeat;
  location = ev.location;
  shift = ev.shift;
  control = ev.control;
  alt = ev.alt;
  meta = ev.meta;
  cmd = if mac then ev.meta else ev.alt;
  option = if mac then ev.alt else ev.meta;
}
