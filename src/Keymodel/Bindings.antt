-- ===== src/Keymodel/Bindings.antt =====
-- The global key bindings: none of them is hidden by an earlier one.
use testmerge.Base.{
  ℕ, zero, suc, ◌≡◌, refl, sym, ap, ◌∙◌, arith, Bool, true, false, Option, if◌then◌else◌, some,
  List, [], ◌∷◌,
}
use testmerge.Base.Int.{pos, negsuc}
use testmerge.Base.Texts.{Text, text}
use testmerge.Layout.Navigate.{up, down, left, right}
use testmerge.Keys.{
  WaveKeyboardEvent, KeyPressDecl, KeyType, by_code, keydown, parse_key_description, parse_from,
  strip_parens, split_keys, match_group, match_code, read_part, read_parts, key_fits,
  check_key_pressed,
}
use testmerge.Keymodel.{get_elem?}
use testmerge.Keymodel.Global.{
  Action, tab_by, cmd_n, cmd_i, new_tab, close_current, magnify, focus_towards, tab_number,
  block_number, Bindings, digit_keys, global_key_map, find_binding,
  handle_global_wave_keyboard_events,
}

-- The rest of an event, which the description says nothing of: the key is that of an event for a code,
-- the code that of an event for a key.
pub record Rest : Type 0 where
  pub key : Text
  pub code : Text
  pub repeat : Bool
  pub location : ℕ
  pub alt : Bool
  pub meta : Bool

abbrev event_with : Rest → KeyPressDecl → Text → Text → WaveKeyboardEvent
event_with r d key code = record {
  event_type = keydown;
  key = key;
  code = code;
  repeat = r.repeat;
  location = r.location;
  shift = d.mods.shift;
  control = d.mods.ctrl;
  alt = r.alt;
  meta = r.meta;
  cmd = d.mods.cmd;
  option = d.mods.option;
}

abbrev event_typed : Rest → KeyPressDecl → Option KeyType → WaveKeyboardEvent
event_typed r d (some by_code) = event_with r d r.key d.key
event_typed r d _ = event_with r d d.key r.code

-- An event with the modifiers and the key, or the code, of a description.
unfoldable pub event_for : Rest → Text → WaveKeyboardEvent
unfolding parse_key_description
event_for r s = let d = parse_key_description s in event_typed r d d.key_type

-- The key is none of the four that are bound together with Ctrl and Shift.
pub record IsNoArrow (to_lower : Text → Text) (key : Text) : Type 0 where
  pub no_up : key_fits to_lower (text "ArrowUp") key ≡ false
  pub no_down : key_fits to_lower (text "ArrowDown") key ≡ false
  pub no_left : key_fits to_lower (text "ArrowLeft") key ≡ false
  pub no_right : key_fits to_lower (text "ArrowRight") key ≡ false

abbrev pub handled : (Text → Text) → Rest → Bindings → List (Option Action)
handled to_lower r [] = []
handled to_lower r ((key, action) ∷ rest) =
    handle_global_wave_keyboard_events to_lower (event_for r key) ∷ handled to_lower r rest

abbrev pub actions : Bindings → List (Option Action)
actions [] = []
actions ((key, action) ∷ rest) = some action ∷ actions rest

-- What an event for a code calls, by which of the four arrow keys its key is.
abbrev arrow_or : Bool → Bool → Bool → Bool → Action → Option Action
arrow_or u d l r action =
    if u
    then some (focus_towards up)
    else if d
    then some (focus_towards down)
    else if l
    then some (focus_towards left)
    else if r
    then some (focus_towards right)
    else some action

abbrev digit_actions : Bool → Bool → Bool → Bool → ℕ → List (Option Action) → List (Option Action)
digit_actions u d l r idx rest =
    some (tab_number idx)
    ∷ arrow_or u d l r (block_number idx)
    ∷ arrow_or u d l r (block_number idx)
    ∷ rest

abbrev arrow_actions : Bool → Bool → Bool → Bool → List (Option Action)
arrow_actions u d l r =
    some (tab_by (pos 1))
    ∷ some (tab_by (pos 1))
    ∷ some (tab_by (negsuc 0))
    ∷ some (tab_by (negsuc 0))
    ∷ some cmd_n
    ∷ some cmd_i
    ∷ some new_tab
    ∷ some close_current
    ∷ some magnify
    ∷ some (focus_towards up)
    ∷ some (focus_towards down)
    ∷ some (focus_towards left)
    ∷ some (focus_towards right)
    ∷ digit_actions u d l r 1 (
        digit_actions u d l r 2 (
          digit_actions u d l r 3 (
            digit_actions u d l r 4 (
              digit_actions u d l r 5 (
                digit_actions u d l r 6 (
                  digit_actions u d l r 7
                    (digit_actions u d l r 8 (digit_actions u d l r 9 []))))))))

handled-arrows :
    (to_lower : Text → Text) (r : Rest)
    → handled to_lower r global_key_map
      ≡ arrow_actions
          (key_fits to_lower (text "ArrowUp") r.key)
          (key_fits to_lower (text "ArrowDown") r.key)
          (key_fits to_lower (text "ArrowLeft") r.key)
          (key_fits to_lower (text "ArrowRight") r.key)
unfolding handle_global_wave_keyboard_events event_for match_group match_code text strip_parens
    split_keys read_part read_parts parse_from find_binding check_key_pressed digit_keys
    global_key_map
handled-arrows to_lower r = refl

no-arrows :
    (u d l r : Bool)
    → u ≡ false
    → d ≡ false
    → l ≡ false
    → r ≡ false
    → arrow_actions u d l r ≡ actions global_key_map
unfolding global_key_map digit_keys
no-arrows true d l r e f g h = absurd (ground arith)
no-arrows false true l r e f g h = absurd (ground arith)
no-arrows false false true r e f g h = absurd (ground arith)
no-arrows false false false true e f g h = absurd (ground arith)
no-arrows false false false false e f g h = refl

handled-map :
    (to_lower : Text → Text) (r : Rest)
    → IsNoArrow to_lower r.key
    → handled to_lower r global_key_map ≡ actions global_key_map
handled-map to_lower r h =
    handled-arrows to_lower r ∙ no-arrows _ _ _ _ h.no_up h.no_down h.no_left h.no_right

handled-get :
    (to_lower : Text → Text) (r : Rest) (m : Bindings) (n : ℕ) (key : Text) (action : Action)
    → get_elem? m n ≡ some (key, action)
    → get_elem? (handled to_lower r m) n
      ≡ some (handle_global_wave_keyboard_events to_lower (event_for r key))
unfolding get_elem?
handled-get to_lower r [] n key action h = absurd (ground arith)
handled-get to_lower r ((k, a) ∷ m) zero key action h =
    let e : k ≡ key = ground arith in
    ap (λ x. some (handle_global_wave_keyboard_events to_lower (event_for r x))) e
handled-get to_lower r ((k, a) ∷ m) (suc n) key action h = handled-get to_lower r m n key action h

actions-get :
    (m : Bindings) (n : ℕ) (key : Text) (action : Action)
    → get_elem? m n ≡ some (key, action)
    → get_elem? (actions m) n ≡ some (some action)
unfolding get_elem?
actions-get [] n key action h = absurd (ground arith)
actions-get ((k, a) ∷ m) zero key action h =
    let e : a ≡ action = ground arith in ap (λ x. some (some x)) e
actions-get ((k, a) ∷ m) (suc n) key action h = actions-get m n key action h

-- An event with the modifiers and the key of a global binding's description, or with its modifiers,
-- its code and a key that is not one of the four arrow keys, is handled by that binding: no earlier
-- one takes it.
pub handle_global-binding :
    (to_lower : Text → Text) (r : Rest) (n : ℕ) (key : Text) (action : Action)
    → IsNoArrow to_lower r.key
    → get_elem? global_key_map n ≡ some (key, action)
    → handle_global_wave_keyboard_events to_lower (event_for r key) ≡ some action
handle_global-binding to_lower r n key action clear h =
    let e : some (handle_global_wave_keyboard_events to_lower (event_for r key))
        ≡ some (some action) =
      sym (handled-get to_lower r global_key_map n key action h)
      ∙ ap (λ xs. get_elem? xs n) (handled-map to_lower r clear)
      ∙ actions-get global_key_map n key action h in
    ground arith
