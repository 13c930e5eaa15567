-- ===== src/Keys/Input.antt =====
-- isCharacterKeyEvent and isInputEvent of frontend/util/keyutil.ts. How many graphemes a text has is a
-- parameter.
use testmerge.Base.{ℕ, Bool, false, ◌||◌, List, [], ◌∷◌, ◌==◌, if◌then◌else◌, String}
use testmerge.Base.Texts.{Text, text}
use testmerge.Keys.{WaveKeyboardEvent, check_key_pressed}

-- The keys of inputKeyMap.
abbrev pub input_keys : List String
input_keys =
    "Backspace" ∷ "Delete" ∷ "Enter" ∷ "Space" ∷ "Tab" ∷ "ArrowLeft" ∷ "ArrowRight" ∷ "ArrowUp"
    ∷ "ArrowDown" ∷ "Home" ∷ "End" ∷ "PageUp" ∷ "PageDown" ∷ "Cmd:a" ∷ "Cmd:c" ∷ "Cmd:v" ∷ "Cmd:x"
    ∷ "Cmd:z" ∷ "Cmd:Shift:z" ∷ "Cmd:ArrowLeft" ∷ "Cmd:ArrowRight" ∷ "Cmd:Backspace" ∷ "Cmd:Delete"
    ∷ "Shift:ArrowLeft" ∷ "Shift:ArrowRight" ∷ "Shift:ArrowUp" ∷ "Shift:ArrowDown" ∷ "Shift:Home"
    ∷ "Shift:End" ∷ "Cmd:Shift:ArrowLeft" ∷ "Cmd:Shift:ArrowRight" ∷ "Cmd:Shift:ArrowUp"
    ∷ "Cmd:Shift:ArrowDown" ∷ []

module _ (to_lower : Text → Text) (count_graphemes : Text → ℕ) where
  abbrev pub is_character_key_event : WaveKeyboardEvent → Bool
  is_character_key_event ev =
      if ev.alt || ev.meta || ev.control then false else count_graphemes ev.key == 1

  unfoldable pub is_one_of : WaveKeyboardEvent → List String → Bool
  unfolding check_key_pressed text
  is_one_of ev [] = false
  is_one_of ev (key ∷ keys) = check_key_pressed to_lower ev (text key) || is_one_of ev keys

  unfoldable pub is_input_event : WaveKeyboardEvent → Bool
  unfolding is_one_of
  is_input_event ev = is_character_key_event ev || is_one_of ev input_keys
