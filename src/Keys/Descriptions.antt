-- ===== src/Keys/Descriptions.antt =====
-- Descriptions that are printed and read again.
use testmerge.Base.{
  ℕ, ◌≡◌, refl, ap, ◌∙◌, Bool, true, false, ◌||◌, none, some, [], ◌∷◌, ◌++◌, ◌==◌, if◌then◌else◌,
  if-false, arith, All,
}
use testmerge.Base.Texts.{Text, text, text_eq}
use testmerge.Keys.{
  Mods, KeyPressDecl, by_key, strip_parens, split_keys, match_code, is_upper, with_key, plain_key,
  code_or_key, read_part, read_parts, parse_from, parse_key_description,
}

abbrev put_mod : Bool → Text → Text → Text
put_mod set name s = if set then name ++ b':' ∷ s else s

-- The names of the modifiers, each with a colon behind it, and the key.
abbrev pub print_description : Mods → Text → Text
print_description m key = put_mod m.cmd (text "Cmd") (
    put_mod m.option (text "Option") (
      put_mod m.shift (text "Shift") (
        put_mod m.ctrl (text "Ctrl")
          (put_mod m.alt (text "Alt") (put_mod m.meta (text "Meta") key)))))

abbrev is_separator : ℕ → Bool
is_separator c = c == b'(' || c == b')' || c == b':'

abbrev is_changed : Text → Bool
is_changed (c ∷ []) = is_upper c || c == b' '
is_changed _ = false

-- A key that stands for itself: without colons and parentheses, no modifier, no code, and neither an
-- upper case letter nor a blank.
pub record IsPlain (key : Text) : Type 0 where
  pub no_separator : All (λ c. is_separator c ≡ false) key
  pub no_cmd : text_eq key (text "Cmd") ≡ false
  pub no_shift : text_eq key (text "Shift") ≡ false
  pub no_ctrl : text_eq key (text "Ctrl") ≡ false
  pub no_option : text_eq key (text "Option") ≡ false
  pub no_alt : text_eq key (text "Alt") ≡ false
  pub no_meta : text_eq key (text "Meta") ≡ false
  pub no_code : match_code key ≡ none
  pub no_change : is_changed key ≡ false

strip_parens-plain : (s : Text) → All (λ c. is_separator c ≡ false) s → strip_parens s ≡ s
unfolding strip_parens
strip_parens-plain [] h = refl
strip_parens-plain (c ∷ s) (h, hs) =
    if-false {b = c == b'(' || c == b')'} _ _ (ground (arith, h))
    ∙ ap (λ t. c ∷ t) (strip_parens-plain s hs)

split_keys-plain : (s : Text) → All (λ c. is_separator c ≡ false) s → split_keys s ≡ s ∷ []
unfolding split_keys
split_keys-plain [] h = refl
split_keys-plain (c ∷ s) (h, hs) =
    let other : (c == b':') ≡ false = ground (arith, h) in rw (other, split_keys-plain s hs) refl

plain_key-plain :
    (d : KeyPressDecl) (key : Text) → is_changed key ≡ false → plain_key d key ≡ with_key d key
plain_key-plain d [] h = refl
plain_key-plain d (c ∷ []) h = ground (arith, h)
plain_key-plain d (c ∷ e ∷ s) h = refl

read_part-plain : (d : KeyPressDecl) (key : Text) → IsPlain key → read_part d key ≡ with_key d key
unfolding read_part
read_part-plain d key h =
    if-false _ _ h.no_cmd
    ∙ if-false _ _ h.no_shift
    ∙ if-false _ _ h.no_ctrl
    ∙ if-false _ _ h.no_option
    ∙ if-false _ _ h.no_alt
    ∙ if-false _ _ h.no_meta
    ∙ ap (code_or_key d key) h.no_code
    ∙ plain_key-plain d key h.no_change

parse_from-plain : (d : KeyPressDecl) (key : Text) → IsPlain key → parse_from d key ≡ with_key d key
unfolding parse_from read_parts
parse_from-plain d key h =
    ap (λ s. read_parts d (split_keys s)) (strip_parens-plain key h.no_separator)
    ∙ ap (read_parts d) (split_keys-plain key h.no_separator)
    ∙ read_part-plain d key h

abbrev reading : Bool → Bool → Bool → Bool → Bool → Bool → KeyPressDecl
reading cmd option shift ctrl alt meta = record {
  mods = record { cmd = cmd; option = option; shift = shift; ctrl = ctrl; alt = alt; meta = meta };
  key = [];
  key_type = none;
}

-- Each modifier is read off the front of the text.
module _ (s : Text) where
  read_cmd :
      (a : Bool)
      → parse_from (reading false false false false false false) (put_mod a (text "Cmd") s)
        ≡ parse_from (reading a false false false false false) s
  unfolding parse_from strip_parens split_keys read_parts read_part
  read_cmd true = refl
  read_cmd false = refl

  read_option :
      (a b : Bool)
      → parse_from (reading a false false false false false) (put_mod b (text "Option") s)
        ≡ parse_from (reading a b false false false false) s
  unfolding parse_from strip_parens split_keys read_parts read_part
  read_option a true = refl
  read_option a false = refl

  read_shift :
      (a b c : Bool)
      → parse_from (reading a b false false false false) (put_mod c (text "Shift") s)
        ≡ parse_from (reading a b c false false false) s
  unfolding parse_from strip_parens split_keys read_parts read_part
  read_shift a b true = refl
  read_shift a b false = refl

  read_ctrl :
      (a b c d : Bool)
      → parse_from (reading a b c false false false) (put_mod d (text "Ctrl") s)
        ≡ parse_from (reading a b c d false false) s
  unfolding parse_from strip_parens split_keys read_parts read_part
  read_ctrl a b c true = refl
  read_ctrl a b c false = refl

  read_alt :
      (a b c d e : Bool)
      → parse_from (reading a b c d false false) (put_mod e (text "Alt") s)
        ≡ parse_from (reading a b c d e false) s
  unfolding parse_from strip_parens split_keys read_parts read_part
  read_alt a b c d true = refl
  read_alt a b c d false = refl

  read_meta :
      (a b c d e f : Bool)
      → parse_from (reading a b c d e false) (put_mod f (text "Meta") s)
        ≡ parse_from (reading a b c d e f) s
  unfolding parse_from strip_parens split_keys read_parts read_part
  read_meta a b c d e true = refl
  read_meta a b c d e false = refl

-- A description of modifiers and a plain key is read as just these.
pub parse_key_description-print :
    (m : Mods) (key : Text)
    → IsPlain key
    → parse_key_description (print_description m key)
      ≡ record { mods = m; key = key; key_type = some by_key }
unfolding parse_key_description
parse_key_description-print m key h =
    read_cmd _ m.cmd
    ∙ read_option _ m.cmd m.option
    ∙ read_shift _ m.cmd m.option m.shift
    ∙ read_ctrl _ m.cmd m.option m.shift m.ctrl
    ∙ read_alt _ m.cmd m.option m.shift m.ctrl m.alt
    ∙ read_meta _ m.cmd m.option m.shift m.ctrl m.alt m.meta
    ∙ parse_from-plain (reading m.cmd m.option m.shift m.ctrl m.alt m.meta) key h
