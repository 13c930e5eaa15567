-- ===== src/Keys/Letters.antt =====
-- Descriptions of a letter with the shift key.
use testmerge.Base.{
  ℕ, ◌+◌, ◌≡◌, refl, sym, ap, ◌∙◌, Bool, true, false, ◌&&◌, ◌||◌, none, some, [], ◌∷◌, ◌++◌, ltb,
  ◌==◌, if-true, if-false, arith,
}
use testmerge.Base.Texts.{Text, text, text_eq}
use testmerge.Keys.{
  KeyPressDecl, by_key, WaveKeyboardEvent, strip_parens, split_keys, match_code, is_upper, no_mods,
  plain_key, read_part, read_parts, parse_from, parse_key_description, mods_fit, key_fits,
  decl_fits, check_key_pressed,
}

abbrev lower : ℕ → ℕ
lower c = c + 32

and-false : (b : Bool) → (b && false) ≡ false
and-false true = refl
and-false false = refl

-- No name of a modifier has one code unit.
read_part-letter : (d : KeyPressDecl) (c : ℕ) → read_part d (c ∷ []) ≡ plain_key d (c ∷ [])
unfolding read_part text match_code
read_part-letter d c = simp and-false

abbrev is_letter : ℕ → Bool
is_letter c = ltb b':' c

parse_from-letter :
    (d : KeyPressDecl) (c : ℕ) → is_letter c ≡ true → parse_from d (c ∷ []) ≡ plain_key d (c ∷ [])
unfolding parse_from strip_parens split_keys read_parts
parse_from-letter d c h =
    ap (λ s. read_parts d (split_keys s))
      (if-false {b = c == b'(' || c == b')'} [] (c ∷ []) (ground arith))
    ∙ ap (read_parts d) (if-false {b = c == b':'} ([] ∷ [] ∷ []) ((c ∷ []) ∷ []) (ground arith))
    ∙ read_part-letter d c

abbrev shifted : Text → KeyPressDecl
shifted key = record { mods = record no_mods { shift = true }; key = key; key_type = some by_key }

abbrev no_key : Bool → KeyPressDecl
no_key b = record { mods = record no_mods { shift = b }; key = []; key_type = none }

upper-is_letter : (c : ℕ) → is_upper c ≡ true → is_letter c ≡ true
upper-is_letter c h = ground arith

parse_from-upper :
    (b : Bool) (c : ℕ) → is_upper c ≡ true → parse_from (no_key b) (c ∷ []) ≡ shifted (c ∷ [])
parse_from-upper b c h = parse_from-letter (no_key b) c (upper-is_letter c h) ∙ if-true _ _ h

parse_from-lower :
    (c : ℕ) → is_upper c ≡ true → parse_from (no_key true) (lower c ∷ []) ≡ shifted (lower c ∷ [])
parse_from-lower c h =
    parse_from-letter (no_key true) (lower c) (ground arith)
    ∙ if-false {b = is_upper (lower c)} _ _ (ground arith)
    ∙ if-false {b = lower c == b' '} _ _ (ground arith)

parse-shift : (s : Text) → parse_key_description (text "Shift:" ++ s) ≡ parse_from (no_key true) s
unfolding parse_key_description parse_from strip_parens split_keys read_parts read_part text
parse-shift s = refl

module _ (to_lower : Text → Text) where
  -- Whether an event fits a description that has been read.
  abbrev fits : WaveKeyboardEvent → KeyPressDecl → Bool
  fits ev d = mods_fit d.mods ev && decl_fits to_lower d d.key_type ev

  key_fits-fold :
      (a b : Text) (key : Text) (k : ℕ)
      → key ≡ k ∷ []
      → is_upper k ≡ true
      → to_lower a ≡ to_lower b
      → key_fits to_lower a key ≡ key_fits to_lower b key
  key_fits-fold a b key k on_key h e =
      ap (key_fits to_lower a) on_key
      ∙ if-true _ _ h
      ∙ ap (λ t. text_eq t (to_lower (k ∷ []))) e
      ∙ sym (if-true _ _ h)
      ∙ sym (ap (key_fits to_lower b) on_key)

  -- For an event of an upper case letter, the descriptions "E", "Shift:E" and "Shift:e" of a letter
  -- say the same; `to_lower` is to take the two cases of a letter to the same text.
  pub check-letter :
      (ev : WaveKeyboardEvent) (c k : ℕ)
      → to_lower (c ∷ []) ≡ to_lower (lower c ∷ [])
      → is_upper c ≡ true
      → ev.key ≡ k ∷ []
      → is_upper k ≡ true
      → (check_key_pressed to_lower ev (text "Shift:" ++ c ∷ [])
          ≡ check_key_pressed to_lower ev (c ∷ []))
        × (check_key_pressed to_lower ev (text "Shift:" ++ lower c ∷ [])
            ≡ check_key_pressed to_lower ev (c ∷ []))
  unfolding check_key_pressed parse_key_description
  check-letter ev c k fold upper on_key upper_key =
      let plain = ap (fits ev) (parse_from-upper false c upper) in
      (
        ap (fits ev) (parse-shift (c ∷ []) ∙ parse_from-upper true c upper) ∙ sym plain,
        ap (fits ev) (parse-shift (lower c ∷ []) ∙ parse_from-lower c upper)
            ∙ ap (λ b. mods_fit (shifted []).mods ev && b)
                (key_fits-fold (lower c ∷ []) (c ∷ []) ev.key k on_key upper_key (sym fold))
            ∙ sym plain,
      )
