-- ===== src/Ijson/Roundtrip.antt =====
-- A value that was set at a path is read there.
use text.Mathlib.TextPositions.{eq_refl}
use testmerge.Base.{
  ℕ, zero, suc, String, ◌≡◌, refl, sym, ap, if◌then◌else◌, ◌∙◌, Bool, true, false, ◌&&◌, Option,
  none, some, List, [], ◌∷◌, ◌⊎◌, inl, inr, All, str_eq, Bool-cases,
}
use testmerge.Ijson.{
  Json, Items, Fields, PathPart, undefined, array, object, nil, cons, empty, field, key, index,
  bad_number, no_part, SetPathOpts, is_nullish, get_field, set_field, get_item, set_item, get_path,
  fields_at, items_at, set_key, set_index, write_field, write_item, set_path_internal, set_path,
  check_path,
}

pub get_field-set_field : (fs : Fields) (k : String) (v : Json) → get_field (set_field fs k v) k ≡ v
unfolding get_field set_field
get_field-set_field empty k v = rw (eq_refl k)
get_field-set_field (field j w fs) k v = elim (Bool-cases (str_eq j k)) [
  | inl e ↦ rw (e, e) refl
  | inr e ↦ rw (e, e) (get_field-set_field fs k v)
]

pub get_item-set_item : (vs : Items) (i : ℕ) (v : Json) → get_item (set_item vs i v) i ≡ v
unfolding get_item set_item
get_item-set_item nil zero v = refl
get_item-set_item nil (suc i) v = get_item-set_item nil i v
get_item-set_item (cons w vs) zero v = refl
get_item-set_item (cons w vs) (suc i) v = get_item-set_item vs i v

-- A string, or a number that can be an index.
abbrev pub IsPart : PathPart → Type 0
IsPart (key k) = Unit
IsPart (index i) = Unit
IsPart bad_number = ⊥
IsPart no_part = ⊥

abbrev pub setting : Bool → SetPathOpts
setting force = record { force = force; remove = false; combinefn = none }

-- Only a call without `force` may throw.
abbrev ReadsBack : Bool → List PathPart → Json → Option Json → Type 0
ReadsBack force path value none = force ≡ false
ReadsBack force path value (some obj) = get_path obj path ≡ some value

module _ (force : Bool) (rest : List PathPart) (value : Json) where
  write_field-reads :
      (fs : Fields) (k : String) (r : Option Json)
      → ReadsBack force rest value r
      → ReadsBack force (key k ∷ rest) value (write_field false fs k r)
  unfolding get_path
  write_field-reads fs k none h = h
  write_field-reads fs k (some v) h = ap (λ w. get_path w rest) (get_field-set_field fs k v) ∙ h

  write_item-reads :
      (vs : Items) (i : ℕ) (r : Option Json)
      → ReadsBack force rest value r
      → ReadsBack force (index i ∷ rest) value (write_item false vs i r)
  unfolding get_path
  write_item-reads vs i none h = h
  write_item-reads vs i (some v) h = ap (λ w. get_path w rest) (get_item-set_item vs i v) ∙ h

  set_key-scalar :
      (k : String) (inner : Json → Option Json) (f : Bool)
      → f ≡ force
      → ((old : Json) → ReadsBack force rest value (inner old))
      → ReadsBack force
          (key k ∷ rest)
          value
          (set_key (setting force) k rest inner (if f then some empty else none))
  set_key-scalar k inner true e h = write_field-reads empty k (inner (get_field empty k)) (h _)
  set_key-scalar k inner false e h = sym e

  set_key-reads :
      (k : String) (inner : Json → Option Json) (obj : Json)
      → ((old : Json) → ReadsBack force rest value (inner old))
      → ReadsBack force (key k ∷ rest) value (
          if is_nullish obj && false
          then some Json.null
          else set_key (setting force) k rest inner (fields_at force obj))
  set_key-reads k inner undefined h = write_field-reads empty k _ (h _)
  set_key-reads k inner Json.null h = write_field-reads empty k _ (h _)
  set_key-reads k inner (Json.boolean x) h = set_key-scalar k inner force refl h
  set_key-reads k inner (Json.number x) h = set_key-scalar k inner force refl h
  set_key-reads k inner (Json.text x) h = set_key-scalar k inner force refl h
  set_key-reads k inner (array x) h = set_key-scalar k inner force refl h
  set_key-reads k inner (object x) h = write_field-reads x k _ (h _)

  set_index-scalar :
      (i : ℕ) (inner : Json → Option Json) (f : Bool)
      → f ≡ force
      → ((old : Json) → ReadsBack force rest value (inner old))
      → ReadsBack force
          (index i ∷ rest)
          value
          (set_index (setting force) i rest inner (if f then some nil else none))
  set_index-scalar i inner true e h = write_item-reads nil i (inner (get_item nil i)) (h _)
  set_index-scalar i inner false e h = sym e

  set_index-reads :
      (i : ℕ) (inner : Json → Option Json) (obj : Json)
      → ((old : Json) → ReadsBack force rest value (inner old))
      → ReadsBack force (index i ∷ rest) value (
          if is_nullish obj && false
          then some Json.null
          else set_index (setting force) i rest inner (items_at force obj))
  set_index-reads i inner undefined h = write_item-reads nil i _ (h _)
  set_index-reads i inner Json.null h = write_item-reads nil i _ (h _)
  set_index-reads i inner (Json.boolean x) h = set_index-scalar i inner force refl h
  set_index-reads i inner (Json.number x) h = set_index-scalar i inner force refl h
  set_index-reads i inner (Json.text x) h = set_index-scalar i inner force refl h
  set_index-reads i inner (array x) h = write_item-reads x i _ (h _)
  set_index-reads i inner (object x) h = set_index-scalar i inner force refl h

pub check_path-ok : (path : List PathPart) → All IsPart path → check_path path ≡ true
check_path-ok [] h = refl
check_path-ok (key k ∷ rest) (h, hs) = check_path-ok rest hs
check_path-ok (index i ∷ rest) (h, hs) = check_path-ok rest hs
check_path-ok (bad_number ∷ rest) (h, hs) = check_path-ok rest hs
check_path-ok (no_part ∷ rest) (h, hs) = absurd h

internal-reads :
    (force : Bool) (path : List PathPart) (value : Json)
    → All IsPart path
    → (obj : Json) → ReadsBack force path value (set_path_internal (setting force) obj path value)
unfolding set_path_internal get_path
internal-reads force [] value h obj = refl
internal-reads force (key k ∷ rest) value (h, hs) obj =
    set_key-reads force rest value k _ obj (internal-reads force rest value hs)
internal-reads force (index i ∷ rest) value (h, hs) obj =
    set_index-reads force rest value i _ obj (internal-reads force rest value hs)
internal-reads force (bad_number ∷ rest) value (h, hs) obj = absurd h
internal-reads force (no_part ∷ rest) value (h, hs) obj = absurd h

-- Setting a value at a path of strings and indices either throws, which it does not with `force`,
-- or gives a value in which the path leads to the value that was set.
pub set_path-reads :
    (force : Bool) (obj : Json) (path : List PathPart) (value : Json)
    → All IsPart path
    → ((set_path obj path value (setting force) ≡ none) × (force ≡ false))
      ⊎ ((obj' : Json) × (set_path obj path value (setting force) ≡ some obj')
          × (get_path obj' path ≡ some value))
unfolding set_path
set_path-reads force obj path value h = rw (check_path-ok path h) (
    split_result (set_path_internal (setting force) obj path value)
      (internal-reads force path value h obj))
  where
    split_result :
        (r : Option Json)
        → ReadsBack force path value r
        → ((r ≡ none) × (force ≡ false))
          ⊎ ((obj' : Json) × (r ≡ some obj') × (get_path obj' path ≡ some value))
    split_result none e = inl (refl, e)
    split_result (some obj') e = inr (obj', refl, e)
