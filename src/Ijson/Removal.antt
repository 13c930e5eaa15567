-- ===== src/Ijson/Removal.antt =====
-- A path that was removed leads to no value.
use mathlib.Core.Path.{subst}
use testmerge.Base.{
  ℕ, zero, suc, ◌≤◌, String, ◌≡◌, refl, sym, ap, Bool, true, false, ◌&&◌, Option, none, some, List,
  [], ◌∷◌, ◌⊎◌, inl, inr, All, arith, str_eq, if-true, Bool-cases, if◌then◌else◌, leb, ◌==◌,
}
use testmerge.Ijson.{
  Json, Items, Fields, PathPart, undefined, array, object, nil, cons, empty, field, key, index,
  bad_number, no_part, SetPathOpts, is_nullish, get_field, delete_field, get_item, set_item,
  item_count, pop_item, remove_from_arr, unless_empty, get_path, fields_at, items_at, set_key,
  set_index, write_field, write_item, is_last, set_path_internal, set_path,
}
use testmerge.Ijson.Roundtrip.{get_field-set_field, get_item-set_item, IsPart, check_path-ok}

abbrev pub removing : Bool → SetPathOpts
removing force = record { force = force; remove = true; combinefn = none }

abbrev pub IsGone : List PathPart → Json → Type 0
IsGone path obj = (v : Json) × (get_path obj path ≡ some v) × (is_nullish v ≡ true)

abbrev IsGoneIn : Bool → List PathPart → Option Json → Type 0
IsGoneIn force path none = force ≡ false
IsGoneIn force path (some obj) = IsGone path obj

get_field-delete_field : (fs : Fields) (k : String) → get_field (delete_field fs k) k ≡ undefined
unfolding get_field delete_field
get_field-delete_field empty k = refl
get_field-delete_field (field j w fs) k = elim (Bool-cases (str_eq j k)) [
  | inl e ↦ rw e (get_field-delete_field fs k)
  | inr e ↦ rw (e, e) (get_field-delete_field fs k)
]

get_item-past : (vs : Items) (i : ℕ) → item_count vs ≤ i → get_item vs i ≡ undefined
unfolding get_item
get_item-past nil i h = refl
get_item-past (cons v vs) zero h = ground arith
get_item-past (cons v vs) (suc i) h = get_item-past vs i (omega arith)

item_count-pop_item :
    (v : Json) (vs : Items) → suc (item_count (pop_item (cons v vs))) ≡ item_count (cons v vs)
item_count-pop_item v nil = refl
item_count-pop_item v (cons w ws) = ap suc (item_count-pop_item w ws)

-- A value that is null or undefined has nothing at any path.
nullish-IsGone : (v : Json) (path : List PathPart) → is_nullish v ≡ true → IsGone path v
unfolding get_path
nullish-IsGone v [] h = (v, refl, h)
nullish-IsGone v (p ∷ ps) h = (Json.null, if-true _ _ h, refl)

module _ (rest : List PathPart) where
  unless_empty-IsGone :
      (fs : Fields) (k : String)
      → IsGone rest (get_field fs k)
      → IsGone (key k ∷ rest) (unless_empty fs)
  unfolding get_path
  unless_empty-IsGone empty k h = (Json.null, refl, refl)
  unless_empty-IsGone (field j v fs) k h = h

  delete-IsGone :
      (fs : Fields) (k : String) → IsGone (key k ∷ rest) (unless_empty (delete_field fs k))
  delete-IsGone fs k =
      unless_empty-IsGone (delete_field fs k) k
        (nullish-IsGone _ rest (ap is_nullish (get_field-delete_field fs k)))

  array-IsGone :
      (vs : Items) (i : ℕ) → IsGone rest (get_item vs i) → IsGone (index i ∷ rest) (array vs)
  unfolding get_path
  array-IsGone vs i h = h

  remove_from_arr-IsGone : (vs : Items) (i : ℕ) → IsGone (index i ∷ rest) (remove_from_arr vs i)
  unfolding remove_from_arr
  remove_from_arr-IsGone vs i = elim (Bool-cases (leb (item_count vs) i)) [
    | inl e ↦ rw e (past vs (ground arith))
    | inr e ↦ elim (Bool-cases (suc i == item_count vs)) [
      | inl p ↦ rw (e, p) (popped vs (ground arith))
      | inr p ↦
          rw (e, p)
            (array-IsGone (set_item vs i Json.null) i
              (nullish-IsGone _ rest (ap is_nullish (get_item-set_item vs i Json.null))))
    ]
  ]
    where
      past : (ws : Items) → item_count ws ≤ i → IsGone (index i ∷ rest) (array ws)
      past ws h = array-IsGone ws i (nullish-IsGone _ rest (ap is_nullish (get_item-past ws i h)))

      null_or :
          (b : Bool) (ws : Items)
          → item_count ws ≤ i
          → IsGone (index i ∷ rest) (if b then Json.null else array ws)
      null_or true ws h = nullish-IsGone Json.null (index i ∷ rest) refl
      null_or false ws h = past ws h

      popped :
          (ws : Items)
          → suc i ≡ item_count ws
          → IsGone (index i ∷ rest) (if i == 0 then Json.null else array (pop_item ws))
      popped nil h = ground arith
      popped (cons w ws) h = null_or (i == 0) _ (omega (arith, item_count-pop_item w ws))

module _ (force : Bool) (rest : List PathPart) (k : String) (inner : Json → Option Json)
    (h : (old : Json) → IsGoneIn force rest (inner old)) where
  set_key-gone :
      (fs : Fields) (b : Bool) (r : Option Json)
      → IsGoneIn force rest r
      → IsGoneIn force
          (key k ∷ rest)
          (if b then some (unless_empty (delete_field fs k)) else write_field true fs k r)
  unfolding get_path
  set_key-gone fs true r g = delete-IsGone rest fs k
  set_key-gone fs false none g = g
  set_key-gone fs false (some v) g = elim (Bool-cases (is_nullish v)) [
    | inl e ↦ rw e (delete-IsGone rest fs k)
    | inr e ↦ rw e (subst (IsGone rest) (sym (get_field-set_field fs k v)) g)
  ]

  set_key-scalar-gone :
      (f : Bool)
      → f ≡ force
      → IsGoneIn force
          (key k ∷ rest)
          (set_key (removing force) k rest inner (if f then some empty else none))
  set_key-scalar-gone true e = set_key-gone empty (is_last rest) (inner (get_field empty k)) (h _)
  set_key-scalar-gone false e = sym e

  set_key-all-gone :
      (obj : Json)
      → IsGoneIn force (key k ∷ rest) (
          if is_nullish obj && true
          then some Json.null
          else set_key (removing force) k rest inner (fields_at force obj))
  set_key-all-gone undefined = nullish-IsGone Json.null (key k ∷ rest) refl
  set_key-all-gone Json.null = nullish-IsGone Json.null (key k ∷ rest) refl
  set_key-all-gone (Json.boolean x) = set_key-scalar-gone force refl
  set_key-all-gone (Json.number x) = set_key-scalar-gone force refl
  set_key-all-gone (Json.text x) = set_key-scalar-gone force refl
  set_key-all-gone (array x) = set_key-scalar-gone force refl
  set_key-all-gone (object x) = set_key-gone x (is_last rest) _ (h _)

module _ (force : Bool) (rest : List PathPart) (i : ℕ) (inner : Json → Option Json)
    (h : (old : Json) → IsGoneIn force rest (inner old)) where
  set_index-gone :
      (fs : Items) (b : Bool) (r : Option Json)
      → IsGoneIn force rest r
      → IsGoneIn force
          (index i ∷ rest)
          (if b then some (remove_from_arr fs i) else write_item true fs i r)
  unfolding get_path
  set_index-gone fs true r g = remove_from_arr-IsGone rest fs i
  set_index-gone fs false none g = g
  set_index-gone fs false (some v) g = elim (Bool-cases (is_nullish v)) [
    | inl e ↦ rw e (remove_from_arr-IsGone rest fs i)
    | inr e ↦ rw e (subst (IsGone rest) (sym (get_item-set_item fs i v)) g)
  ]

  set_index-scalar-gone :
      (f : Bool)
      → f ≡ force
      → IsGoneIn force
          (index i ∷ rest)
          (set_index (removing force) i rest inner (if f then some nil else none))
  set_index-scalar-gone true e = set_index-gone nil (is_last rest) (inner (get_item nil i)) (h _)
  set_index-scalar-gone false e = sym e

  set_index-all-gone :
      (obj : Json)
      → IsGoneIn force (index i ∷ rest) (
          if is_nullish obj && true
          then some Json.null
          else set_index (removing force) i rest inner (items_at force obj))
  set_index-all-gone undefined = nullish-IsGone Json.null (index i ∷ rest) refl
  set_index-all-gone Json.null = nullish-IsGone Json.null (index i ∷ rest) refl
  set_index-all-gone (Json.boolean x) = set_index-scalar-gone force refl
  set_index-all-gone (Json.number x) = set_index-scalar-gone force refl
  set_index-all-gone (Json.text x) = set_index-scalar-gone force refl
  set_index-all-gone (array x) = set_index-gone x (is_last rest) _ (h _)
  set_index-all-gone (object x) = set_index-scalar-gone force refl

internal-IsGone :
    (force : Bool) (path : List PathPart) (value : Json)
    → All IsPart path
    → is_nullish value ≡ true
    → (obj : Json) → IsGoneIn force path (set_path_internal (removing force) obj path value)
unfolding set_path_internal
internal-IsGone force [] value h e obj = nullish-IsGone value [] e
internal-IsGone force (key k ∷ rest) value (h, hs) e obj =
    set_key-all-gone force rest k _ (internal-IsGone force rest value hs e) obj
internal-IsGone force (index i ∷ rest) value (h, hs) e obj =
    set_index-all-gone force rest i _ (internal-IsGone force rest value hs e) obj
internal-IsGone force (bad_number ∷ rest) value (h, hs) e obj = absurd h
internal-IsGone force (no_part ∷ rest) value (h, hs) e obj = absurd h

-- Removing a path of strings and indices either throws, which it does not with `force`, or gives a
-- value in which the path leads to null or undefined.
pub set_path-removes :
    (force : Bool) (obj : Json) (path : List PathPart) (value : Json)
    → All IsPart path
    → is_nullish value ≡ true
    → ((set_path obj path value (removing force) ≡ none) × (force ≡ false))
      ⊎ ((obj' : Json) × (set_path obj path value (removing force) ≡ some obj') × IsGone path obj')
unfolding set_path
set_path-removes force obj path value h e =
    rw (e, check_path-ok path h)
      (split_result (set_path_internal (removing force) obj path value)
        (internal-IsGone force path value h e obj))
  where
    split_result :
        (r : Option Json)
        → IsGoneIn force path r
        → ((r ≡ none) × (force ≡ false)) ⊎ ((obj' : Json) × (r ≡ some obj') × IsGone path obj')
    split_result none g = inl (refl, g)
    split_result (some obj') g = inr (obj', refl, g)
