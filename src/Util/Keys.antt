-- ===== src/Util/Keys.antt =====
-- The keys of objects, and counting them.
use testmerge.Base.{
  suc, ◌≤◌, ◌≡◌, refl, sym, ap, ◌∙◌, arith, String, Bool, true, false, ◌||◌, str_eq, eq_iff,
  if◌then◌else◌, Bool-cases, inl, inr,
}
use testmerge.Ijson.{
  Json, undefined, array, object, Items, nil, cons, Fields, empty, field, get_field, delete_field,
}
use testmerge.Util.{field_count}

abbrev pub has : Fields → String → Bool
has empty k = false
has (field j v fs) k = str_eq j k || has fs k

-- No key is there twice.
abbrev pub IsUnique : Fields → Type 0
IsUnique empty = Unit
IsUnique (field k v fs) = (has fs k ≡ false) × IsUnique fs

-- A JSON value: no `undefined`, and no key twice.
abbrev mutual
  pub IsJson : Json → Type 0
  IsJson undefined = ⊥
  IsJson (array vs) = AllJson vs
  IsJson (object fs) = IsUnique fs × FieldsJson fs
  IsJson _ = Unit

  pub AllJson : Items → Type 0
  AllJson nil = Unit
  AllJson (cons v vs) = IsJson v × AllJson vs

  pub FieldsJson : Fields → Type 0
  FieldsJson empty = Unit
  FieldsJson (field k v fs) = IsJson v × FieldsJson fs

has-delete :
    (fs : Fields) (j k : String)
    → has (delete_field fs j) k ≡ (if str_eq j k then false else has fs k)
unfolding delete_field
has-delete empty j k = ground arith
has-delete (field i v fs) j k =
    ground (arith, eq_iff i j, eq_iff j k, eq_iff i k, has-delete fs j k)

delete-absent : (fs : Fields) (j : String) → has fs j ≡ false → delete_field fs j ≡ fs
unfolding delete_field
delete-absent empty j h = refl
delete-absent (field i v fs) j h = ground (arith, delete-absent fs j)

IsUnique-delete : (fs : Fields) (j : String) → IsUnique fs → IsUnique (delete_field fs j)
unfolding delete_field
IsUnique-delete empty j u = tt
IsUnique-delete (field i v fs) j (a, u) = elim (Bool-cases (str_eq i j)) [
  | inl e ↦ rw e (IsUnique-delete fs j u)
  | inr e ↦ rw e (ground (arith, has-delete fs j i), IsUnique-delete fs j u)
]

count-delete :
    (fs : Fields) (j : String)
    → IsUnique fs
    → has fs j ≡ true
    → suc (field_count (delete_field fs j)) ≡ field_count fs
unfolding delete_field
count-delete empty j u h = absurd (ground arith)
count-delete (field i v fs) j (a, u) h = elim (Bool-cases (str_eq i j)) [
  | inl e ↦
      let same : has fs j ≡ false = ap (has fs) (sym ((eq_iff i j).0 e)) ∙ a in
      rw e (ap (λ x. suc (field_count x)) (delete-absent fs j same))
  | inr e ↦ rw e (ap suc (count-delete fs j u (ground arith)))
]

-- Objects whose keys are all keys of another with no more of them have the same keys.
pub same_keys :
    (fs gs : Fields)
    → IsUnique fs
    → IsUnique gs
    → ((k : String) → has fs k ≡ true → has gs k ≡ true)
    → field_count gs ≤ field_count fs
    → (k : String) → has gs k ≡ true
    → has fs k ≡ true
same_keys empty empty u w s le k h = h
same_keys empty (field j v gs) u w s le k h = absurd (omega arith)
same_keys (field j v fs) gs (a, u) w s le k h = elim (Bool-cases (str_eq j k)) [
  | inl e ↦ rw e refl
  | inr e ↦ rw e (
      same_keys fs (delete_field gs j) u (IsUnique-delete gs j w) kept fewer k
        (ground (arith, has-delete gs j k)))
]
  where
    kept : (i : String) → has fs i ≡ true → has (delete_field gs j) i ≡ true
    kept i p = elim (Bool-cases (str_eq j i)) [
      | inl e ↦
          let q : has fs i ≡ false = ap (has fs) (sym ((eq_iff j i).0 e)) ∙ a in
          absurd (ground arith)
      | inr e ↦ ground (arith, has-delete gs j i, s i)
    ]

    fewer : field_count (delete_field gs j) ≤ field_count fs
    fewer = omega (arith, count-delete gs j w (s j (ground (arith, eq_iff j j))))

-- A key that is not there is read as `undefined`, and one that is there as a JSON value.
pub get_field-absent : (fs : Fields) (k : String) → has fs k ≡ false → get_field fs k ≡ undefined
unfolding get_field
get_field-absent empty k h = refl
get_field-absent (field j v fs) k h = ground (arith, get_field-absent fs k)

pub get_field-IsJson :
    (fs : Fields) (k : String) → FieldsJson fs → has fs k ≡ true → IsJson (get_field fs k)
unfolding get_field
get_field-IsJson empty k j h = absurd (ground arith)
get_field-IsJson (field i v fs) k (j, js) h = elim (Bool-cases (str_eq i k)) [
  | inl e ↦ rw e j
  | inr e ↦ rw e (get_field-IsJson fs k js (ground arith))
]
