-- ===== src/Util/Confusion.antt =====
-- jsonDeepEqual of a value and itself, and of an array and an object of its items.
use testmerge.Base.{
  ℕ, suc, ◌<◌, ◌≡◌, refl, sym, ap, ◌∙◌, arith, String, Bool, true, false, ==_refl, str_eq, eq_iff,
  Bool-cases, inl, inr,
}
use testmerge.Ijson.{
  Json, undefined, null, boolean, number, text, array, object, Items, nil, cons, Fields, empty,
  field, get_field, item_count,
}
use testmerge.Util.{
  field_count, own_count, is_hole, bool_eq, index_fields, json_deep_equal, items_equal,
  fields_equal, indexed_equal,
}
use testmerge.Util.Keys.{has, IsUnique, IsJson, AllJson, FieldsJson}

-- Every property of `fs` reads the same in `gs`.
abbrev ReadsIn : Fields → Fields → Type 0
ReadsIn fs gs = (k : String) → has fs k ≡ true → get_field gs k ≡ get_field fs k

head_reads :
    (k : String) (v : Json) (fs gs : Fields) → ReadsIn (field k v fs) gs → get_field gs k ≡ v
unfolding get_field
head_reads k v fs gs r = r k (ground (arith, eq_iff k k)) ∙ ground (arith, eq_iff k k)

tail_reads :
    (k : String) (v : Json) (fs gs : Fields)
    → has fs k ≡ false
    → ReadsIn (field k v fs) gs
    → ReadsIn fs gs
unfolding get_field
tail_reads k v fs gs a r j h = elim (Bool-cases (str_eq k j)) [
  | inl e ↦
      let q : has fs j ≡ false = ap (has fs) (sym ((eq_iff k j).0 e)) ∙ a in absurd (ground arith)
  | inr e ↦
      let p : get_field (field k v fs) j ≡ get_field fs j = rw e refl in r j (ground arith) ∙ p
]

bool_eq_refl : (b : Bool) → bool_eq b b ≡ true
bool_eq_refl true = refl
bool_eq_refl false = refl

module _ (show : ℕ → String) where
  mutual
    unfolding json_deep_equal

    json_deep_equal_refl : (v : Json) → IsJson v → json_deep_equal show v v ≡ true
    json_deep_equal_refl undefined j = elim j [ ]
    json_deep_equal_refl null j = refl
    json_deep_equal_refl (boolean b) j = bool_eq_refl b
    json_deep_equal_refl (number n) j = ==_refl n
    json_deep_equal_refl (text s) j = (eq_iff s s).1 refl
    json_deep_equal_refl (array vs) j = rw (==_refl (item_count vs)) (items_equal_refl vs j)
    json_deep_equal_refl (object fs) (u, j) =
        rw (==_refl (field_count fs)) (fields_equal-reads fs fs u j (λ k h. refl))

    items_equal_refl : (vs : Items) → AllJson vs → items_equal show vs vs ≡ true
    items_equal_refl nil j = refl
    items_equal_refl (cons v vs) (j, js) = rw (json_deep_equal_refl v j) (items_equal_refl vs js)

    fields_equal-reads :
        (fs gs : Fields)
        → IsUnique fs
        → FieldsJson fs
        → ReadsIn fs gs
        → fields_equal show fs gs ≡ true
    fields_equal-reads empty gs u j r = refl
    fields_equal-reads (field k v fs) gs (a, u) (j, js) r =
        rw (head_reads k v fs gs r, json_deep_equal_refl v j)
          (fields_equal-reads fs gs u js (tail_reads k v fs gs a r))

  -- An item that is JSON is no hole.
  not_hole : (v : Json) → IsJson v → is_hole v ≡ false
  not_hole undefined j = elim j [ ]
  not_hole v j = refl

  index_fields-cons :
      (i : ℕ) (v : Json) (vs : Items)
      → IsJson v
      → index_fields show i (cons v vs) ≡ field (show i) v (index_fields show (suc i) vs)
  unfolding index_fields
  index_fields-cons i v vs j = rw (not_hole v j) refl

  field_count-index_fields :
      (i : ℕ) (vs : Items) → own_count vs ≡ field_count (index_fields show i vs)
  unfolding index_fields
  field_count-index_fields i nil = refl
  field_count-index_fields i (cons v vs) = elim (Bool-cases (is_hole v)) [
    | inl e ↦ rw e (field_count-index_fields (suc i) vs)
    | inr e ↦ rw e (ap suc (field_count-index_fields (suc i) vs))
  ]

  module _ (injective : (m n : ℕ) → show m ≡ show n → m ≡ n) where
    other_text : (i k : ℕ) → k < i → str_eq (show i) (show k) ≡ false
    other_text i k h = elim (Bool-cases (str_eq (show i) (show k))) [
      | inl e ↦ absurd (omega (arith, injective i k ((eq_iff (show i) (show k)).0 e)))
      | inr e ↦ e
    ]

    index_fields-absent :
        (vs : Items) (k i : ℕ) → k < i → has (index_fields show i vs) (show k) ≡ false
    unfolding index_fields
    index_fields-absent nil k i h = refl
    index_fields-absent (cons v vs) k i h = elim (Bool-cases (is_hole v)) [
      | inl e ↦ rw e (index_fields-absent vs k (suc i) (omega arith))
      | inr e ↦ rw (e, other_text i k h, index_fields-absent vs k (suc i) (omega arith)) refl
    ]

    indexed_equal-reads :
        (vs : Items) (i : ℕ) (gs : Fields)
        → AllJson vs
        → ReadsIn (index_fields show i vs) gs
        → indexed_equal show i vs gs ≡ true
    unfolding json_deep_equal
    indexed_equal-reads nil i gs j r = refl
    indexed_equal-reads (cons v vs) i gs (j, js) r =
        let r' : ReadsIn (field (show i) v (index_fields show (suc i) vs)) gs =
          rw (index_fields-cons i v vs j) at r in
        let a = index_fields-absent vs i (suc i) (omega arith) in
        rw (not_hole v j, head_reads (show i) v _ gs r', json_deep_equal_refl v j)
          (indexed_equal-reads vs (suc i) gs js (tail_reads (show i) v _ gs a r'))

    -- Where different indices have different texts, jsonDeepEqual says of an array of JSON values that
    -- it equals itself, but also that it equals the object that has its items under the texts of their
    -- indices.
    pub json_deep_equal-confuses :
        (vs : Items)
        → AllJson vs
        → (json_deep_equal show (array vs) (array vs) ≡ true)
          × (json_deep_equal show (array vs) (object (index_fields show 0 vs)) ≡ true)
    unfolding json_deep_equal
    json_deep_equal-confuses vs j = (
      json_deep_equal_refl (array vs) j,
      rw (← field_count-index_fields 0 vs, ==_refl (own_count vs))
          (indexed_equal-reads vs 0 (index_fields show 0 vs) j (λ k h. refl)),
    )
