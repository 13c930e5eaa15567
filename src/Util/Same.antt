-- ===== src/Util/Same.antt =====
-- What jsonDeepEqual says of two JSON values where it says true.
use testmerge.Base.{
  ℕ, ◌≡◌, refl, arith, ◌||◌, String, Bool, true, false, str_eq, eq_iff, if◌then◌else◌, Bool-cases,
  inl, inr, ◌==◌,
}
use testmerge.Ijson.{
  Json, undefined, null, boolean, number, text, array, object, Items, nil, cons, Fields, empty,
  field, get_field,
}
use testmerge.Util.{field_count, bool_eq, json_deep_equal, items_equal, fields_equal}
use testmerge.Util.Keys.{
  has, IsUnique, IsJson, AllJson, FieldsJson, same_keys, get_field-absent, get_field-IsJson,
}

-- The same value up to the order of keys, or an array beside an object.
mutual
  pub data IsSame : Json → Json → Type 0 where
    undefineds : IsSame undefined undefined
    nulls : IsSame null null
    booleans : {a b : Bool} → a ≡ b → IsSame (boolean a) (boolean b)
    numbers : {a b : ℕ} → a ≡ b → IsSame (number a) (number b)
    texts : {a b : String} → a ≡ b → IsSame (text a) (text b)
    arrays : {vs ws : Items} → AreSame vs ws → IsSame (array vs) (array ws)
    objects :
        {fs gs : Fields}
        → ((k : String) → IsSame (get_field fs k) (get_field gs k))
        → IsSame (object fs) (object gs)
    array_beside_object : {vs : Items} {gs : Fields} → IsSame (array vs) (object gs)
    object_beside_array : {fs : Fields} {ws : Items} → IsSame (object fs) (array ws)

  pub data AreSame : Items → Items → Type 0 where
    none_left : AreSame nil nil
    one_more :
        {v w : Json} {vs ws : Items} → IsSame v w → AreSame vs ws → AreSame (cons v vs) (cons w ws)

bool_same : (a b : Bool) → bool_eq a b ≡ true → a ≡ b
bool_same true true h = refl
bool_same true false h = absurd (ground arith)
bool_same false true h = absurd (ground arith)
bool_same false false h = refl

-- What is undefined is the same as no JSON value.
not_undefined : (show : ℕ → String) (v : Json) → IsJson v → json_deep_equal show v undefined ≡ false
unfolding json_deep_equal
not_undefined show undefined i = elim i [ ]
not_undefined show v i = refl

-- A test of equal counts, and the loop behind it.
count_and : (m n : ℕ) (b : Bool) → (if m == n then b else false) ≡ true → (m ≡ n) × (b ≡ true)
count_and m n b h = ground arith

both_true : (a b : Bool) → (if a then b else false) ≡ true → (a ≡ true) × (b ≡ true)
both_true a b h = ground arith

or_else : (a b : Bool) → a || b ≡ true → a ≡ false → b ≡ true
or_else a b h e = ground arith

not_there : (a b : Bool) → a ≡ false → (b ≡ true → a ≡ true) → b ≡ false
not_there a true p f = absurd (ground (arith, f refl))
not_there a false p f = refl

module _ (show : ℕ → String) where
  mutual
    unfolding json_deep_equal

    same : (v w : Json) → IsJson v → IsJson w → json_deep_equal show v w ≡ true → IsSame v w
    same null null i j h = nulls
    same (boolean a) (boolean b) i j h = booleans (bool_same a b h)
    same (number a) (number b) i j h = numbers (ground arith)
    same (text a) (text b) i j h = texts ((eq_iff a b).0 h)
    same (array vs) (array ws) i j h =
        arrays (same_items vs ws i j (count_and _ _ (items_equal show vs ws) h).1)
    same (array vs) (object gs) i j h = array_beside_object
    same (object fs) (array ws) i j h = object_beside_array
    same (object fs) (object gs) (u, i) (w, j) h =
        let (e, q) = count_and (field_count fs) (field_count gs) (fields_equal show fs gs) h in
        let both = IsSame-fields fs gs u i j q in
        objects λ k. elim (Bool-cases (has fs k)) [
          | inl p ↦ (both k p).1
          | inr p ↦
              let absent : has gs k ≡ false =
                not_there (has fs k) (has gs k) p
                  (same_keys fs gs u w (λ l p. (both l p).0) (omega arith) k) in
              rw (get_field-absent fs k p, get_field-absent gs k absent) undefineds
        ]
    same v w i j h = absurd (ground arith)

    same_items :
        (vs ws : Items) → AllJson vs → AllJson ws → items_equal show vs ws ≡ true → AreSame vs ws
    same_items nil nil i j h = none_left
    same_items nil (cons w ws) i j h = absurd (ground arith)
    same_items (cons v vs) nil i j h = absurd (ground arith)
    same_items (cons v vs) (cons w ws) (i, is) (j, js) h =
        let (p, q) = both_true (json_deep_equal show v w) (items_equal show vs ws) h in
        one_more (same v w i j p) (same_items vs ws is js q)

    IsSame-fields :
        (fs gs : Fields)
        → IsUnique fs
        → FieldsJson fs
        → FieldsJson gs
        → fields_equal show fs gs ≡ true
        → (k : String) → has fs k ≡ true
        → (has gs k ≡ true) × IsSame (get_field fs k) (get_field gs k)
    IsSame-fields empty gs u i j h k p = absurd (ground arith)
    IsSame-fields (field l v fs) gs (a, u) (i, is) j h k p =
        let (first, rest) =
          both_true (json_deep_equal show v (get_field gs l)) (fields_equal show fs gs) h in
        elim (Bool-cases (str_eq l k)) [
          | inl e ↦
              let q : json_deep_equal show v (get_field gs k) ≡ true =
                rw (← (eq_iff l k).0 e) first in
              rw e (elim (Bool-cases (has gs k)) [
                | inl g ↦ (g, same v (get_field gs k) i (get_field-IsJson gs k j g) q)
                | inr g ↦
                    let z : json_deep_equal show v undefined ≡ true =
                      rw (get_field-absent gs k g) at q in
                    absurd (ground (arith, not_undefined show v i))
              ])
          | inr e ↦ rw e (IsSame-fields fs gs u is j rest k (or_else (str_eq l k) (has fs k) p e))
        ]

  -- Where jsonDeepEqual says that two JSON values are equal, they are the same up to the order of
  -- keys, at every depth, but for arrays that stand beside objects.
  pub json_deep_equal-IsSame :
      (v w : Json) → IsJson v → IsJson w → json_deep_equal show v w ≡ true → IsSame v w
  json_deep_equal-IsSame v w i j h = same v w i j h
