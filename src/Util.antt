-- ===== src/Util.antt =====
-- jsonDeepEqual of frontend/util/util.ts, on the values of Ijson. Two objects are never one object
-- here: the code's first test says the same of one object as the rest does. The decimal text of an
-- index is a parameter, `show`. Of an array's properties only its items and its length are modelled,
-- and a hole is an item `undefined`.
pub mod Keys
pub mod Same
pub mod Confusion
mod Tests
use testmerge.Base.{
  ℕ, zero, suc, ◌+◌, String, Bool, true, false, not, ◌&&◌, ◌||◌, str_eq, ◌==◌, if◌then◌else◌,
}
use testmerge.Ijson.{
  Json, undefined, null, boolean, number, text, array, object, Items, nil, cons, Fields, empty,
  field, get_field, item_count,
}

abbrev pub bool_eq : Bool → Bool → Bool
bool_eq true b = b
bool_eq false b = not b

-- Object.keys(v).length
abbrev pub field_count : Fields → ℕ
field_count empty = 0
field_count (field k v fs) = suc (field_count fs)

abbrev pub is_hole : Json → Bool
is_hole undefined = true
is_hole _ = false

abbrev pub own_count : Items → ℕ
own_count nil = 0
own_count (cons v vs) = if is_hole v then own_count vs else suc (own_count vs)

module _ (show : ℕ → String) where
  -- The items of an array as properties, from an index on.
  unfoldable pub index_fields : ℕ → Items → Fields
  index_fields i nil = empty
  index_fields i (cons v vs) =
      let rest = index_fields (suc i) vs in if is_hole v then rest else field (show i) v rest

  -- v[key] of an object or an array.
  abbrev pub array_prop : Items → String → Json
  array_prop vs k =
      if str_eq k "length" then number (item_count vs) else get_field (index_fields 0 vs) k

  unfoldable mutual
    unfolding get_field index_fields

    pub json_deep_equal : Json → Json → Bool
    json_deep_equal undefined undefined = true
    json_deep_equal null null = true
    json_deep_equal (boolean a) (boolean b) = bool_eq a b
    json_deep_equal (number a) (number b) = a == b
    json_deep_equal (text a) (text b) = str_eq a b
    json_deep_equal (array vs) (array ws) =
        let equal = items_equal vs ws in if item_count vs == item_count ws then equal else false
    json_deep_equal (array vs) (object gs) =
        let equal = indexed_equal 0 vs gs in if own_count vs == field_count gs then equal else false
    json_deep_equal (object fs) (object gs) =
        let equal = fields_equal fs gs in if field_count fs == field_count gs then equal else false
    json_deep_equal (object fs) (array ws) =
        let equal = props_equal fs ws in if field_count fs == own_count ws then equal else false
    json_deep_equal _ _ = false

    -- The loop over two arrays of one length.
    pub items_equal : Items → Items → Bool
    items_equal nil nil = true
    items_equal (cons v vs) (cons w ws) =
        let rest = items_equal vs ws in if json_deep_equal v w then rest else false
    items_equal _ _ = false

    -- The loop over the keys: of an object, against an object and an array; of an array, against an
    -- object.
    pub fields_equal : Fields → Fields → Bool
    fields_equal empty gs = true
    fields_equal (field k v fs) gs =
        let rest = fields_equal fs gs in if json_deep_equal v (get_field gs k) then rest else false

    pub props_equal : Fields → Items → Bool
    props_equal empty ws = true
    props_equal (field k v fs) ws =
        let rest = props_equal fs ws in if json_deep_equal v (array_prop ws k) then rest else false

    pub indexed_equal : ℕ → Items → Fields → Bool
    indexed_equal i nil gs = true
    indexed_equal i (cons v vs) gs =
        let rest = indexed_equal (suc i) vs gs in
        if is_hole v
        then rest
        else if json_deep_equal v (get_field gs (show i))
        then rest
        else false
