-- ===== src/Ijson.antt =====
-- frontend/util/ijson.ts: reading and writing a JSON value at a path. An object has own keys only.
-- The code changes a value in place, and it throws before its first write: `none` is a throw, which
-- leaves the value as it was. Numbers inside a value are not calculated with.
pub mod Roundtrip
pub mod Removal
mod Tests
use testmerge.Base.{
  ℕ, zero, suc, String, Bool, true, false, ◌&&◌, ◌||◌, not, Option, none, some, List, [], ◌∷◌,
  str_eq, ◌==◌, leb, if◌then◌else◌,
}

-- An array has `undefined` at its holes.
mutual
  pub data Json : Type 0 where
    undefined : Json
    null : Json
    boolean : Bool → Json
    number : ℕ → Json
    text : String → Json
    array : Items → Json
    object : Fields → Json

  pub data Items : Type 0 where
    nil : Items
    cons : Json → Items → Items

  pub data Fields : Type 0 where
    empty : Fields
    field : String → Json → Fields → Fields

-- A part of a path: a string, a number that can be an index, another number, or anything else.
pub data PathPart : Type 0 where
  key : String → PathPart
  index : ℕ → PathPart
  bad_number : PathPart
  no_part : PathPart

-- The `combinefn` is given the old value, the new value and `force`; `none` is a throw.
pub record SetPathOpts : Type 0 where
  pub force : Bool
  pub remove : Bool
  pub combinefn : Option (Json → Json → Bool → Option Json)

abbrev pub is_nullish : Json → Bool
is_nullish undefined = true
is_nullish null = true
is_nullish _ = false

-- obj[key], obj[key] = value and delete obj[key] of an object.
unfoldable pub get_field : Fields → String → Json
get_field empty k = undefined
get_field (field j v fs) k = if str_eq j k then v else get_field fs k

unfoldable pub set_field : Fields → String → Json → Fields
set_field empty k v = field k v empty
set_field (field j w fs) k v = if str_eq j k then field j v fs else field j w (set_field fs k v)

unfoldable pub delete_field : Fields → String → Fields
delete_field empty k = empty
delete_field (field j w fs) k =
    let rest = delete_field fs k in if str_eq j k then rest else field j w rest

-- The same of an array; a write behind the end leaves holes.
abbrev pub item_count : Items → ℕ
item_count nil = 0
item_count (cons v vs) = suc (item_count vs)

unfoldable pub get_item : Items → ℕ → Json
get_item nil i = undefined
get_item (cons v vs) zero = v
get_item (cons v vs) (suc i) = get_item vs i

unfoldable pub set_item : Items → ℕ → Json → Items
set_item nil zero v = cons v nil
set_item nil (suc i) v = cons undefined (set_item nil i v)
set_item (cons w vs) zero v = cons v vs
set_item (cons w vs) (suc i) v = cons w (set_item vs i v)

unfoldable pub push_item : Items → Json → Items
push_item nil v = cons v nil
push_item (cons w vs) v = cons w (push_item vs v)

-- The value at a part goes to the rest of the loop, null to the caller.
abbrev pub step_to : PathPart → Json → (Json → Option Json) → Option Json
step_to (key k) (object fs) next = next (get_field fs k)
step_to (key k) _ next = some null
step_to (index i) (array vs) next = next (get_item vs i)
step_to (index i) _ next = some null
step_to bad_number (array vs) next = next undefined
step_to bad_number _ next = some null
step_to no_part _ next = none

-- The loop over the parts returns null at a value that has no parts.
unfoldable pub get_path : Json → List PathPart → Option Json
unfolding get_field get_item
get_path cur [] = some cur
get_path cur (part ∷ rest) =
    if is_nullish cur then some null else step_to part cur (λ cur'. get_path cur' rest)

unfoldable pub combine_array_append : Json → Json → Bool → Option Json
unfolding push_item
combine_array_append undefined new_val force = some (array (cons new_val nil))
combine_array_append null new_val force = some (array (cons new_val nil))
combine_array_append (array vs) new_val force = some (array (push_item vs new_val))
combine_array_append _ new_val force = if force then some (array (cons new_val nil)) else none

abbrev pub unless_empty : Fields → Json
unless_empty empty = null
unless_empty (field k v fs) = object (field k v fs)

abbrev pub pop_item : Items → Items
pop_item nil = nil
pop_item (cons v nil) = nil
pop_item (cons v (cons w vs)) = cons v (pop_item (cons w vs))

unfoldable pub remove_from_arr : Items → ℕ → Json
unfolding set_item
remove_from_arr vs i =
    if leb (item_count vs) i
    then array vs
    else if suc i == item_count vs
    then if i == 0 then null else array (pop_item vs)
    else array (set_item vs i null)

-- The object or the array that is written to; what is none is replaced by an empty one only with
-- `force`.
abbrev pub fields_at : Bool → Json → Option Fields
fields_at force undefined = some empty
fields_at force null = some empty
fields_at force (object fs) = some fs
fields_at force _ = if force then some empty else none

abbrev pub items_at : Bool → Json → Option Items
items_at force undefined = some nil
items_at force null = some nil
items_at force (array vs) = some vs
items_at force _ = if force then some nil else none

abbrev combine_with : Option (Json → Json → Bool → Option Json) → Bool → Json → Json → Option Json
combine_with none force obj value = some value
combine_with (some combine) force obj value = combine obj value force

abbrev pub write_field : Bool → Fields → String → Option Json → Option Json
write_field remove fs k none = none
write_field remove fs k (some v) =
    some (
      if remove && is_nullish v
      then unless_empty (delete_field fs k)
      else object (set_field fs k v))

abbrev pub write_item : Bool → Items → ℕ → Option Json → Option Json
write_item remove vs i none = none
write_item remove vs i (some v) =
    some (if remove && is_nullish v then remove_from_arr vs i else array (set_item vs i v))

abbrev pub is_last : List PathPart → Bool
is_last [] = true
is_last (p ∷ ps) = false

abbrev pub set_key :
    SetPathOpts → String → List PathPart → (Json → Option Json) → Option Fields → Option Json
set_key opts k rest inner none = none
set_key opts k rest inner (some fs) =
    if opts.remove && is_last rest
    then some (unless_empty (delete_field fs k))
    else write_field opts.remove fs k (inner (get_field fs k))

abbrev pub set_index :
    SetPathOpts → ℕ → List PathPart → (Json → Option Json) → Option Items → Option Json
set_index opts i rest inner none = none
set_index opts i rest inner (some vs) =
    if opts.remove && is_last rest
    then some (remove_from_arr vs i)
    else write_item opts.remove vs i (inner (get_item vs i))

unfoldable pub set_path_internal : SetPathOpts → Json → List PathPart → Json → Option Json
unfolding get_field get_item set_field set_item delete_field remove_from_arr
set_path_internal opts obj [] value = combine_with opts.combinefn opts.force obj value
set_path_internal opts obj (key k ∷ rest) value =
    let inner : Json → Option Json = λ old. set_path_internal opts old rest value in
    if is_nullish obj && opts.remove
    then some null
    else set_key opts k rest inner (fields_at opts.force obj)
set_path_internal opts obj (index i ∷ rest) value =
    let inner : Json → Option Json = λ old. set_path_internal opts old rest value in
    if is_nullish obj && opts.remove
    then some null
    else set_index opts i rest inner (items_at opts.force obj)
set_path_internal opts obj (bad_number ∷ rest) value = none
set_path_internal opts obj (no_part ∷ rest) value = none

abbrev pub check_path : List PathPart → Bool
check_path [] = true
check_path (no_part ∷ rest) = false
check_path (_ ∷ rest) = check_path rest

unfoldable pub set_path : Json → List PathPart → Json → SetPathOpts → Option Json
unfolding set_path_internal
set_path obj path value opts =
    if opts.remove && not (is_nullish value)
    then none
    else if not (check_path path)
    then none
    else set_path_internal opts obj path value

pub data CommandType : Type 0 where
  set_command : CommandType
  del_command : CommandType
  append_command : CommandType
  other_command : CommandType

-- A command that is an object with a type; `path` is the empty path where the command has none.
pub record Command : Type 0 where
  pub command_type : CommandType
  pub path : List PathPart
  pub value : Json

abbrev no_opts : SetPathOpts
no_opts = record { force = false; remove = false; combinefn = none }

abbrev run : CommandType → Json → List PathPart → Json → Option Json
run set_command data' path value = set_path data' path value no_opts
run del_command data' path value = set_path data' path null (record no_opts { remove = true })
run append_command data' path value =
    set_path data' path value (record no_opts { combinefn = some combine_array_append })
run other_command data' path value = none

unfoldable pub apply_command : Json → Command → Option Json
unfolding set_path combine_array_append
apply_command data' command =
    if not (check_path command.path)
    then none
    else run command.command_type data' command.path command.value
