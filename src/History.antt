-- ===== src/History.antt =====
-- frontend/util/historyutil.ts: going back and forth between the urls or files of a block. A text is
-- the list of its code units. The functions return an update of the block's meta: `none` where the
-- code returns null, and a key that is not in the update is `none` too.
pub mod Arrays
pub mod Paths
pub mod Moves
pub mod Bounds
mod Tests
pub use testmerge.Base.Texts.{Text, text_eq}
use testmerge.Base.{
  ℕ, zero, suc, Bool, true, false, ◌&&◌, Option, none, some, List, [], ◌∷◌, ◌++◌, length, ◌==◌, ltb,
  if◌then◌else◌,
}

abbrev pub slash : ℕ
slash = b'/'

abbrev pub max_history : ℕ
max_history = 20

-- Array.pop and Array.shift, what is left of the array.
unfoldable pub pop {ℓ} : {A : Type ℓ} → List A → List A
pop [] = []
pop (x ∷ []) = []
pop (x ∷ y ∷ ys) = x ∷ pop (y ∷ ys)

abbrev pub shift {ℓ} : {A : Type ℓ} → List A → List A
shift [] = []
shift (x ∷ xs) = xs

-- What Array.pop returns, of an array with the item in front.
unfoldable pub last_of {ℓ} : {A : Type ℓ} → A → List A → A
last_of x [] = x
last_of x (y ∷ ys) = last_of y ys

abbrev pub push_front : ℕ → List Text → List Text
push_front c [] = (c ∷ []) ∷ []
push_front c (w ∷ ws) = (c ∷ w) ∷ ws

-- path.split("/")
unfoldable pub split : Text → List Text
split [] = [] ∷ []
split (c ∷ s) = let rest = split s in if c == slash then [] ∷ rest else push_front c rest

-- splitPath.join("/")
unfoldable pub join : List Text → Text
join [] = []
join (w ∷ []) = w
join (w ∷ v ∷ ws) = w ++ slash ∷ join (v ∷ ws)

abbrev pub root_or : List Text → Text
root_or ([] ∷ []) = slash ∷ []
root_or ws = join ws

-- `isBlank(path) == null` is never true, so that test is left out.
unfoldable pub get_parent_directory : Text → Text
unfolding split join pop
get_parent_directory path =
    if text_eq path (slash ∷ []) then slash ∷ [] else root_or (pop (split path))

-- The meta keys "history" and "history:forward".
pub record HistoryMeta : Type 0 where
  pub history : Option (List Text)
  pub history_forward : Option (List Text)

pub record HistoryUpdate : Type 0 where
  pub value : Text
  pub history : Option (List Text)
  pub history_forward : Option (List Text)

-- `?? []`
abbrev pub or_none {ℓ} : {A : Type ℓ} → Option (List A) → List A
or_none none = []
or_none (some xs) = xs

-- The loop that pops while the array is too long, on fuel.
unfoldable pub trim : ℕ → List Text → List Text
unfolding pop
trim zero xs = xs
trim (suc fuel) xs =
    let shorter = trim fuel (pop xs) in if ltb max_history (length xs) then shorter else xs

abbrev pub drop_oldest : List Text → List Text
drop_oldest xs = if ltb max_history (length xs) then shift xs else xs

abbrev pub to_parent : Text → List Text → Text → Option HistoryUpdate
to_parent cur_val forward parent =
    if text_eq parent cur_val
    then none
    else some (record {
      value = parent;
      history = none;
      history_forward = some (trim (length (cur_val ∷ forward)) (cur_val ∷ forward));
    })

abbrev pub back_from : Text → List Text → List Text → Bool → Option HistoryUpdate
back_from cur_val [] forward back_to_parent =
    if back_to_parent then to_parent cur_val forward (get_parent_directory cur_val) else none
back_from cur_val (h ∷ history) forward back_to_parent = some (record {
  value = last_of h history;
  history = some (pop (h ∷ history));
  history_forward = some (cur_val ∷ forward);
})

unfoldable pub go_history_back : Text → HistoryMeta → Bool → Option HistoryUpdate
unfolding get_parent_directory trim last_of pop
go_history_back cur_val meta back_to_parent =
    back_from cur_val (or_none meta.history) (or_none meta.history_forward) back_to_parent

abbrev pub forward_from : Text → List Text → List Text → Option HistoryUpdate
forward_from cur_val history [] = none
forward_from cur_val history (f ∷ forward) = some (record {
  value = f;
  history = some (drop_oldest (history ++ cur_val ∷ []));
  history_forward = some forward;
})

unfoldable pub go_history_forward : Text → HistoryMeta → Option HistoryUpdate
go_history_forward cur_val meta =
    forward_from cur_val (or_none meta.history) (or_none meta.history_forward)

unfoldable pub go_history : Text → Text → HistoryMeta → HistoryUpdate
go_history cur_val new_val meta = record {
  value = new_val;
  history = some (drop_oldest (or_none meta.history ++ cur_val ∷ []));
  history_forward = some [];
}

-- The value of a block and the meta keys; an update replaces the keys that it has.
pub record HistoryState : Type 0 where
  pub value : Text
  pub meta : HistoryMeta

abbrev pub replaced {ℓ} : {A : Type ℓ} → Option A → Option A → Option A
replaced old none = old
replaced old (some new) = some new

abbrev pub merge_meta : HistoryMeta → HistoryUpdate → HistoryMeta
merge_meta meta update = record {
  history = replaced meta.history update.history;
  history_forward = replaced meta.history_forward update.history_forward;
}
