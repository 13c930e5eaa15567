-- ===== src/Wos.antt =====
-- frontend/app/store/wos.ts: the cache of the server's objects. The cache is a map from references
-- to entries; a fetch is a number, drawn by the call that starts it, and its result is a later call,
-- `fetch_resolved`. The null reference, for a blank type or id, stands as the empty text, which no
-- other reference is. Times are milliseconds. The atoms' subscribers are left out.
pub mod Orders
pub mod Fetches
pub mod Store
mod Tests
use Prim.Native.Char.{Char, code}
use Prim.Native.String
use Prim.Native.String.{◌++◌ as ◌+++◌}
use testmerge.Base.{
  ℕ, suc, ◌+◌, String, Bool, true, false, not, ◌||◌, ◌&&◌, Option, none, some, List, [], ◌∷◌, ltb,
  leb, ◌==◌, str_eq, if◌then◌else◌,
}
use testmerge.Base.Int.{ℤ, pos, negsuc, ◌+ℤ◌}
use testmerge.Base.Maps
use testmerge.Base.Maps.{Map}

-- What the code reads of an object; the rest of it is a number.
pub record WaveObj : Type 0 where
  pub otype : String
  pub oid : String
  pub version : ℕ
  pub content : ℕ

pub record DataItem : Type 0 where
  pub value : Option WaveObj
  pub loading : Bool

pub record WaveObjectValue : Type 0 where
  pub pending_promise : Option ℕ
  pub data_item : DataItem
  pub ref_count : ℤ
  pub hold_time : ℕ

abbrev pub Cache : Type 0
Cache = Map WaveObjectValue

abbrev is_blank : String → Bool
is_blank s = str_eq s ""

abbrev pub is_valid_wave_obj : Option WaveObj → Bool
is_valid_wave_obj none = false
is_valid_wave_obj (some val) = not (is_blank val.otype || is_blank val.oid || val.version == 0)

unfoldable pub make_oref : String → String → String
make_oref otype oid = if is_blank otype || is_blank oid then "" else otype +++ ":" +++ oid

abbrev push_front : Char → List String → List String
push_front c [] = []
push_front c (s ∷ ss) = String.◌∷◌ c s ∷ ss

-- oref.split(":")
split_colon : String → List String
split_colon String.[] = "" ∷ []
split_colon (String.◌∷◌ c s) =
    let rest = split_colon s in if code c == b':' then "" ∷ rest else push_front c rest

abbrev two_parts : List String → Option (String × String)
two_parts (a ∷ b ∷ []) = some (a, b)
two_parts _ = none

-- `none` is the error for an invalid reference.
unfoldable pub split_oref : String → Option (String × String)
unfolding split_colon
split_oref oref = two_parts (split_colon oref)

abbrev pub default_hold_time : ℕ
default_hold_time = 5000

-- createWaveValueObject with a fetch.
abbrev pub create_wave_value_object : ℕ → ℕ → WaveObjectValue
create_wave_value_object promise now = record {
  pending_promise = some promise;
  data_item = record { value = none; loading = true };
  ref_count = pos 0;
  hold_time = now + 5000;
}

-- The entry of a reference, with a new fetch where there is none. The call that makes it puts it
-- into the cache; the callers below write it back changed.
abbrev pub found_or_new : Option WaveObjectValue → ℕ → ℕ → WaveObjectValue
found_or_new none promise now = create_wave_value_object promise now
found_or_new (some wov) promise now = wov

abbrev pub entry_or_new : Cache → String → ℕ → ℕ → WaveObjectValue
entry_or_new cache oref promise now = found_or_new (Maps.get cache oref) promise now

abbrev pub same_promise : Option ℕ → ℕ → Bool
same_promise none promise = false
same_promise (some p) promise = p == promise

-- Whether the object that was fetched is of the reference; null is.
abbrev pub fits_oref : Option (String × String) → Option WaveObj → Bool
fits_oref none val = false
fits_oref (some (otype, oid)) none = true
fits_oref (some (otype, oid)) (some val) = str_eq val.otype otype && str_eq val.oid oid

abbrev pub resolve : WaveObjectValue → Option WaveObj → WaveObjectValue
resolve wov val = record wov {
  pending_promise = none;
  data_item = record { value = val; loading = false };
}

abbrev pub resolved_in : Cache → String → ℕ → Option WaveObj → Option WaveObjectValue → Cache
resolved_in cache oref promise val none = cache
resolved_in cache oref promise val (some wov) =
    if not (same_promise wov.pending_promise promise)
    then cache
    else if fits_oref (split_oref oref) val
    then Maps.set cache oref (resolve wov val)
    else cache

-- The `then` of the fetch. It throws at an object of another type or id, and changes nothing.
unfoldable pub fetch_resolved : Cache → String → ℕ → Option WaveObj → Cache
unfolding split_oref
fetch_resolved cache oref promise val = resolved_in cache oref promise val (Maps.get cache oref)

-- A change of the entry, by `refCount++` and `refCount--`, and the pin of loadAndPinWaveObject.
unfoldable pub pin : Cache → String → ℕ → ℕ → Cache
pin cache oref promise now =
    let wov = entry_or_new cache oref promise now in
    Maps.set cache oref (record wov { ref_count = wov.ref_count +ℤ pos 1 })

abbrev unpin_of : Cache → String → Option WaveObjectValue → Cache
unpin_of cache oref none = cache
unpin_of cache oref (some wov) =
    Maps.set cache oref (record wov { ref_count = wov.ref_count +ℤ negsuc 0 })

unfoldable pub unpin : Cache → String → Cache
unpin cache oref = unpin_of cache oref (Maps.get cache oref)

-- `is_delete` is `updatetype == "delete"`.
pub record WaveObjUpdate : Type 0 where
  pub is_delete : Bool
  pub otype : String
  pub oid : String
  pub obj : Option WaveObj

abbrev pub is_newer : Option WaveObj → Option WaveObj → Bool
is_newer none obj = true
is_newer (some cur) none = true
is_newer (some cur) (some obj) = not (leb obj.version cur.version)

abbrev pub hold : WaveObjectValue → Option WaveObj → ℕ → WaveObjectValue
hold wov value now = record wov {
  data_item = record { value = value; loading = false };
  hold_time = now + default_hold_time;
}

abbrev pub updated_value : WaveObjectValue → WaveObjUpdate → ℕ → WaveObjectValue
updated_value wov update now =
    if update.is_delete
    then hold wov none now
    else if not (is_valid_wave_obj update.obj)
    then wov
    else if is_newer wov.data_item.value update.obj
    then hold wov update.obj now
    else wov

-- An entry that is missing is made, with a fetch of its own.
unfoldable pub update_wave_object : Cache → WaveObjUpdate → ℕ → ℕ → Cache
unfolding make_oref
update_wave_object cache update promise now =
    let oref = make_oref update.otype update.oid in
    Maps.set cache oref (updated_value (entry_or_new cache oref promise now) update now)

-- The updates with the fetches and the times that their calls draw.
unfoldable pub update_wave_objects : Cache → List (WaveObjUpdate × ℕ × ℕ) → Cache
unfolding update_wave_object
update_wave_objects cache [] = cache
update_wave_objects cache ((update, promise, now) ∷ vals) =
    update_wave_objects (update_wave_object cache update promise now) vals

abbrev is_zero : ℤ → Bool
is_zero (pos n) = n == 0
is_zero (negsuc n) = false

abbrev is_unused : WaveObjectValue → ℕ → Bool
is_unused wov now = is_zero wov.ref_count && ltb wov.hold_time now

unfoldable pub clean_wave_object_cache : Cache → ℕ → Cache
clean_wave_object_cache [] now = []
clean_wave_object_cache ((oref, wov) ∷ cache) now =
    let rest = clean_wave_object_cache cache now in
    if is_unused wov now then rest else (oref, wov) ∷ rest

abbrev set_value_of : Cache → String → WaveObj → Option WaveObjectValue → Cache
set_value_of cache oref value none = cache
set_value_of cache oref value (some wov) =
    Maps.set cache oref (record wov { data_item = record { value = some value; loading = false } })

-- What is pushed to the server is left out.
unfoldable pub set_object_value : Cache → WaveObj → Cache
unfolding make_oref
set_object_value cache value =
    let oref = make_oref value.otype value.oid in
    set_value_of cache oref value (Maps.get cache oref)

abbrev pub value_in : Option WaveObjectValue → Option WaveObj
value_in none = none
value_in (some wov) = wov.data_item.value

-- The value of a reference; a missing one is null.
unfoldable pub value_at : Cache → String → Option WaveObj
value_at cache oref = value_in (Maps.get cache oref)

-- The value with the cache, where a missing entry is made, with a fetch.
unfoldable pub get_object_value : Cache → String → ℕ → ℕ → Option WaveObj × Cache
get_object_value cache oref promise now =
    let wov = entry_or_new cache oref promise now in (wov.data_item.value, Maps.set cache oref wov)
