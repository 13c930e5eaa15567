-- ===== src/Wos/Store.antt =====
-- What the cache promises of its values, whatever it keeps besides: a store in which a reference is
-- missing, null, or an object.
use testmerge.Base.{ℕ, String, not, Option, none, some, List, [], ◌∷◌, str_eq, if◌then◌else◌}
use testmerge.Base.Maps
use testmerge.Wos.{
  WaveObj, WaveObjectValue, Cache, WaveObjUpdate, is_valid_wave_obj, is_newer, make_oref, pin,
  unpin, update_wave_object, set_object_value, get_object_value,
}

pub data Operation : Type 0 where
  updates : WaveObjUpdate → ℕ → ℕ → Operation
  sets : WaveObj → Operation
  gets : String → ℕ → ℕ → Operation
  pins : String → ℕ → ℕ → Operation
  unpins : String → Operation

unfoldable pub perform : Operation → Cache → Cache
unfolding update_wave_object set_object_value get_object_value pin unpin
perform (updates u promise now) cache = update_wave_object cache u promise now
perform (sets value) cache = set_object_value cache value
perform (gets oref promise now) cache = (get_object_value cache oref promise now).1
perform (pins oref promise now) cache = pin cache oref promise now
perform (unpins oref) cache = unpin cache oref

unfoldable pub perform_all : List Operation → Cache → Cache
unfolding perform
perform_all [] cache = cache
perform_all (o ∷ os) cache = perform_all os (perform o cache)

abbrev pub Store : Type 0
Store = String → Option (Option WaveObj)

abbrev pub current : Option (Option WaveObj) → Option WaveObj
current none = none
current (some value) = value

abbrev pub put : Store → String → Option WaveObj → Store
put s k value j = if str_eq k j then some value else s j

-- The value after an update: null after a delete, else the newer object, if the new one is valid.
abbrev pub change_value : Option WaveObj → WaveObjUpdate → Option WaveObj
change_value cur u =
    if u.is_delete
    then none
    else if not (is_valid_wave_obj u.obj)
    then cur
    else if is_newer cur u.obj
    then u.obj
    else cur

abbrev pub put_if : Store → String → Option WaveObj → Option (Option WaveObj) → Store
put_if s k value none = s
put_if s k value (some old) = put s k value

-- The operations on a store: pins do nothing but make a missing entry null.
abbrev pub store_step : Operation → Store → Store
store_step (updates u promise now) s =
    let oref = make_oref u.otype u.oid in put s oref (change_value (current (s oref)) u)
store_step (sets value) s =
    let oref = make_oref value.otype value.oid in put_if s oref (some value) (s oref)
store_step (gets oref promise now) s = put s oref (current (s oref))
store_step (pins oref promise now) s = put s oref (current (s oref))
store_step (unpins oref) s = s

abbrev pub store_run : List Operation → Store → Store
store_run [] s = s
store_run (o ∷ os) s = store_run os (store_step o s)

abbrev value_of : Option WaveObjectValue → Option (Option WaveObj)
value_of none = none
value_of (some wov) = some wov.data_item.value

-- The store that a cache stands for.
unfoldable pub store_of : Cache → Store
store_of cache oref = value_of (Maps.get cache oref)
