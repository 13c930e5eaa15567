-- ===== src/Wos/Tests.antt =====
-- The theorems on the object cache at concrete updates.
use testmerge.Base.{ℕ, ◌≡◌, refl, false, none, some, List, [], ◌∷◌}
use testmerge.Base.Maps
use testmerge.Wos.{
  WaveObj, Cache, WaveObjUpdate, create_wave_value_object, make_oref, fetch_resolved, split_oref,
  pin, unpin, clean_wave_object_cache, get_object_value, set_object_value, update_wave_object,
  update_wave_objects, value_at,
}
use testmerge.Wos.Orders.{
  IsChange, IsFrom, version_of, max_version, objs_for, update_wave_objects-newest,
}
use testmerge.Wos.Store.{Operation, updates, sets, gets, pins, unpins, perform_all, store_of}
use testmerge.Wos.Fetches.{fetch_overwrites_update}

abbrev block : ℕ → WaveObj
block v = record { otype = "block"; oid = "b1"; version = v; content = v }

abbrev tab : WaveObj
tab = record { otype = "tab"; oid = "t1"; version = 9; content = 0 }

abbrev update_to : WaveObj → WaveObjUpdate
update_to obj = record { is_delete = false; otype = obj.otype; oid = obj.oid; obj = some obj }

abbrev fetching : Cache
fetching = ("block:b1", create_wave_value_object 1 1000) ∷ []

-- The versions 3, 5 and 4 of a block come in, and a tab.
abbrev versions : List (WaveObjUpdate × ℕ × ℕ)
versions =
    (update_to (block 3), 2, 1000)
    ∷ (update_to tab, 3, 1000)
    ∷ (update_to (block 5), 4, 1010)
    ∷ (update_to (block 4), 5, 1020)
    ∷ []

block3-IsChange : IsChange (update_to (block 3))
block3-IsChange = record { no_delete = refl; is_valid = refl }

block4-IsChange : IsChange (update_to (block 4))
block4-IsChange = record { no_delete = refl; is_valid = refl }

block5-IsChange : IsChange (update_to (block 5))
block5-IsChange = record { no_delete = refl; is_valid = refl }

tab-IsChange : IsChange (update_to tab)
tab-IsChange = record { no_delete = refl; is_valid = refl }

updated_to_5 : value_at (update_wave_objects fetching versions) "block:b1" ≡ some (block 5)
unfolding value_at update_wave_objects Maps.get Maps.set
updated_to_5 = refl

split : split_oref "block:b1" ≡ some ("block", "b1")
unfolding split_oref
split = refl

no_split : split_oref "block:b1:x" ≡ none
unfolding split_oref
no_split = refl

-- An entry that is pinned stays, one that is not goes after its time.
cleaned : clean_wave_object_cache fetching 7000 ≡ []
unfolding clean_wave_object_cache Maps.get Maps.set
cleaned = refl

pinned :
    clean_wave_object_cache (pin fetching "block:b1" 2 2000) 7000 ≡ pin fetching "block:b1" 2 2000
unfolding clean_wave_object_cache pin Maps.get Maps.set
pinned = refl

unpinned : unpin (pin fetching "block:b1" 2 2000) "block:b1" ≡ fetching
unfolding pin unpin Maps.get Maps.set
unpinned = refl

set_of : value_at (set_object_value fetching (block 2)) "block:b1" ≡ some (block 2)
unfolding value_at set_object_value Maps.get Maps.set
set_of = refl

unset : set_object_value fetching tab ≡ fetching
unfolding set_object_value Maps.get Maps.set
unset = refl

got : get_object_value [] "block:b1" 1 1000 ≡ (none, fetching)
unfolding get_object_value Maps.get Maps.set
got = refl

update_wave_objects-newest_example :
    (version_of (value_at (update_wave_objects fetching versions) "block:b1")
      ≡ max_version (version_of (value_at fetching "block:b1")) (objs_for "block:b1" versions))
    × IsFrom
        (value_at (update_wave_objects fetching versions) "block:b1")
        (value_at fetching "block:b1")
        (objs_for "block:b1" versions)
update_wave_objects-newest_example =
    update_wave_objects-newest versions fetching "block:b1"
      (block3-IsChange, (tab-IsChange, (block5-IsChange, (block4-IsChange, tt))))

fetch_overwrites_update_example :
    (value_at (update_wave_object fetching (update_to (block 5)) 2 1000) "block:b1"
      ≡ some (block 5))
    × (value_at
          (fetch_resolved
            (update_wave_object fetching (update_to (block 5)) 2 1000)
            "block:b1"
            1
            (some (block 4)))
          "block:b1"
        ≡ some (block 4))
unfolding make_oref split_oref Maps.get
fetch_overwrites_update_example =
    fetch_overwrites_update fetching (create_wave_value_object 1 1000) (update_to (block 5)) 1 2
      1000 (some (block 4)) refl refl block5-IsChange refl refl

abbrev operations : List Operation
operations =
    gets "tab:t1" 2 1000
    ∷ sets (block 2)
    ∷ updates (update_to (block 5)) 3 1000
    ∷ pins "block:b1" 4 1000
    ∷ updates (update_to (block 4)) 5 1000
    ∷ unpins "block:b1"
    ∷ []

performed : store_of (perform_all operations fetching) "block:b1" ≡ some (some (block 5))
unfolding store_of perform_all Maps.get Maps.set
performed = refl
