-- ===== src/Wos/Fetches.antt =====
-- What the result of a fetch does to an entry that was updated in the meantime.
use text.Mathlib.TextPositions.{eq_refl}
use testmerge.Base.{
  ℕ, ◌≡◌, ap, ◌∙◌, String, true, not, Option, some, ==_refl, if-true, if-false, arith,
}
use testmerge.Base.Maps
use testmerge.Base.Maps.{get-set}
use testmerge.Wos.{
  WaveObj, WaveObjectValue, Cache, WaveObjUpdate, is_newer, updated_value, make_oref, split_oref,
  fits_oref, same_promise, resolve, resolved_in, fetch_resolved, value_in, update_wave_object,
  value_at,
}
use testmerge.Wos.Orders.{IsChange}

-- An update leaves the fetch of an entry pending.
updated-pending :
    (wov : WaveObjectValue) (u : WaveObjUpdate) (now : ℕ)
    → (updated_value wov u now).pending_promise ≡ wov.pending_promise
updated-pending wov u now = ground arith

get-update :
    (cache : Cache) (u : WaveObjUpdate) (promise now : ℕ) (wov : WaveObjectValue)
    → Maps.get cache (make_oref u.otype u.oid) ≡ some wov
    → Maps.get (update_wave_object cache u promise now) (make_oref u.otype u.oid)
      ≡ some (updated_value wov u now)
unfolding update_wave_object
get-update cache u promise now wov there =
    get-set cache (make_oref u.otype u.oid) _ (make_oref u.otype u.oid)
    ∙ simp (eq_refl (make_oref u.otype u.oid), there)

updated_value-change :
    (wov : WaveObjectValue) (u : WaveObjUpdate) (now : ℕ)
    → IsChange u
    → is_newer wov.data_item.value u.obj ≡ true
    → (updated_value wov u now).data_item.value ≡ u.obj
updated_value-change wov u now h newer = simp (h.no_delete, h.is_valid, newer)

get-fetch_resolved :
    (cache : Cache) (oref : String) (fetch : ℕ) (val : Option WaveObj) (wov : WaveObjectValue)
    → Maps.get cache oref ≡ some wov
    → wov.pending_promise ≡ some fetch
    → fits_oref (split_oref oref) val ≡ true
    → value_at (fetch_resolved cache oref fetch val) oref ≡ val
unfolding value_at fetch_resolved
get-fetch_resolved cache oref fetch val wov there pending fits =
    ap (λ o. value_in (Maps.get (resolved_in cache oref fetch val o) oref)) there
    ∙ ap (λ c. value_in (Maps.get c oref))
        (if-false _ _ (ap not (ap (λ p. same_promise p fetch) pending ∙ ==_refl fetch))
          ∙ if-true _ _ fits)
    ∙ ap value_in (get-set cache oref (resolve wov val) oref)
    ∙ ap value_in (if-true _ _ (eq_refl oref))

-- A fetch is pending and an update with a newer object comes in, which is then the value; when the
-- fetch ends, its result is the value, however old it is.
pub fetch_overwrites_update :
    (cache : Cache) (wov : WaveObjectValue) (u : WaveObjUpdate) (fetch promise now : ℕ)
    (val : Option WaveObj)
    → Maps.get cache (make_oref u.otype u.oid) ≡ some wov
    → wov.pending_promise ≡ some fetch
    → IsChange u
    → is_newer wov.data_item.value u.obj ≡ true
    → fits_oref (split_oref (make_oref u.otype u.oid)) val ≡ true
    → let oref = make_oref u.otype u.oid in
      let updated = update_wave_object cache u promise now in
      (value_at updated oref ≡ u.obj)
      × (value_at (fetch_resolved updated oref fetch val) oref ≡ val)
unfolding value_at
fetch_overwrites_update cache wov u fetch promise now val there pending h newer fits =
    let found = get-update cache u promise now wov there in
    (
      ap value_in found ∙ updated_value-change wov u now h newer,
      get-fetch_resolved (update_wave_object cache u promise now) (make_oref u.otype u.oid) fetch
          val (updated_value wov u now) found (updated-pending wov u now ∙ pending) fits,
    )
