-- ===== src/Wos/Orders.antt =====
-- The version that a sequence of updates leaves, whatever their order.
use mathlib.Core.Path.{subst}
use mathlib.Core.List.{Memᴰ}
use mathlib.Core.List.Memᴰ.{head, tail}
use testmerge.Base.{
  ℕ, ◌≡◌, ◌⊎◌, refl, ap, ◌∙◌, String, Bool, true, false, Option, none, some, List, [], ◌∷◌, ◌++◌,
  ltb, str_eq, eq_iff, if◌then◌else◌, if-true, if-false, arith, All, Bool-cases, inl, inr,
}
use testmerge.Base.Maps
use testmerge.Base.Maps.{get-set}
use testmerge.Wos.{
  WaveObj, WaveObjectValue, Cache, WaveObjUpdate, is_valid_wave_obj, is_newer, updated_value,
  found_or_new, entry_or_new, make_oref, value_in, update_wave_object, update_wave_objects,
  value_at,
}

-- An update with a valid object.
pub record IsChange (u : WaveObjUpdate) : Type 0 where
  pub no_delete : u.is_delete ≡ false
  pub is_valid : is_valid_wave_obj u.obj ≡ true

abbrev pub version_of : Option WaveObj → ℕ
version_of none = 0
version_of (some obj) = obj.version

abbrev objs_if : Bool → Option WaveObj → List WaveObj
objs_if true (some obj) = obj ∷ []
objs_if _ _ = []

-- The objects of the updates for a reference.
abbrev pub objs_for : String → List (WaveObjUpdate × ℕ × ℕ) → List WaveObj
objs_for oref [] = []
objs_for oref ((u, promise, now) ∷ us) =
    objs_if (str_eq (make_oref u.otype u.oid) oref) u.obj ++ objs_for oref us

abbrev max : ℕ → ℕ → ℕ
max a b = if ltb a b then b else a

abbrev pub max_version : ℕ → List WaveObj → ℕ
max_version v [] = v
max_version v (obj ∷ objs) = max_version (max v obj.version) objs

-- The newer one of the value and an update's.
abbrev newer : Option WaveObj → Option WaveObj → Option WaveObj
newer cur obj = if is_newer cur obj then obj else cur

value_in-found :
    (o : Option WaveObjectValue) (promise now : ℕ)
    → (found_or_new o promise now).data_item.value ≡ value_in o
value_in-found none promise now = refl
value_in-found (some wov) promise now = refl

updated_value-newer :
    (wov : WaveObjectValue) (u : WaveObjUpdate) (now : ℕ)
    → IsChange u
    → (updated_value wov u now).data_item.value ≡ newer wov.data_item.value u.obj
updated_value-newer wov u now h = elim (Bool-cases (is_newer wov.data_item.value u.obj)) [
  | inl e ↦ simp (h.no_delete, h.is_valid, e)
  | inr e ↦ simp (h.no_delete, h.is_valid, e)
]

get-update :
    (cache : Cache) (u : WaveObjUpdate) (promise now : ℕ) (oref : String)
    → IsChange u
    → value_at (update_wave_object cache u promise now) oref ≡ (
        if str_eq (make_oref u.otype u.oid) oref
        then newer (value_at cache oref) u.obj
        else value_at cache oref)
unfolding value_at update_wave_object
get-update cache u promise now oref h =
    ap value_in (get-set cache (make_oref u.otype u.oid) _ oref)
    ∙ elim (Bool-cases (str_eq (make_oref u.otype u.oid) oref)) [
      | inl e ↦ simp e (
          updated_value-newer (entry_or_new cache (make_oref u.otype u.oid) promise now) u now h
          ∙ ap (λ v. newer v u.obj)
              (value_in-found (Maps.get cache (make_oref u.otype u.oid)) promise now
                ∙ ap (λ k. value_in (Maps.get cache k))
                    ((eq_iff (make_oref u.otype u.oid) oref).0 e)))
      | inr e ↦ simp e
    ]

-- Of a value and an object the newer one is one of them, and has the larger version.
newer-version :
    (cur : Option WaveObj) (obj : WaveObj)
    → version_of (newer cur (some obj)) ≡ max (version_of cur) obj.version
newer-version none obj = ground arith
newer-version (some cur) obj = ground arith

newer-either : (cur obj : Option WaveObj) → (newer cur obj ≡ cur) ⊎ (newer cur obj ≡ obj)
newer-either cur obj = elim (Bool-cases (is_newer cur obj)) [
  | inl e ↦ inr (if-true _ _ e)
  | inr e ↦ inl (if-false _ _ e)
]

-- A value is an old one or the object of an update.
abbrev pub IsFrom : Option WaveObj → Option WaveObj → List WaveObj → Type 0
IsFrom final cur objs = (final ≡ cur) ⊎ ((obj : WaveObj) × Memᴰ obj objs × (final ≡ some obj))

IsNewest : Option WaveObj → Option WaveObj → List WaveObj → Type 0
IsNewest final cur objs =
    (version_of final ≡ max_version (version_of cur) objs) × IsFrom final cur objs

IsNewest-step :
    (final cur : Option WaveObj) (b : Bool) (obj : Option WaveObj) (objs : List WaveObj)
    → is_valid_wave_obj obj ≡ true
    → IsNewest final (if b then newer cur obj else cur) objs
    → IsNewest final cur (objs_if b obj ++ objs)
unfolding IsNewest
IsNewest-step final cur b none objs v h = cc
IsNewest-step final cur false (some obj) objs v h = h
IsNewest-step final cur true (some obj) objs v (e, from) =
    (e ∙ ap (λ n. max_version n objs) (newer-version cur obj), of_either from)
  where
    of_either : IsFrom final (newer cur (some obj)) objs → IsFrom final cur (obj ∷ objs)
    of_either (inr (o, m, p)) = inr (o, tail m, p)
    of_either (inl p) = elim (newer-either cur (some obj)) [
      | inl q ↦ inl (p ∙ q)
      | inr q ↦ inr (obj, head refl, p ∙ q)
    ]

newest :
    (us : List (WaveObjUpdate × ℕ × ℕ)) (cache : Cache) (oref : String)
    → All (λ u. IsChange u.0) us
    → IsNewest
        (value_at (update_wave_objects cache us) oref)
        (value_at cache oref)
        (objs_for oref us)
unfolding update_wave_objects IsNewest
newest [] cache oref h = (refl, inl refl)
newest ((u, promise, now) ∷ us) cache oref (h, hs) =
    IsNewest-step (value_at (update_wave_objects (update_wave_object cache u promise now) us) oref)
      (value_at cache oref) (str_eq (make_oref u.otype u.oid) oref) u.obj (objs_for oref us)
      h.is_valid
      (subst
        (λ v.
          IsNewest (value_at (update_wave_objects (update_wave_object cache u promise now) us) oref)
            v (objs_for oref us))
        (get-update cache u promise now oref h)
        (newest us (update_wave_object cache u promise now) oref hs))

-- After updates with valid objects, in whatever order they come: the value of every reference has
-- the largest version of its old value and of the objects for that reference, and it is its old
-- value or one of those objects.
pub update_wave_objects-newest :
    (us : List (WaveObjUpdate × ℕ × ℕ)) (cache : Cache) (oref : String)
    → All (λ u. IsChange u.0) us
    → (version_of (value_at (update_wave_objects cache us) oref)
        ≡ max_version (version_of (value_at cache oref)) (objs_for oref us))
      × IsFrom
          (value_at (update_wave_objects cache us) oref)
          (value_at cache oref)
          (objs_for oref us)
unfolding IsNewest
update_wave_objects-newest us cache oref h = newest us cache oref h
