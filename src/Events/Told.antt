-- ===== src/Events/Told.antt =====
-- The event types that the loops of subscribing and unsubscribing note are those that they change.
use mathlib.Core.List.{Memᴰ}
use mathlib.Core.List.Memᴰ.{head, tail}
use testmerge.Base.{
  String, ◌≡◌, refl, sym, ap, ◌∙◌, true, false, ◌||◌, Option, none, some, List, [], ◌∷◌, str_eq,
  eq_iff, arith, Bool-cases, inl, inr, ◌⊎◌,
}
use testmerge.Base.Maps
use testmerge.Base.Maps.{get-set, get-delete}
use testmerge.Events.{
  SubjectContainer, Subjects, Command, or_stop, includes, add_to_set, put_back,
  make_wave_resub_command, updates,
}

-- From subjects and noted types to later ones: a type stays noted, and one that is not noted has
-- the same containers.
pub record IsTold (t : String) (m : Subjects) (types : List String) (m' : Subjects)
    (types' : List String) : Type 0 where
  pub stays : includes types t ≡ true → includes types' t ≡ true
  pub noted : (includes types' t ≡ true) ⊎ (Maps.get m' t ≡ Maps.get m t)

pub IsTold-refl : (t : String) (m : Subjects) (types : List String) → IsTold t m types m types
IsTold-refl t m types = record { stays = λ h. h; noted = inr refl }

pub IsTold-trans :
    {t : String} {m m' m'' : Subjects} {types types' types'' : List String}
    → IsTold t m types m' types'
    → IsTold t m' types' m'' types''
    → IsTold t m types m'' types''
IsTold-trans h k = record {
  stays = λ p. k.stays (h.stays p);
  noted = elim k.noted [
    | inl e ↦ inl e
    | inr e ↦ elim h.noted [ inl p ↦ inl (k.stays p) | inr p ↦ inr (e ∙ p) ]
  ];
}

includes-add_to_set :
    (x : String) (types : List String) (t : String)
    → includes (add_to_set x types) t ≡ (str_eq x t || includes types t)
includes-add_to_set x [] t = ground arith
includes-add_to_set x (y ∷ ys) t =
    ground (arith, eq_iff y x, eq_iff x t, eq_iff y t, includes-add_to_set x ys t)

IsTold-add :
    (t x : String) (m m' : Subjects) (types : List String)
    → (str_eq x t ≡ false → Maps.get m' t ≡ Maps.get m t)
    → IsTold t m types m' (add_to_set x types)
IsTold-add t x m m' types same = record {
  stays = λ h. ground (arith, includes-add_to_set x types t);
  noted = elim (Bool-cases (str_eq x t)) [
    | inl e ↦ inl (ground (arith, includes-add_to_set x types t))
    | inr e ↦ inr (same e)
  ];
}

pub IsTold-set :
    (t x : String) (m : Subjects) (types : List String) (cs : List SubjectContainer)
    → IsTold t m types (Maps.set m x cs) (add_to_set x types)
IsTold-set t x m types cs = IsTold-add t x m _ types λ e. ground (arith, get-set m x cs t)

pub IsTold-put_back :
    (t x : String) (m : Subjects) (types : List String) (cs : List SubjectContainer)
    → IsTold t m types (put_back m x cs) (add_to_set x types)
IsTold-put_back t x m types [] = IsTold-add t x m _ types λ e. ground (arith, get-delete m x t)
IsTold-put_back t x m types (c ∷ cs) = IsTold-set t x m types (c ∷ cs)

-- The same of a loop that may return early; `types_of` finds the types in its result.
module _ {A : Type 0} (types_of : A → List String) (t : String) where
  abbrev pub Tells : Subjects → List String → Subjects × Option A → Type 0
  Tells m types (m', none) = Unit
  Tells m types (m', some a) = IsTold t m types m' (types_of a)

  pub Tells-or_stop {ℓ} :
      {B : Type ℓ} (o : Option B) (m : Subjects) (types : List String)
      (after : B → Subjects × Option A)
      → ((b : B) → Tells m types (after b))
      → Tells m types (or_stop o m after)
  Tells-or_stop none m types after h = tt
  Tells-or_stop (some b) m types after h = h b

  pub Tells-step :
      (m m' : Subjects) (types types' : List String) (r : Subjects × Option A)
      → IsTold t m types m' types'
      → Tells m' types' r
      → Tells m types r
  Tells-step m m' types types' (m'', none) h k = tt
  Tells-step m m' types types' (m'', some a) h k = IsTold-trans h k

-- The server was told of an event type, or nothing of it changed.
abbrev pub IsSynced : String → Subjects → Subjects → List Command → Type 0
IsSynced t m m' commands =
    Memᴰ (make_wave_resub_command m' t) commands ⊎ (Maps.get m' t ≡ Maps.get m t)

updates-includes :
    (m : Subjects) (types : List String) (t : String)
    → includes types t ≡ true
    → Memᴰ (make_wave_resub_command m t) (updates m types)
updates-includes m [] t h = ground arith
updates-includes m (x ∷ xs) t h = elim (Bool-cases (str_eq x t)) [
  | inl e ↦ head (ap (make_wave_resub_command m) (sym ((eq_iff x t).0 e)))
  | inr e ↦ tail (updates-includes m xs t (ground arith))
]

pub IsSynced-told :
    (t : String) (m m' : Subjects) (types : List String)
    → IsTold t m [] m' types
    → IsSynced t m m' (updates m' types)
IsSynced-told t m m' types h = elim h.noted [
  | inl e ↦ inl (updates-includes m' types t e)
  | inr e ↦ inr e
]
