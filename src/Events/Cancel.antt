-- ===== src/Events/Cancel.antt =====
-- Unsubscribing: what the server is told, and that it undoes subscribing.
use testmerge.Base.{
  String, ◌≡◌, ◌≢◌, refl, ap, ◌∙◌, false, Option, none, some, List, [], ◌∷◌, ◌++◌, All, str_eq,
  eq_iff, if◌then◌else◌, arith, Bool-cases, inl, inr,
}
use text.Mathlib.TextPositions.{eq_refl}
use testmerge.Base.Maps
use testmerge.Base.Maps.{get-set, get-delete}
use testmerge.Events.{
  Handler, SubjectContainer, Unsubscribe, Subjects, subjects_of, or_empty, add_to_set,
  add_container, remove_container, put_back, unsubscribe_loop, unsubscribed, wave_event_unsubscribe,
  subscribe_loop, wave_event_subscribe,
}
use testmerge.Events.Told.{
  Tells, IsSynced, IsTold-refl, IsTold-put_back, Tells-or_stop, Tells-step, IsSynced-told,
}

-- The container of each is there when its turn comes.
pub data AllThere : Subjects → List Unsubscribe → Type 0 where
  none_left : {m : Subjects} → AllThere m []
  and_there :
      {m : Subjects} {u : Unsubscribe} {rest : List Unsubscribe}
      {subjects left : List SubjectContainer}
      → Maps.get m u.event_type ≡ some subjects
      → remove_container u.id subjects ≡ some left
      → AllThere (put_back m u.event_type left) rest
      → AllThere m (u ∷ rest)

unsubscribe_loop-ends :
    {m : Subjects} {us : List Unsubscribe} (types : List String)
    → AllThere m us
    → (types' : List String) × ((unsubscribe_loop m us types).1 ≡ some types')
unfolding unsubscribe_loop
unsubscribe_loop-ends types none_left = (types, refl)
unsubscribe_loop-ends types (and_there {m} {u} {rest} {subjects} {left} e r hs) =
    let (types', eq) = unsubscribe_loop-ends (add_to_set u.event_type types) hs in
    (types', rw (e, r) eq)

unsubscribe_loop-Tells :
    (t : String) (us : List Unsubscribe) (m : Subjects) (types : List String)
    → Tells (λ ts. ts) t m types (unsubscribe_loop m us types)
unfolding unsubscribe_loop
unsubscribe_loop-Tells t [] m types = IsTold-refl t m types
unsubscribe_loop-Tells t (u ∷ rest) m types =
    Tells-or_stop (λ ts. ts) t (Maps.get m u.event_type) m types _
      λ subjects.
        Tells-or_stop (λ ts. ts) t (remove_container u.id subjects) m types _
          λ left.
            Tells-step (λ ts. ts) t m _ types _ _ (IsTold-put_back t u.event_type m types left)
              (unsubscribe_loop-Tells t rest (put_back m u.event_type left)
                (add_to_set u.event_type types))

unsubscribed_lem :
    (t : String) (m : Subjects) (r : Subjects × Option (List String)) (types : List String)
    → r.1 ≡ some types
    → Tells (λ ts. ts) t m [] r
    → IsSynced t m (unsubscribed r).0 (unsubscribed r).1
unsubscribed_lem t m (m', none) types e h = ground arith
unsubscribed_lem t m (m', some ts) types e h = IsSynced-told t m m' ts h

-- Unsubscribing containers that are there: the server is told of every event type of which
-- anything changed.
pub wave_event_unsubscribe-syncs :
    (m : Subjects) (us : List Unsubscribe) (t : String)
    → AllThere m us
    → IsSynced t m (wave_event_unsubscribe m us).0 (wave_event_unsubscribe m us).1
unfolding wave_event_unsubscribe
wave_event_unsubscribe-syncs m us t hs =
    let (types, ends) = unsubscribe_loop-ends [] hs in
    unsubscribed_lem t m (unsubscribe_loop m us []) types ends (unsubscribe_loop-Tells t us m [])

remove-last :
    (c : SubjectContainer) (cs : List SubjectContainer)
    → All (λ d. str_eq d.id c.id ≡ false) cs
    → remove_container c.id (cs ++ c ∷ []) ≡ some cs
unfolding remove_container
remove-last c [] h = rw (eq_refl c.id)
remove-last c (d ∷ cs) (free, rest) = rw (free, remove-last c cs rest)

-- The subjects after the call, a `return` in the loop or not.
unsubscribed-subjects : (r : Subjects × Option (List String)) → (unsubscribed r).0 ≡ r.0
unsubscribed-subjects (m, none) = refl
unsubscribed-subjects (m, some types) = refl

abbrev none_if_empty : List SubjectContainer → Option (List SubjectContainer)
none_if_empty [] = none
none_if_empty (c ∷ cs) = some (c ∷ cs)

get-put_back :
    (m : Subjects) (t k : String) (cs : List SubjectContainer)
    → Maps.get (put_back m t cs) k ≡ (if str_eq t k then none_if_empty cs else Maps.get m k)
get-put_back m t k [] = get-delete m t k
get-put_back m t k (c ∷ cs) = get-set m t (c ∷ cs) k

none_if_empty-or_empty :
    (o : Option (List SubjectContainer)) → o ≢ some [] → none_if_empty (or_empty o) ≡ o
none_if_empty-or_empty none full = refl
none_if_empty-or_empty (some []) full = absurd (full refl)
none_if_empty-or_empty (some (c ∷ cs)) full = refl

put_back-add :
    (m : Subjects) (t k : String) (c : SubjectContainer)
    → Maps.get m t ≢ some []
    → Maps.get (put_back (add_container m t c) t (subjects_of m t)) k ≡ Maps.get m k
put_back-add m t k c full =
    get-put_back (add_container m t c) t k (subjects_of m t) ∙ elim (Bool-cases (str_eq t k)) [
      | inl e ↦
          rw e (none_if_empty-or_empty (Maps.get m t) full ∙ ap (Maps.get m) ((eq_iff t k).0 e))
      | inr e ↦ rw (e, get-set m t (subjects_of m t ++ c ∷ []) k, e) refl
    ]

added :
    (m : Subjects) (t : String) (c : SubjectContainer)
    → Maps.get (add_container m t c) t ≡ some (subjects_of m t ++ c ∷ [])
added m t c = get-set m t _ t ∙ rw (eq_refl t)

-- Unsubscribing what was just subscribed, under an id that was not taken, puts back the containers
-- of every event type, an event type without containers being none at all.
pub subscribe-unsubscribe :
    (m : Subjects) (id : String) (t : String) (h : Handler) (scope : Option String) (k : String)
    → All (λ c. str_eq c.id id ≡ false) (subjects_of m t)
    → Maps.get m t ≢ some []
    → Maps.get
        (wave_event_unsubscribe
          (wave_event_subscribe m
            ((id, record { event_type = t; handler = some h; scope = scope }) ∷ [])).subjects
          (record { id = id; event_type = t } ∷ [])).0
        k
      ≡ Maps.get m k
unfolding wave_event_subscribe wave_event_unsubscribe subscribe_loop unsubscribe_loop
subscribe-unsubscribe m id t h scope k free full =
    let c : SubjectContainer = record { id = id; handler = h; scope = scope } in
    simp (added m t c, remove-last c (subjects_of m t) free) (put_back-add m t k c full)
