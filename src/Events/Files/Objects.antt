-- ===== src/Events/Files/Objects.antt =====
-- An object of the file subjects written anew, in the map or out of it.
use testmerge.Base.{
  ℕ, ◌<◌, ◌≡◌, refl, ap, sym, ◌∙◌, ◌⊎◌, inl, inr, String, true, false, some, ◌==◌, ==_iff, str_eq,
  eq_iff, arith, Bool-cases,
}
use testmerge.Base.Int.{pos_part}
use testmerge.Base.Maps
use testmerge.Base.Maps.{get-set, get-delete, map_laws}
use testmerge.Events.Files.{FileSubject, FileSubjects, write}

abbrev pub IsLive : FileSubject → Type 0
IsLive o = (o.completed ≡ false) × (0 < pos_part o.ref_count)

abbrev pub IsDone : FileSubject → Type 0
IsDone o = (o.completed ≡ true) × (pos_part o.ref_count ≡ 0)

-- What the map has is there under its key and in use, and what it has not is completed.
pub record IsTracked (s : FileSubjects) : Type 0 where
  pub mapped :
      (k : String) (i : ℕ)
      → Maps.get s.by_key k ≡ some i
      → (o : FileSubject) × (s.objects i ≡ some o) × (o.key ≡ k) × IsLive o
  pub there :
      (i : ℕ) (o : FileSubject)
      → s.objects i ≡ some o
      → (i < s.allocated) × (((Maps.get s.by_key o.key ≡ some i) × IsLive o) ⊎ IsDone o)

pub same_object : {o p : FileSubject} → some o ≡ some p → o ≡ p
same_object h = ground arith

module _ (s : FileSubjects) (i : ℕ) (o o' : FileSubject) (t : IsTracked s)
    (e : s.objects i ≡ some o) where
  mapped_object :
      (k : String) (j : ℕ) → Maps.get s.by_key k ≡ some j → i ≡ j → (o.key ≡ k) × IsLive o
  mapped_object k j h ij =
      let (p, pe, pk, l) = t.mapped k j h in
      let po : p ≡ o = same_object (sym pe ∙ ap s.objects (sym ij) ∙ e) in
      (rw (← po) pk, rw (← po) l)

  -- Another state of an object with that key.
  pub put-IsTracked :
      o'.key ≡ o.key
      → ((Maps.get s.by_key o.key ≡ some i) × IsLive o') ⊎ (IsDone o × IsDone o')
      → IsTracked (record s { objects = write s.objects i o' })
  put-IsTracked q fit = record { mapped = mapped; there = there }
    where
      mapped :
          (k : String) (j : ℕ)
          → Maps.get s.by_key k ≡ some j
          → (p : FileSubject) × (write s.objects i o' j ≡ some p) × (p.key ≡ k) × IsLive p
      mapped k j g = elim (Bool-cases (i == j)) [
        | inl ij ↦
            let (ok, l) = mapped_object k j g ((==_iff i j).0 ij) in
            elim fit [
              | inl (_, live) ↦ (o', rw ij refl, q ∙ ok, live)
              | inr (done, _) ↦ absurd (ground (arith, l.0, done.0))
            ]
        | inr ij ↦ let (p, pe, pk, l) = t.mapped k j g in (p, rw ij pe, pk, l)
      ]

      fit_there : (Maps.get s.by_key o'.key ≡ some i × IsLive o') ⊎ IsDone o'
      fit_there = elim fit [ inl (h, live) ↦ inl (rw q h, live) | inr (_, done) ↦ inr done ]

      there :
          (j : ℕ) (p : FileSubject)
          → write s.objects i o' j ≡ some p
          → (j < s.allocated) × (((Maps.get s.by_key p.key ≡ some j) × IsLive p) ⊎ IsDone p)
      there j p g = elim (Bool-cases (i == j)) [
        | inl ij ↦
            let po : o' ≡ p = ground arith in
            rw (← po, ← (==_iff i j).0 ij) ((t.there i o e).0, fit_there)
        | inr ij ↦ t.there j p (rw ij at g)
      ]

  other_key :
      (k : String) (j : ℕ)
      → Maps.get (Maps.delete s.by_key o.key) k ≡ some j
      → (str_eq o.key k ≡ false) × (Maps.get s.by_key k ≡ some j)
  other_key k j g = ground (arith, get-delete s.by_key o.key k)

  -- An object that the map has, completed and taken out of it.
  pub drop-IsTracked :
      Maps.get s.by_key o.key ≡ some i
      → IsDone o'
      → IsTracked (record s { objects = write s.objects i o'; by_key = Maps.delete s.by_key o.key })
  drop-IsTracked h done = record { mapped = mapped; there = there }
    where
      mapped :
          (k : String) (j : ℕ)
          → Maps.get (Maps.delete s.by_key o.key) k ≡ some j
          → (p : FileSubject) × (write s.objects i o' j ≡ some p) × (p.key ≡ k) × IsLive p
      mapped k j g =
          let (ok, g') = other_key k j g in
          elim (Bool-cases (i == j)) [
            | inl ij ↦
                let q = (mapped_object k j g' ((==_iff i j).0 ij)).0 in
                absurd (ground (arith, eq_iff o.key k))
            | inr ij ↦ let (p, pe, pk, l) = t.mapped k j g' in (p, rw ij pe, pk, l)
          ]

      kept :
          (j : ℕ) (p : FileSubject)
          → (i == j) ≡ false
          → Maps.get s.by_key p.key ≡ some j
          → Maps.get (Maps.delete s.by_key o.key) p.key ≡ some j
      kept j p ij g = elim (Bool-cases (str_eq o.key p.key)) [
        | inl ok ↦
            let q : o.key ≡ p.key = (eq_iff o.key p.key).0 ok in
            let g' : Maps.get s.by_key o.key ≡ some j = rw q g in absurd (ground arith)
        | inr ok ↦ ground (arith, get-delete s.by_key o.key p.key)
      ]

      there :
          (j : ℕ) (p : FileSubject)
          → write s.objects i o' j ≡ some p
          → (j < s.allocated)
            × (((Maps.get (Maps.delete s.by_key o.key) p.key ≡ some j) × IsLive p) ⊎ IsDone p)
      there j p g = elim (Bool-cases (i == j)) [
        | inl ij ↦
            let po : o' ≡ p = ground arith in
            rw (← po, ← (==_iff i j).0 ij) ((t.there i o e).0, inr done)
        | inr ij ↦
            let (lt, cases) = t.there j p (rw ij at g) in
            (lt, elim cases [ inl (g', l) ↦ inl (kept j p ij g', l) | inr d ↦ inr d ])
      ]
