-- ===== src/Events/Files/Holders.antt =====
-- The count of a file subject against the calls that open and release it.
use native.Mathlib.Nat.{add-zero, sub-zero}
use testmerge.Base.{
  ℕ, ◌+◌, ◌-◌, ◌<◌, ◌≡◌, refl, sym, ap, ◌∙◌, inl, inr, String, true, false, Option, none, some,
  List, [], ◌∷◌, ◌==◌, ==_iff, ==_refl, str_eq, eq_iff, arith, Bool-cases, if◌then◌else◌,
}
use testmerge.Base.Int.{pos, ◌-ℤ◌}
use testmerge.Base.Maps
use testmerge.Base.Maps.{get-set, get-delete}
use testmerge.Events.Files.{
  FileSubject, FileSubjects, Objects, write, is_zero, count_up, count_down, referred, new_subject,
  made, open_at, subject_key, get_file_subject, released, release, FileEvent, handle_blockfile,
}
use testmerge.Events.Files.Tracked.{Reached, opened, let_go, event, reached-IsTracked, down_spent}
use testmerge.Events.Files.Objects.{IsTracked, same_object}

pub data FileStep : Type 0 where
  opens : String → String → FileStep
  lets_go : ℕ → FileStep
  gets : FileEvent → FileStep

abbrev pub step : FileSubjects → FileStep → FileSubjects
step s (opens zone_id file_name) = (get_file_subject s zone_id file_name).0
step s (lets_go i) = release s i
step s (gets ev) = (handle_blockfile s ev).0

abbrev pub run : FileSubjects → List FileStep → FileSubjects
run s [] = s
run s (t ∷ ts) = run (step s t) ts

abbrev key_of : FileStep → Option String
key_of (opens zone_id file_name) = some (subject_key zone_id file_name)
key_of (lets_go i) = none
key_of (gets ev) = some (subject_key ev.zone_id ev.file_name)

abbrev pub up : String → FileStep → ℕ
up k (opens zone_id file_name) = if str_eq (subject_key zone_id file_name) k then 1 else 0
up k (lets_go i) = 0
up k (gets ev) = if str_eq (subject_key ev.zone_id ev.file_name) k then 1 else 0

abbrev pub down : ℕ → FileStep → ℕ
down i (lets_go j) = if j == i then 1 else 0
down i _ = 0

-- How often the steps take the subject of the key, and how often they release the subject `i`.
abbrev pub ups : String → List FileStep → ℕ
ups k [] = 0
ups k (t ∷ ts) = up k t + ups k ts

abbrev pub downs : ℕ → List FileStep → ℕ
downs i [] = 0
downs i (t ∷ ts) = down i t + downs i ts

-- The map has the subject `i` under the key, with a count of `c`.
pub record Holds (k : String) (i c : ℕ) (s : FileSubjects) : Type 0 where
  pub mapped : Maps.get s.by_key k ≡ some i
  pub subject : s.objects i ≡ some (record { key = k; ref_count = pos c; completed = false })

write_other : (x : Objects) (j i : ℕ) (o : FileSubject) → (j == i) ≡ false → write x j o i ≡ x i
write_other x j i o ne = rw ne refl

module _ {k : String} {i c : ℕ} {s : FileSubjects} (h : Holds k i c s) where
  written_other :
      (j : ℕ) (o : FileSubject)
      → (j == i) ≡ false
      → Holds k i c (record s { objects = write s.objects j o })
  written_other j o ne = record {
    mapped = h.mapped;
    subject = write_other s.objects j i o ne ∙ h.subject;
  }

  -- Another subject is taken.
  referred_other :
      (j : ℕ) (x : Option FileSubject) → (j == i) ≡ false → Holds k i c (referred s j x)
  referred_other j none ne = h
  referred_other j (some o) ne = written_other j (count_up o) ne

  -- Taken once more.
  referred-Holds : Holds k i (c + 1) (referred s i (s.objects i))
  referred-Holds = rw h.subject (record { mapped = h.mapped; subject = rw (==_refl i) taken })
    where
      taken :
          some (count_up (record { key = k; ref_count = pos c; completed = false }))
          ≡ some (record { key = k; ref_count = pos (c + 1); completed = false })
      taken = ground arith

  -- Released by one of several holders.
  pub released-Holds : 1 < c → Holds k i (c - 1) (released s i (s.objects i))
  released-Holds lt =
      rw (h.subject, kept) (record { mapped = h.mapped; subject = rw (==_refl i) left })
    where
      kept : is_zero (pos c -ℤ pos 1) ≡ false
      kept = ground arith

      left :
          some (count_down (record { key = k; ref_count = pos c; completed = false }))
          ≡ some (record { key = k; ref_count = pos (c - 1); completed = false })
      left = ground arith

module _ {k : String} {i c : ℕ} {s : FileSubjects} (t : IsTracked s) (h : Holds k i c s) where
  other_subject :
      (key : String) (j : ℕ)
      → Maps.get s.by_key key ≡ some j
      → str_eq key k ≡ false
      → (j == i) ≡ false
  other_subject key j g ne = elim (Bool-cases (j == i)) [
    | inr f ↦ f
    | inl e ↦
        let (o, oe, ok, _) = t.mapped key j g in
        let o' = same_object (sym oe ∙ ap s.objects ((==_iff j i).0 e) ∙ h.subject) in
        absurd (ground (arith, eq_iff key k, sym ok ∙ ap (λ x. x.key) o'))
  ]

  is_older : (s.allocated == i) ≡ false
  is_older = let lt = (t.there i _ h.subject).0 in ground arith

  made-Holds : (key : String) → str_eq key k ≡ false → Holds k i c (made s key)
  made-Holds key ne = record {
    mapped = get-set s.by_key key s.allocated k ∙ rw ne h.mapped;
    subject = write_other s.objects s.allocated i (new_subject key) is_older ∙ h.subject;
  }

  open_at-other :
      (key : String) (x : Option ℕ)
      → Maps.get s.by_key key ≡ x
      → str_eq key k ≡ false
      → Holds k i c (open_at s key x).0
  open_at-other key (some j) e ne = referred_other h j (s.objects j) (other_subject key j e ne)
  open_at-other key none e ne =
      referred_other (made-Holds key ne) s.allocated ((made s key).objects s.allocated) is_older

  pub open_at-Holds :
      (key : String)
      → Holds k i (c + (if str_eq key k then 1 else 0)) (open_at s key (Maps.get s.by_key key)).0
  open_at-Holds key = elim (Bool-cases (str_eq key k)) [
    | inl b ↦
        let e : Maps.get s.by_key key ≡ some i =
          ap (Maps.get s.by_key) ((eq_iff key k).0 b) ∙ h.mapped in
        rw (e, b) (referred-Holds h)
    | inr b ↦ rw (b, add-zero c) (open_at-other key _ refl b)
  ]

  released_other :
      (j : ℕ) (x : Option FileSubject)
      → s.objects j ≡ x
      → (j == i) ≡ false
      → Holds k i c (released s j x)
  released_other j none e ne = h
  released_other j (some o) e ne = elim (Bool-cases (is_zero (count_down o).ref_count)) [
    | inr z ↦ rw z (written_other h j (count_down o) ne)
    | inl z ↦ elim (t.there j o e).1 [
      | inr d ↦ absurd (ground (arith, (down_spent o.ref_count d.1).0))
      | inl (g, _) ↦
          let q : str_eq o.key k ≡ false = elim (Bool-cases (str_eq o.key k)) [
            | inr f ↦ f
            | inl f ↦
                let g' : Maps.get s.by_key k ≡ some j = rw (← (eq_iff o.key k).0 f) g in
                absurd (ground (arith, h.mapped))
          ] in
          rw z (record {
            mapped = get-delete s.by_key o.key k ∙ rw q h.mapped;
            subject = write_other s.objects j i _ ne ∙ h.subject;
          })
    ]
  ]

  release_other : (j : ℕ) → (j == i) ≡ false → Holds k i c (release s j)
  unfolding release
  release_other j ne = released_other j (s.objects j) refl ne

step-Reached : {s : FileSubjects} (t : FileStep) → Reached s → Reached (step s t)
step-Reached (opens zone_id file_name) r = opened zone_id file_name r
step-Reached (lets_go i) r = let_go i r
step-Reached (gets ev) r = event ev r

holders : (i j c : ℕ) → (j == i) ≡ true → down i (lets_go j) < c → 1 < c
holders i j c e lt = rw e at lt

pub step-Holds :
    {k : String} {i c : ℕ} {s : FileSubjects} (t : FileStep)
    → Reached s
    → Holds k i c s
    → down i t < c
    → Holds k i (c + up k t - down i t) (step s t)
unfolding get_file_subject release handle_blockfile
step-Holds (opens zone_id file_name) r h lt =
    rw sub-zero (open_at-Holds (reached-IsTracked r) h (subject_key zone_id file_name))
step-Holds (gets ev) r h lt =
    rw sub-zero (open_at-Holds (reached-IsTracked r) h (subject_key ev.zone_id ev.file_name))
step-Holds {i} {c} {s} (lets_go j) r h lt = elim (Bool-cases (j == i)) [
  | inl e ↦ rw (e, add-zero c, (==_iff j i).0 e) (released-Holds h (holders i j c e lt))
  | inr e ↦
      rw (e, add-zero c, sub-zero) (released_other (reached-IsTracked r) h j (s.objects j) refl e)
]

-- At no step is the last of `c` users' references released.
abbrev pub StaysHeld : String → ℕ → ℕ → List FileStep → Type 0
StaysHeld k i c [] = Unit
StaysHeld k i c (t ∷ ts) = (down i t < c) × StaysHeld k i (c + up k t - down i t) ts

-- While some reference to a subject is left, the map keeps the subject, not completed, and its count
-- is what it was, with one more for each call that took it and one less for each release.
pub run-Holds :
    (k : String) (i c c' : ℕ) (s : FileSubjects) (ts : List FileStep)
    → Reached s
    → Holds k i c s
    → StaysHeld k i c ts
    → c' + downs i ts ≡ c + ups k ts
    → Holds k i c' (run s ts)
run-Holds k i c c' s [] r h u e = let q : c' ≡ c = omega arith in rw q h
run-Holds k i c c' s (t ∷ ts) r h (lt, u) e =
    run-Holds k i (c + up k t - down i t) c' (step s t) ts (step-Reached t r) (step-Holds t r h lt)
      u (omega arith)
