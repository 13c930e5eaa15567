-- ===== src/Events/Files/Tracked.antt =====
-- The map of the file subjects against the objects, in every state that calls reach.
use testmerge.Base.{
  ℕ, suc, ◌<◌, ◌≡◌, refl, ◌⊎◌, inl, inr, String, true, false, Option, none, some, [], ◌==◌, ==_iff,
  ==_refl, str_eq, eq_iff, arith, Bool-cases,
}
use testmerge.Base.Int.{ℤ, pos, negsuc, pos_part, ◌+ℤ◌, ◌-ℤ◌}
use testmerge.Base.Maps
use testmerge.Base.Maps.{get-set, get-delete, map_laws}
use testmerge.Events.Files.{
  FileSubject, FileSubjects, Objects, write, is_zero, count_up, count_down, complete, referred,
  new_subject, made, open_at, get_file_subject, released, release, FileEvent, handle_blockfile,
}
use testmerge.Events.Files.Objects.{IsLive, IsDone, IsTracked, put-IsTracked, drop-IsTracked}

abbrev pub no_subjects : FileSubjects
no_subjects = record { by_key = []; objects = λ _. none; allocated = 0 }

-- The states that calls lead to from the start.
pub data Reached : FileSubjects → Type 0 where
  start : Reached no_subjects
  opened :
      {s : FileSubjects} (zone_id file_name : String)
      → Reached s
      → Reached (get_file_subject s zone_id file_name).0
  let_go : {s : FileSubjects} (i : ℕ) → Reached s → Reached (release s i)
  event : {s : FileSubjects} (ev : FileEvent) → Reached s → Reached (handle_blockfile s ev).0

start-IsTracked : IsTracked no_subjects
unfolding Maps.get
start-IsTracked = record {
  mapped = λ k i h. absurd (ground arith);
  there = λ i o h. absurd (ground arith);
}

up_positive : (c : ℤ) → 0 < pos_part c → 0 < pos_part (c +ℤ pos 1)
up_positive (pos n) h = ground arith
up_positive (negsuc n) h = ground arith

down_positive : (c : ℤ) → 0 < pos_part c → is_zero (c -ℤ pos 1) ≡ false → 0 < pos_part (c -ℤ pos 1)
down_positive (pos n) h z = ground arith
down_positive (negsuc n) h z = ground arith

down_zero : (c : ℤ) → is_zero (c -ℤ pos 1) ≡ true → pos_part (c -ℤ pos 1) ≡ 0
down_zero (pos n) z = ground arith
down_zero (negsuc n) z = ground arith

pub down_spent :
    (c : ℤ) → pos_part c ≡ 0 → (is_zero (c -ℤ pos 1) ≡ false) × (pos_part (c -ℤ pos 1) ≡ 0)
down_spent (pos n) h = ground arith
down_spent (negsuc n) h = ground arith

module _ (s : FileSubjects) (t : IsTracked s) where
  referred-IsTracked :
      (k : String) (i : ℕ) → Maps.get s.by_key k ≡ some i → IsTracked (referred s i (s.objects i))
  referred-IsTracked k i h =
      let (o, e, q, l) = t.mapped k i h in
      rw e (
        put-IsTracked s i o (count_up o) t e refl
          (inl (rw q h, (l.0, up_positive o.ref_count l.1))))

  released-IsTracked :
      (i : ℕ) (x : Option FileSubject) → s.objects i ≡ x → IsTracked (released s i x)
  released-IsTracked i none e = t
  released-IsTracked i (some o) e = elim (t.there i o e).1 [
    | inl (h, l) ↦ elim (Bool-cases (is_zero (count_down o).ref_count)) [
      | inl z ↦
          rw z
            (drop-IsTracked s i o (complete (count_down o)) t e h (refl, down_zero o.ref_count z))
      | inr z ↦ rw z (
          put-IsTracked s i o (count_down o) t e refl
            (inl (h, (l.0, down_positive o.ref_count l.1 z))))
    ]
    | inr d ↦
        let (z, n) = down_spent o.ref_count d.1 in
        rw z (put-IsTracked s i o (count_down o) t e refl (inr (d, (d.0, n))))
  ]

  -- The first user of a key that the map has not.
  made-IsTracked :
      (key : String)
      → Maps.get s.by_key key ≡ none
      → IsTracked (referred (made s key) s.allocated ((made s key).objects s.allocated))
  made-IsTracked key absent = rw (==_refl s.allocated) (record { mapped = mapped; there = there })
    where
      subject : FileSubject
      subject = count_up (new_subject key)

      objects : Objects
      objects = write (write s.objects s.allocated (new_subject key)) s.allocated subject

      older : (i : ℕ) → i < s.allocated → (s.allocated == i) ≡ false
      older i h = ground arith

      mapped :
          (k : String) (i : ℕ)
          → Maps.get (Maps.set s.by_key key s.allocated) k ≡ some i
          → (o : FileSubject) × (objects i ≡ some o) × (o.key ≡ k) × IsLive o
      mapped k i g = elim (Bool-cases (str_eq key k)) [
        | inl e ↦
            let here : s.allocated ≡ i = ground (arith, get-set s.by_key key s.allocated k) in
            (
              subject,
              rw (← here, ==_refl s.allocated) refl,
              (eq_iff key k).0 e,
              (refl, omega arith),
            )
        | inr e ↦
            let g' : Maps.get s.by_key k ≡ some i =
              ground (arith, get-set s.by_key key s.allocated k) in
            let (o, oe, ok, l) = t.mapped k i g' in (o, rw (older i (t.there i o oe).0) oe, ok, l)
      ]

      kept :
          (i : ℕ) (o : FileSubject)
          → Maps.get s.by_key o.key ≡ some i
          → Maps.get (Maps.set s.by_key key s.allocated) o.key ≡ some i
      kept i o g = elim (Bool-cases (str_eq key o.key)) [
        | inl e ↦
            let q : Maps.get s.by_key o.key ≡ none = rw (← (eq_iff key o.key).0 e) absent in
            absurd (ground arith)
        | inr e ↦ ground (arith, get-set s.by_key key s.allocated o.key)
      ]

      there :
          (i : ℕ) (o : FileSubject)
          → objects i ≡ some o
          → (i < suc s.allocated)
            × (((Maps.get (Maps.set s.by_key key s.allocated) o.key ≡ some i) × IsLive o)
                ⊎ IsDone o)
      there i o g = elim (Bool-cases (s.allocated == i)) [
        | inl e ↦
            let here : s.allocated ≡ i = (==_iff s.allocated i).0 e in
            let so : subject ≡ o = ground arith in
            let g' : Maps.get (Maps.set s.by_key key s.allocated) key ≡ some s.allocated =
              ground (arith, get-set s.by_key key s.allocated key, eq_iff key key) in
            rw (← so, ← here) (omega arith, inl (g', (refl, omega arith)))
        | inr e ↦
            let (lt, cases) = t.there i o (rw e at g) in
            (omega arith, elim cases [ inl (g', l) ↦ inl (kept i o g', l) | inr d ↦ inr d ])
      ]

  open_at-IsTracked :
      (key : String) (x : Option ℕ) → Maps.get s.by_key key ≡ x → IsTracked (open_at s key x).0
  open_at-IsTracked key none e = made-IsTracked key e
  open_at-IsTracked key (some i) e = referred-IsTracked key i e

-- In every state that opening, releasing and events lead to, the map has a subject under its own
-- key, not completed and with a positive count, or the subject is completed and its count is not
-- positive; and what the map has is there.
pub reached-IsTracked : {s : FileSubjects} → Reached s → IsTracked s
unfolding get_file_subject release handle_blockfile
reached-IsTracked start = start-IsTracked
reached-IsTracked (opened {s} z f r) = open_at-IsTracked s (reached-IsTracked r) _ _ refl
reached-IsTracked (let_go {s} i r) = released-IsTracked s (reached-IsTracked r) i _ refl
reached-IsTracked (event {s} ev r) = open_at-IsTracked s (reached-IsTracked r) _ _ refl
