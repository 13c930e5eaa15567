-- ===== src/Events/Files/Leaks.antt =====
-- When a file subject is completed, and when it never is.
use testmerge.Base.{
  ℕ, zero, suc, ◌+◌, ◌-◌, ◌<◌, ◌≡◌, refl, String, true, none, some, List, [], ◌∷◌, ==_refl, eq_iff,
  arith,
}
use testmerge.Base.Int.{pos}
use testmerge.Base.Maps
use testmerge.Base.Maps.{get-set, get-delete}
use testmerge.Events.Files.{
  FileSubjects, subject_key, released, release, FileEvent, handle_blockfile,
}
use testmerge.Events.Files.Tracked.{Reached, event}
use testmerge.Events.Files.Holders.{
  FileStep, lets_go, gets, step, run, up, ups, downs, Holds, StaysHeld, released-Holds, step-Holds,
  run-Holds,
}

-- The subject is completed, and the map has nothing under its key.
pub record IsGone (k : String) (i : ℕ) (s : FileSubjects) : Type 0 where
  pub unmapped : Maps.get s.by_key k ≡ none
  pub subject : s.objects i ≡ some (record { key = k; ref_count = pos 0; completed = true })

last-IsGone : {k : String} {i : ℕ} {s : FileSubjects} → Holds k i 1 s → IsGone k i (release s i)
unfolding release
last-IsGone {k} {i} {s} h = rw h.subject (record {
  unmapped = ground (arith, get-delete s.by_key k k, eq_iff k k);
  subject = rw (==_refl i) refl;
})

abbrev pub releases : ℕ → ℕ → List FileStep
releases zero i = []
releases (suc n) i = lets_go i ∷ releases n i

downs-releases : (n i : ℕ) → downs i (releases n i) ≡ n
downs-releases zero i = refl
downs-releases (suc n) i = ground (arith, downs-releases n i)

ups-releases : (k : String) (n i : ℕ) → ups k (releases n i) ≡ 0
ups-releases k zero i = refl
ups-releases k (suc n) i = omega (arith, ups-releases k n i)

releases-StaysHeld : (k : String) (i n c : ℕ) → n < c → StaysHeld k i c (releases n i)
releases-StaysHeld k i zero c lt = tt
releases-StaysHeld k i (suc n) c lt = (ground arith, releases-StaysHeld k i n _ (ground arith))

releases-IsGone :
    (n : ℕ) {k : String} {i : ℕ} {s : FileSubjects}
    → Holds k i (suc n) s
    → IsGone k i (run s (releases (suc n) i))
unfolding release
releases-IsGone zero h = last-IsGone h
releases-IsGone (suc n) {k} {i} {s} h =
    let q : suc (suc n) - 1 ≡ suc n = omega arith in
    let h' : Holds k i (suc (suc n) - 1) (released s i (s.objects i)) =
      released-Holds h (omega arith) in
    releases-IsGone n {s = step s (lets_go i)} (rw q at h')

-- When every user of a subject has released it, it is completed and the map has nothing under its
-- key; but if a "blockfile" event of that key came before, it is neither, with a count of one.
pub handle_blockfile-leaks :
    (s : FileSubjects) (ev : FileEvent) (i n : ℕ)
    → Reached s
    → Holds (subject_key ev.zone_id ev.file_name) i (suc n) s
    → IsGone (subject_key ev.zone_id ev.file_name) i (run s (releases (suc n) i))
      × Holds
          (subject_key ev.zone_id ev.file_name)
          i
          1
          (run (handle_blockfile s ev).0 (releases (suc n) i))
handle_blockfile-leaks s ev i n r h =
    (releases-IsGone n h, left (step-Holds (gets ev) r h (omega arith)))
  where
    key : String
    key = subject_key ev.zone_id ev.file_name

    left :
        Holds key i (suc n + up key (gets ev) - 0) (step s (gets ev))
        → Holds key i 1 (run (step s (gets ev)) (releases (suc n) i))
    left g =
        run-Holds key i _ 1 _ (releases (suc n) i) (event ev r) g
          (releases-StaysHeld key i (suc n) _ (ground (arith, eq_iff key key)))
          (ground (arith, eq_iff key key, downs-releases (suc n) i, ups-releases key (suc n) i))
