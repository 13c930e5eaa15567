-- ===== src/History/Bounds.antt =====
-- How much the meta of a block remembers, whatever moves were made.
use mathlib.Core.Path.{subst}
use testmerge.Base.{
  ℕ, ◌+◌, ◌≤◌, ◌≡◌, refl, ap, Bool, true, false, Option, none, some, List, [], ◌∷◌, ◌++◌, length,
  length-append, if◌then◌else◌, arith,
}
use testmerge.History.{
  Text, max_history, text_eq, trim, or_none, HistoryMeta, HistoryUpdate, HistoryState, merge_meta,
  get_parent_directory, back_from, to_parent, forward_from, go_history_back, go_history_forward,
  go_history,
}
use testmerge.History.Arrays.{length-pop}
use testmerge.History.Moves.{length-trim, length-drop_oldest}

abbrev pub remembered : HistoryMeta → ℕ
remembered meta = length (or_none meta.history) + length (or_none meta.history_forward)

abbrev pub updated : HistoryState → HistoryUpdate → HistoryState
updated s update = record { value = update.value; meta = merge_meta s.meta update }

-- The states that the moves of a block lead to.
pub data Reachable : HistoryState → Type 0 where
  opened :
      (value : Text)
      → Reachable
          (record { value = value; meta = record { history = none; history_forward = none } })
  went :
      {s : HistoryState} (new_val : Text)
      → Reachable s
      → Reachable (updated s (go_history s.value new_val s.meta))
  went_back :
      {s : HistoryState} (back_to_parent : Bool) (update : HistoryUpdate)
      → go_history_back s.value s.meta back_to_parent ≡ some update
      → Reachable s
      → Reachable (updated s update)
  went_forward :
      {s : HistoryState} (update : HistoryUpdate)
      → go_history_forward s.value s.meta ≡ some update
      → Reachable s
      → Reachable (updated s update)

abbrev IsBounded : HistoryMeta → Option HistoryUpdate → Type 0
IsBounded meta none = Unit
IsBounded meta (some update) = remembered (merge_meta meta update) ≤ max_history

to_parent-IsBounded :
    (cur : Text) (h f : Option (List Text)) (parent : Text)
    → or_none h ≡ []
    → IsBounded (record { history = h; history_forward = f }) (to_parent cur (or_none f) parent)
to_parent-IsBounded cur h f parent e = by_test (text_eq parent cur)
  where
    trimmed : List Text
    trimmed = trim (length (cur ∷ or_none f)) (cur ∷ or_none f)

    by_test :
        (b : Bool)
        → IsBounded
            (record { history = h; history_forward = f })
            (if b
              then none
              else some (record { value = parent; history = none; history_forward = some trimmed }))
    by_test true = tt
    by_test false = omega (
      arith,
      ap length e,
      (length-trim (length (cur ∷ or_none f)) (cur ∷ or_none f) (omega arith)).0,
    )

back_from-IsBounded :
    (cur : Text) (h f : Option (List Text)) (xs : List Text) (b : Bool)
    → or_none h ≡ xs
    → length xs + length (or_none f) ≤ max_history
    → IsBounded (record { history = h; history_forward = f }) (back_from cur xs (or_none f) b)
back_from-IsBounded cur h f [] true e bound =
    to_parent-IsBounded cur h f (get_parent_directory cur) e
back_from-IsBounded cur h f [] false e bound = tt
back_from-IsBounded cur h f (x ∷ xs) b e bound = omega (arith, length-pop x xs)

forward_from-IsBounded :
    (cur : Text) (h f : Option (List Text)) (ys : List Text)
    → length (or_none h) + length ys ≤ max_history
    → IsBounded (record { history = h; history_forward = f }) (forward_from cur (or_none h) ys)
forward_from-IsBounded cur h f [] bound = tt
forward_from-IsBounded cur h f (y ∷ ys) bound =
    omega
      (arith, (length-drop_oldest (or_none h ++ cur ∷ [])).1, length-append (or_none h) (cur ∷ []))

-- A block whose meta was empty at first remembers at most twenty values behind and in front
-- together, whatever moves were made.
pub remembered-bound : {s : HistoryState} → Reachable s → remembered s.meta ≤ max_history
unfolding go_history go_history_back go_history_forward
remembered-bound (opened value) = omega arith
remembered-bound (went {s} new_val h) = omega (
  arith,
  remembered-bound h,
  (length-drop_oldest (or_none s.meta.history ++ s.value ∷ [])).0
      (omega (arith, remembered-bound h, length-append (or_none s.meta.history) (s.value ∷ []))),
)
remembered-bound (went_back {s} b update e h) = subst (IsBounded s.meta) e (
    back_from-IsBounded s.value s.meta.history s.meta.history_forward _ b refl (remembered-bound h))
remembered-bound (went_forward {s} update e h) =
    subst (IsBounded s.meta) e
      (forward_from-IsBounded s.value s.meta.history s.meta.history_forward _ (remembered-bound h))
