-- ===== src/Keymodel/Delay.antt =====
-- The delayed state of the keys Control and Shift in frontend/app/store/keymodel.ts: setControlShift
-- and unsetControlShift. Timers are kept by the times they are due at, in milliseconds, the first one
-- first; they all run for 400.
use testmerge.Base.{ℕ, ◌+◌, ◌≡◌, refl, arith, Bool, true, false, List, [], ◌∷◌, ◌++◌, if◌then◌else◌}

-- simpleControlShiftAtom and controlShiftDelayAtom, and the timers.
pub record ControlShift : Type 0 where
  pub simple : Bool
  pub delayed : Bool
  pub timers : List ℕ

abbrev pub at_rest : ControlShift
at_rest = record { simple = false; delayed = false; timers = [] }

unfoldable pub set_control_shift : ControlShift → ℕ → ControlShift
set_control_shift s now = record s { simple = true; timers = s.timers ++ (now + 400) ∷ [] }

unfoldable pub unset_control_shift : ControlShift → ControlShift
unset_control_shift s = record s { simple = false; delayed = false }

-- The callback of the first timer.
unfoldable pub fire : ControlShift → List ℕ → ControlShift
fire s [] = s
fire s (due ∷ rest) =
    if s.simple then record s { delayed = true; timers = rest } else record s { timers = rest }

pub data Pressed : ControlShift → Type 0 where
  start : Pressed at_rest
  pressed : {s : ControlShift} (now : ℕ) → Pressed s → Pressed (set_control_shift s now)
  let_up : {s : ControlShift} → Pressed s → Pressed (unset_control_shift s)
  fired : {s : ControlShift} → Pressed s → Pressed (fire s s.timers)

fire-delayed :
    (s : ControlShift) (timers : List ℕ)
    → (s.delayed ≡ true → s.simple ≡ true)
    → (fire s timers).delayed ≡ true
    → (fire s timers).simple ≡ true
unfolding fire
fire-delayed s [] h = h
fire-delayed s (due ∷ rest) h = ground (arith, h)

-- The delayed state is set only while the keys are held.
pub delayed_held : {s : ControlShift} → Pressed s → s.delayed ≡ true → s.simple ≡ true
unfolding set_control_shift unset_control_shift
delayed_held start h = h
delayed_held (pressed now p) h = refl
delayed_held (let_up p) h = h
delayed_held (fired {s} p) h = fire-delayed s s.timers (delayed_held p) h

-- A timer outlives the release of the keys: after another press it sets the delayed state, however
-- short a time ago that press was.
pub delayed_early :
    (before after : ℕ)
    → (let s = set_control_shift (unset_control_shift (set_control_shift at_rest before)) after in
        fire s s.timers)
      ≡ record { simple = true; delayed = true; timers = (after + 400) ∷ [] }
unfolding set_control_shift unset_control_shift fire
delayed_early before after = refl
