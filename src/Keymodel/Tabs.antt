-- ===== src/Keymodel/Tabs.antt =====
-- switchTab against a cyclic counter, and back.
use native.Mathlib.Nat.{mod-eq_of_lt, add-mod_right, mod_self, zero-add}
use mathlib.Core.List.{append_assoc}
use testmerge.Base.{
  ℕ, zero, suc, ◌+◌, ◌-◌, ◌<◌, ◌≡◌, refl, sym, ap, ◌∙◌, arith, true, false, some, List, [], ◌∷◌,
  ◌++◌, length, ◌==◌, ==_refl, if◌then◌else◌, inl, inr, Bool-cases,
}
use testmerge.Base.Int.{ℤ, pos, negsuc, ◌+ℤ◌}
use testmerge.Keymodel.{TabId, rem_ℤ, get_elem?, index_of, Effect, set_active_tab, App, switch_tab}

-- The two bindings of switchTab.
pub data Press : Type 0 where
  next previous : Press

abbrev pub offset_of : Press → ℤ
offset_of next = pos 1
offset_of previous = negsuc 0

-- A counter that runs round the indices below `n`.
abbrev pub turn : ℕ → Press → ℕ → ℕ
turn n next i = if suc i == n then 0 else suc i
turn n previous zero = n - 1
turn n previous (suc i) = i

abbrev pub turns : ℕ → List Press → ℕ → ℕ
turns n [] i = i
turns n (p ∷ ps) i = turns n ps (turn n p i)

-- No tab is there twice.
abbrev pub IsUnique : List TabId → Type 0
IsUnique ids = (i j : ℕ) (t : TabId) → get_elem? ids i ≡ some t → get_elem? ids j ≡ some t → i ≡ j

IsUnique-tail : (x : TabId) (xs : List TabId) → IsUnique (x ∷ xs) → IsUnique xs
unfolding get_elem?
IsUnique-tail x xs u i j t p q = let e = u (suc i) (suc j) t p q in omega arith

index_of-get_elem? :
    (ids : List TabId) (k i : ℕ) (t : TabId)
    → IsUnique ids
    → get_elem? ids i ≡ some t
    → index_of k ids t ≡ some (k + i)
unfolding index_of get_elem?
index_of-get_elem? [] k i t u h = absurd (ground arith)
index_of-get_elem? (x ∷ xs) k zero t u h = ground arith
index_of-get_elem? (x ∷ xs) k (suc i) t u h =
    ground (arith, index_of-get_elem? xs (suc k) i t (IsUnique-tail x xs u) h, u 0 (suc i) t)

get_elem?-lt : (ids : List TabId) (i : ℕ) (t : TabId) → get_elem? ids i ≡ some t → i < length ids
unfolding get_elem?
get_elem?-lt [] i t h = absurd (ground arith)
get_elem?-lt (x ∷ xs) zero t h = omega arith
get_elem?-lt (x ∷ xs) (suc i) t h = omega (arith, get_elem?-lt xs i t h)

get_elem?-there :
    (ids : List TabId) (i : ℕ) → i < length ids → (t : TabId) × (get_elem? ids i ≡ some t)
unfolding get_elem?
get_elem?-there [] i h = absurd (omega arith)
get_elem?-there (x ∷ xs) zero h = (x, refl)
get_elem?-there (x ∷ xs) (suc i) h = get_elem?-there xs i (omega arith)

turn-lt : (n : ℕ) (p : Press) (i : ℕ) → i < n → turn n p i < n
turn-lt n next i h = ground arith
turn-lt n previous zero h = omega arith
turn-lt n previous (suc i) h = omega arith

-- The sums of switchTab, which are natural.
sum_next : (i n : ℕ) → (pos i +ℤ pos 1) +ℤ pos n ≡ pos (suc i + n)
sum_next i n = ground arith

sum_first : (n : ℕ) → 0 < n → (pos 0 +ℤ negsuc 0) +ℤ pos n ≡ pos (n - 1)
sum_first n h = ground arith

sum_previous : (i n : ℕ) → (pos (suc i) +ℤ negsuc 0) +ℤ pos n ≡ pos (i + n)
sum_previous i n = ground arith

rem-turn :
    (n : ℕ) (p : Press) (i : ℕ)
    → i < n
    → rem_ℤ ((pos i +ℤ offset_of p) +ℤ pos n) n ≡ pos (turn n p i)
rem-turn n next i h = elim (Bool-cases (suc i == n)) [
  | inl e ↦
      let q : suc i ≡ n = ground arith in
      rw (sum_next i n, e) (ap pos (add-mod_right _ n ∙ rw q (mod_self n)))
  | inr e ↦ rw (sum_next i n, e) (ap pos (add-mod_right _ n ∙ mod-eq_of_lt (ground arith)))
]
rem-turn n previous zero h = rw (sum_first n h) (ap pos (mod-eq_of_lt (omega arith)))
rem-turn n previous (suc i) h =
    rw (sum_previous i n) (ap pos (add-mod_right _ n ∙ mod-eq_of_lt (omega arith)))

abbrev pub made_active : List Effect → TabId → TabId
made_active [] t = t
made_active (set_active_tab (some id) ∷ es) t = made_active es id
made_active (e ∷ es) t = made_active es t

-- The presses one after another, each once the tab that the last one asked for is active.
abbrev pub press_all : App → List Press → App
press_all app [] = app
press_all app (p ∷ ps) =
    press_all (record app { tab_atom = made_active (switch_tab app (offset_of p)) app.tab_atom }) ps

module _ (ids : List TabId) (unique : IsUnique ids) where
  switch_tab-turn :
      (app : App) (p : Press) (i : ℕ)
      → app.tabids ≡ ids
      → get_elem? ids i ≡ some app.tab_atom
      → switch_tab app (offset_of p) ≡ set_active_tab (get_elem? ids (turn (length ids) p i)) ∷ []
  unfolding switch_tab
  switch_tab-turn app p i a h =
      let found : index_of 0 ids app.tab_atom ≡ some i =
        index_of-get_elem? ids 0 i app.tab_atom unique h ∙ ap some (zero-add i) in
      rw (a, found, rem-turn (length ids) p i (get_elem?-lt ids i _ h)) refl

  press_one :
      (app : App) (p : Press) (i : ℕ)
      → app.tabids ≡ ids
      → get_elem? ids i ≡ some app.tab_atom
      → get_elem? ids (turn (length ids) p i)
        ≡ some (made_active (switch_tab app (offset_of p)) app.tab_atom)
  press_one app p i a h =
      let (t, e) =
        get_elem?-there ids (turn (length ids) p i) (turn-lt _ p i (get_elem?-lt ids i _ h)) in
      rw (switch_tab-turn app p i a h, e) refl

  -- After any presses the active tab is the one that a cyclic counter says.
  pub press_all-turns :
      (ps : List Press) (app : App) (i : ℕ)
      → app.tabids ≡ ids
      → get_elem? ids i ≡ some app.tab_atom
      → get_elem? ids (turns (length ids) ps i) ≡ some (press_all app ps).tab_atom
  press_all-turns [] app i a h = h
  press_all-turns (p ∷ ps) app i a h =
      press_all-turns ps _ (turn (length ids) p i) a (press_one app p i a h)

abbrev pub opposite : Press → Press
opposite next = previous
opposite previous = next

-- The opposite presses, the last one first.
abbrev pub undo : List Press → List Press
undo [] = []
undo (p ∷ ps) = undo ps ++ opposite p ∷ []

turn-opposite : (n : ℕ) (p : Press) (i : ℕ) → i < n → turn n (opposite p) (turn n p i) ≡ i
turn-opposite n next i h = elim (Bool-cases (suc i == n)) [
  | inl e ↦ rw e (omega (arith, same e))
  | inr e ↦ rw e refl
]
  where
    same : suc i == n ≡ true → suc i ≡ n
    same e = ground arith
turn-opposite n previous zero h = let q : suc (n - 1) ≡ n = omega arith in rw (q, ==_refl n) refl
turn-opposite n previous (suc i) h = let q : (suc i == n) ≡ false = ground arith in rw q refl

turns-append :
    (n : ℕ) (ps qs : List Press) (i : ℕ) → turns n (ps ++ qs) i ≡ turns n qs (turns n ps i)
turns-append n [] qs i = refl
turns-append n (p ∷ ps) qs i = turns-append n ps qs (turn n p i)

turns-undo : (n : ℕ) (ps : List Press) (i : ℕ) → i < n → turns n (ps ++ undo ps) i ≡ i
turns-undo n [] i h = refl
turns-undo n (p ∷ ps) i h =
    ap (λ qs. turns n qs (turn n p i)) (sym (append_assoc ps (undo ps) (opposite p ∷ [])))
    ∙ turns-append n (ps ++ undo ps) (opposite p ∷ []) (turn n p i)
    ∙ ap (turn n (opposite p)) (turns-undo n ps (turn n p i) (turn-lt n p i h))
    ∙ turn-opposite n p i h

-- Where the active tab is one of the workspace's, none of which is there twice, any presses of the
-- next and the previous tab, followed by the opposite ones from the last to the first, lead back
-- to it.
pub press_all-undo :
    (app : App) (ps : List Press) (i : ℕ)
    → IsUnique app.tabids
    → get_elem? app.tabids i ≡ some app.tab_atom
    → (press_all app (ps ++ undo ps)).tab_atom ≡ app.tab_atom
press_all-undo app ps i u h =
    let e = press_all-turns app.tabids u (ps ++ undo ps) app i refl h in
    let q = turns-undo (length app.tabids) ps i (get_elem?-lt app.tabids i _ h) in
    same_tab (sym e ∙ ap (get_elem? app.tabids) q ∙ h)
  where
    same_tab : {t t' : TabId} → some t ≡ some t' → t ≡ t'
    same_tab e = ground arith
