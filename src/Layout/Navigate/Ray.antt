-- ===== src/Layout/Navigate/Ray.antt =====
-- The points that the loop of switchNodeFocusInDirection visits, and that it ends.
use testmerge.Base.{
  ℕ, zero, suc, ◌-◌, ◌<◌, ◌≡◌, inl, inr, true, false, Option, none, some, arith, Option-cases,
}
use testmerge.Layout.Navigate.{
  NavigateDirection, up, right, down, left, Point, shift, Bounds, in_bounds,
}

-- The point after so many moves.
unfoldable pub along : ℕ → NavigateDirection → ℕ → Point → Option Point
unfolding shift
along s dir zero p = some p
along s dir (suc n) p = elim (shift s dir p) [ none ↦ none | some q ↦ along s dir n q ]

-- How far the bound is that the direction leads to.
abbrev pub distance : Bounds → NavigateDirection → Point → ℕ
distance b up p = p.y2
distance b right p = b.max_x2 - p.x2
distance b down p = b.max_y2 - p.y2
distance b left p = p.x2

pub shift-distance :
    (s : ℕ) (b : Bounds) (dir : NavigateDirection) (p q : Point)
    → 0 < s
    → shift s dir p ≡ some q
    → in_bounds b q ≡ true
    → distance b dir q < distance b dir p
unfolding shift
shift-distance s b up p q h e i = ground arith
shift-distance s b right p q h e i = ground arith
shift-distance s b down p q h e i = ground arith
shift-distance s b left p q h e i = ground arith

-- The point lies past the bound that the direction leads to.
abbrev pub IsBeyond : Bounds → NavigateDirection → Point → Type 0
IsBeyond b up p = ⊥
IsBeyond b right p = b.max_x2 < p.x2
IsBeyond b down p = b.max_y2 < p.y2
IsBeyond b left p = ⊥

pub shift-IsBeyond :
    (s : ℕ) (b : Bounds) (dir : NavigateDirection) (p q : Point)
    → shift s dir p ≡ some q
    → in_bounds b p ≡ true
    → in_bounds b q ≡ false
    → IsBeyond b dir q
unfolding shift
shift-IsBeyond s b up p q e i o = absurd (ground arith)
shift-IsBeyond s b right p q e i o = ground arith
shift-IsBeyond s b down p q e i o = ground arith
shift-IsBeyond s b left p q e i o = absurd (ground arith)

IsBeyond-kept :
    (s : ℕ) (b : Bounds) (dir : NavigateDirection) (p q : Point)
    → shift s dir p ≡ some q
    → IsBeyond b dir p
    → IsBeyond b dir q
unfolding shift
IsBeyond-kept s b up p q e o = elim o [ ]
IsBeyond-kept s b left p q e o = elim o [ ]
IsBeyond-kept s b right p q e o = ground arith
IsBeyond-kept s b down p q e o = ground arith

IsBeyond-out :
    (b : Bounds) (dir : NavigateDirection) (p : Point) → IsBeyond b dir p → in_bounds b p ≡ false
IsBeyond-out b up p o = elim o [ ]
IsBeyond-out b left p o = elim o [ ]
IsBeyond-out b right p o = ground arith
IsBeyond-out b down p o = ground arith

pub along-out :
    (s : ℕ) (b : Bounds) (dir : NavigateDirection) (n : ℕ) (p q : Point)
    → along s dir n p ≡ some q
    → IsBeyond b dir p
    → in_bounds b q ≡ false
unfolding along
along-out s b dir zero p q e o = let pq : p ≡ q = ground arith in rw (← pq) (IsBeyond-out b dir p o)
along-out s b dir (suc n) p q e o = elim (Option-cases (shift s dir p)) [
  | inl f ↦ absurd (ground arith)
  | inr (r, f) ↦ along-out s b dir n r q (ground arith) (IsBeyond-kept s b dir p r f o)
]
