-- ===== src/Layout/Navigate/Nearest.antt =====
-- The loop of switchNodeFocusInDirection finds the nearest node in the direction.
use testmerge.Base.{
  ℕ, zero, suc, ◌*◌, ◌<◌, ◌≡◌, ◌≢◌, refl, ◌∙◌, [], ◌∷◌, ==_ne, ◌⊎◌, inl, inr, true, false, none,
  some, arith, Option-cases,
}
use testmerge.Layout.Types.{NodeId}
use testmerge.Layout.Drop.{Dimensions}
use testmerge.Layout.Navigate.{
  NavigateDirection, up, right, down, left, Point, Positions, find_node_at_point, shift, Bounds,
  in_bounds, advance, walk, enough, View, focuses, stays, node_positions, get_position,
  delete_position, bounds_of, get_center, switch_node_focus_in_direction,
}
use testmerge.Layout.Navigate.Ray.{along, distance, shift-distance, shift-IsBeyond, along-out}

module _ (amount : ℕ) (b : Bounds) (m : Positions) (dir : NavigateDirection) where
  -- The node at the first of the points within the bounds that any node has.
  pub record Nearest (p : Point) (id : NodeId) : Type 0 where
    pub moves : ℕ
    pub point : Point
    pub reached : along (2 * amount) dir (suc moves) p ≡ some point
    pub inside : in_bounds b point ≡ true
    pub hit : find_node_at_point m point ≡ some id
    pub none_before :
        (n : ℕ) (q : Point)
        → n < moves
        → along (2 * amount) dir (suc n) p ≡ some q
        → find_node_at_point m q ≡ none

  -- None of the points within the bounds lies in a node.
  abbrev pub IsClear : Point → Type 0
  IsClear p =
      (n : ℕ) (q : Point)
      → along (2 * amount) dir (suc n) p ≡ some q
      → in_bounds b q ≡ true
      → find_node_at_point m q ≡ none

  advance-none : (p : Point) → in_bounds b p ≡ true → advance amount b m dir p ≡ none → IsClear p
  unfolding advance along
  advance-none p i e n q a j = elim (Option-cases (shift (2 * amount) dir p)) [
    | inl f ↦ absurd (ground arith)
    | inr (r, f) ↦
        let o : in_bounds b r ≡ false = ground arith in
        let w =
          along-out (2 * amount) b dir n r q (ground arith) (shift-IsBeyond _ b dir p r f i o) in
        absurd (ground arith)
  ]

  advance-some :
      (p q : Point)
      → advance amount b m dir p ≡ some q
      → (shift (2 * amount) dir p ≡ some q) × (in_bounds b q ≡ true)
  unfolding advance
  advance-some p q e = elim (Option-cases (shift (2 * amount) dir p)) [
    | inl f ↦ absurd (ground arith)
    | inr (r, f) ↦ ground arith
  ]

  along-on :
      (n : ℕ) (p q : Point)
      → shift (2 * amount) dir p ≡ some q
      → along (2 * amount) dir (suc n) p ≡ along (2 * amount) dir n q
  unfolding along
  along-on n p q e = ground arith

  IsClear-on :
      (p q : Point)
      → shift (2 * amount) dir p ≡ some q
      → find_node_at_point m q ≡ none
      → IsClear q
      → IsClear p
  unfolding along
  IsClear-on p q e h c zero r a i = ground arith
  IsClear-on p q e h c (suc n) r a i = c n r (ground arith) i

  Nearest-here :
      (p q : Point) (id : NodeId)
      → shift (2 * amount) dir p ≡ some q
      → in_bounds b q ≡ true
      → find_node_at_point m q ≡ some id
      → Nearest p id
  unfolding along
  Nearest-here p q id e i h = record {
    moves = 0;
    point = q;
    reached = along-on 0 p q e;
    inside = i;
    hit = h;
    none_before = λ n r lt a. absurd (omega arith);
  }

  Nearest-on :
      (p q : Point) (id : NodeId)
      → shift (2 * amount) dir p ≡ some q
      → find_node_at_point m q ≡ none
      → Nearest q id
      → Nearest p id
  unfolding along
  Nearest-on p q id e h c = record {
    moves = suc c.moves;
    point = c.point;
    reached = along-on (suc c.moves) p q e ∙ c.reached;
    inside = c.inside;
    hit = c.hit;
    none_before = none_before;
  }
    where
      none_before :
          (n : ℕ) (r : Point)
          → n < suc c.moves
          → along (2 * amount) dir (suc n) p ≡ some r
          → find_node_at_point m r ≡ none
      none_before zero r lt a = ground arith
      none_before (suc n) r lt a = c.none_before n r (omega arith) (ground arith)

  -- With fuel for the way to the bound the loop ends: at the nearest node, or where there is none.
  pub walk-ends :
      (fuel : ℕ) (p : Point)
      → 0 < amount
      → in_bounds b p ≡ true
      → distance b dir p < fuel
      → ((id : NodeId) × (walk amount b m dir fuel p ≡ some (some id)) × Nearest p id)
        ⊎ ((walk amount b m dir fuel p ≡ some none) × IsClear p)
  unfolding walk
  walk-ends zero p pos i d = absurd (omega arith)
  walk-ends (suc fuel) p pos i d = elim (Option-cases (advance amount b m dir p)) [
    | inl e ↦ inr (ground arith, advance-none p i e)
    | inr (q, e) ↦
        let (s, j) = advance-some p q e in
        elim (Option-cases (find_node_at_point m q)) [
          | inr (id, f) ↦ inl (id, ground arith, Nearest-here p q id s j f)
          | inl f ↦
              let lt = shift-distance (2 * amount) b dir p q (omega arith) s j in
              elim (walk-ends fuel q pos j (omega arith)) [
                | inl (id, w, n) ↦ inl (id, ground arith, Nearest-on p q id s f n)
                | inr (w, c) ↦ inr (ground arith, IsClear-on p q s f c)
              ]
        ]
  ]

distance-enough : (b : Bounds) (dir : NavigateDirection) (p : Point) → distance b dir p < enough b p
distance-enough b up p = omega arith
distance-enough b right p = omega arith
distance-enough b down p = omega arith
distance-enough b left p = omega arith

not_deleted :
    (m : Positions) (id id' : NodeId) (q : Point)
    → find_node_at_point (delete_position m id) q ≡ some id'
    → id' ≢ id
unfolding find_node_at_point delete_position
not_deleted [] id id' q h = absurd (ground arith)
not_deleted ((j, d) ∷ m) id id' q h = ground (arith, not_deleted m id id' q)

-- From a leaf whose centre lies in the container the method ends. It focuses another leaf, the one at
-- the first of the points, a move of the amount apart, at which there is one within the bounds; where
-- no such point has one, it leaves the focus.
pub switch_node_focus_in_direction-Nearest :
    (amount : ℕ) (dir : NavigateDirection) (v : View) (id : NodeId) (cur r : Dimensions)
    → 0 < amount
    → v.focused_node_id ≡ some id
    → id ≢ 0
    → get_position (node_positions v.rect v.leafs []) id ≡ some cur
    → v.bounding_rect ≡ some r
    → in_bounds (bounds_of r) (get_center cur) ≡ true
    → ((id' : NodeId) × (switch_node_focus_in_direction amount dir v ≡ focuses id')
        × (id' ≢ id)
        × Nearest amount
            (bounds_of r)
            (delete_position (node_positions v.rect v.leafs []) id)
            dir
            (get_center cur)
            id')
      ⊎ ((switch_node_focus_in_direction amount dir v ≡ stays)
          × IsClear amount
              (bounds_of r)
              (delete_position (node_positions v.rect v.leafs []) id)
              dir
              (get_center cur))
unfolding switch_node_focus_in_direction
switch_node_focus_in_direction-Nearest amount dir v id cur r pos f ne g e i =
    rw (f, ==_ne id 0 ne, g, e)
      (elim (walk-ends amount (bounds_of r) m dir _ (get_center cur) pos i
        (distance-enough (bounds_of r) dir (get_center cur))) [
          | inl (id', w, n) ↦ inl (id', rw w refl, not_deleted _ id id' n.point n.hit, n)
          | inr (w, c) ↦ inr (rw w refl, c)
        ])
  where
    m : Positions
    m = delete_position (node_positions v.rect v.leafs []) id
