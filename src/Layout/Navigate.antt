-- ===== src/Layout/Navigate.antt =====
-- switchNodeFocusInDirection of frontend/layout/lib/layoutModel.ts, with getCenter and
-- navigateDirectionToOffset of utils.ts. Coordinates are natural numbers in a unit as small as one
-- likes, in which `move_amount` is the source's moveAmount; a point has twice its coordinates, since a
-- centre may lie on a half. What focuses a node is the call of focusNode.
pub mod Ray
pub mod Nearest
mod Tests
use testmerge.Base.{
  ℕ, zero, suc, ◌+◌, ◌-◌, ◌*◌, Bool, true, false, ◌&&◌, Option, none, some, List, [], ◌∷◌, ◌==◌,
  leb, if◌then◌else◌,
}
use testmerge.Layout.Types.{NodeId, LeafOrderEntry}
use testmerge.Layout.Drop.{Dimensions}

pub data NavigateDirection : Type 0 where
  up right down left : NavigateDirection

pub record Point : Type 0 where
  pub x2 : ℕ
  pub y2 : ℕ

abbrev pub get_center : Dimensions → Point
get_center d = record { x2 = 2 * d.left_px + d.width; y2 = 2 * d.top_px + d.height }

-- nodePositions, a `Map` in the order of insertion.
abbrev pub Positions : Type 0
Positions = List (NodeId × Dimensions)

unfoldable pub set_position : Positions → NodeId → Dimensions → Positions
set_position [] id d = (id, d) ∷ []
set_position ((j, e) ∷ m) id d =
    let rest = set_position m id d in if j == id then (id, d) ∷ m else (j, e) ∷ rest

unfoldable pub get_position : Positions → NodeId → Option Dimensions
get_position [] id = none
get_position ((j, e) ∷ m) id = let rest = get_position m id in if j == id then some e else rest

unfoldable pub delete_position : Positions → NodeId → Positions
delete_position [] id = []
delete_position ((j, e) ∷ m) id =
    let rest = delete_position m id in if j == id then rest else (j, e) ∷ rest

abbrev set_rect : Positions → NodeId → Option Dimensions → Positions
set_rect m id none = m
set_rect m id (some d) = set_position m id d

unfoldable pub node_positions : (NodeId → Option Dimensions) → List NodeId → Positions → Positions
unfolding set_position
node_positions rect [] m = m
node_positions rect (id ∷ leafs) m = node_positions rect leafs (set_rect m id (rect id))

abbrev pub is_in : Point → Dimensions → Bool
is_in p d =
    leb (2 * d.left_px) p.x2
    && leb p.x2 (2 * (d.left_px + d.width))
    && leb (2 * d.top_px) p.y2
    && leb p.y2 (2 * (d.top_px + d.height))

unfoldable pub find_node_at_point : Positions → Point → Option NodeId
find_node_at_point [] p = none
find_node_at_point ((id, d) ∷ m) p =
    let rest = find_node_at_point m p in if is_in p d then some id else rest

abbrev back : ℕ → ℕ → Option ℕ
back s a = if leb s a then some (a - s) else none

abbrev with_x : Point → Option ℕ → Option Point
with_x p none = none
with_x p (some x) = some (record p { x2 = x })

abbrev with_y : Point → Option ℕ → Option Point
with_y p none = none
with_y p (some y) = some (record p { y2 = y })

-- The point moved by the offset of the direction; none where a coordinate is negative then.
unfoldable pub shift : ℕ → NavigateDirection → Point → Option Point
shift s up p = with_y p (back s p.y2)
shift s right p = with_x p (some (p.x2 + s))
shift s down p = with_y p (some (p.y2 + s))
shift s left p = with_x p (back s p.x2)

-- maxX and maxY, twice.
pub record Bounds : Type 0 where
  pub max_x2 : ℕ
  pub max_y2 : ℕ

abbrev pub bounds_of : Dimensions → Bounds
bounds_of d = record { max_x2 = 2 * (d.left_px + d.width); max_y2 = 2 * (d.top_px + d.height) }

abbrev pub in_bounds : Bounds → Point → Bool
in_bounds b p = leb p.x2 b.max_x2 && leb p.y2 b.max_y2

abbrev pub within : Bounds → Option Point → Option Point
within b none = none
within b (some p) = if in_bounds b p then some p else none

module _ (move_amount : ℕ) (b : Bounds) (m : Positions) (dir : NavigateDirection) where
  -- The point of the next round; none where the code returns.
  unfoldable pub advance : Point → Option Point
  unfolding shift
  advance p = within b (shift (2 * move_amount) dir p)

  -- The loop, on fuel: none where it is used up, and `some none` where the code returns without a
  -- node.
  unfoldable pub walk : ℕ → Point → Option (Option NodeId)
  unfolding advance find_node_at_point
  walk zero p = none
  walk (suc fuel) p = elim (advance p) [
    | none ↦ some none
    | some q ↦ elim (find_node_at_point m q) [ none ↦ walk fuel q | some id ↦ some (some id) ]
  ]

-- What the method reads of the layout model: focusedNodeId, leafOrder, the ids of `leafs`, the rects
-- of additionalProps and the container's getBoundingClientRect. The constructor makes the ref of the
-- container; `none` is a ref whose `current` is null.
pub record View : Type 0 where
  pub focused_node_id : Option NodeId
  pub leaf_order : List LeafOrderEntry
  pub leafs : List NodeId
  pub rect : NodeId → Option Dimensions
  pub bounding_rect : Option Dimensions

-- A call of focusNode, none, the TypeError at an empty leafOrder or a null `current`, or no end.
pub data Focusing : Type 0 where
  focuses : NodeId → Focusing
  stays throws runs_on : Focusing

abbrev focus_first : List LeafOrderEntry → Focusing
focus_first [] = throws
focus_first (e ∷ es) = focuses e.node_id

abbrev focusing : Option (Option NodeId) → Focusing
focusing none = runs_on
focusing (some none) = stays
focusing (some (some id)) = focuses id

-- Every round moves towards a bound.
abbrev pub enough : Bounds → Point → ℕ
enough b p = suc (b.max_x2 + b.max_y2 + p.x2 + p.y2)

abbrev pub look_around :
    ℕ → NavigateDirection → Positions → Option Dimensions → Dimensions → Focusing
look_around move_amount dir m none cur = throws
look_around move_amount dir m (some r) cur =
    let b = bounds_of r in
    let p = get_center cur in focusing (walk move_amount b m dir (enough b p) p)

abbrev look_from :
    ℕ → NavigateDirection → Positions → Option Dimensions → NodeId → Option Dimensions → Focusing
look_from move_amount dir m r id none = stays
look_from move_amount dir m r id (some cur) =
    look_around move_amount dir (delete_position m id) r cur

abbrev navigate : ℕ → NavigateDirection → View → Option NodeId → Focusing
navigate move_amount dir v none = focus_first v.leaf_order
navigate move_amount dir v (some id) =
    let m = node_positions v.rect v.leafs [] in
    if id == 0
    then focus_first v.leaf_order
    else look_from move_amount dir m v.bounding_rect id (get_position m id)

unfoldable pub switch_node_focus_in_direction : ℕ → NavigateDirection → View → Focusing
unfolding walk delete_position node_positions get_position
switch_node_focus_in_direction move_amount dir v = navigate move_amount dir v v.focused_node_id
