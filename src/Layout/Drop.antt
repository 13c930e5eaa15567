-- ===== src/Layout/Drop.antt =====
-- determineDropDirection of frontend/layout/lib/utils.ts: where a node is dropped on a box. The
-- coordinates are natural numbers, in a unit as small as one likes; a test against a fifth of a side
-- is the test with five times the coordinate.
pub mod Mirror
mod Tests
use testmerge.Base.{
  ℕ, ◌+◌, ◌-◌, ◌*◌, Bool, true, false, ◌&&◌, ◌||◌, Option, none, some, ltb, if◌then◌else◌,
}
use Prim.Native.Nat.{compare, Ordering}
use testmerge.Layout.Types.{
  DropDirection, top, right, bottom, left, outer_top, outer_right, outer_bottom, outer_left, center,
}

pub record Dimensions : Type 0 where
  pub top_px : ℕ
  pub left_px : ℕ
  pub width : ℕ
  pub height : ℕ

pub record XyCoord : Type 0 where
  pub x : ℕ
  pub y : ℕ

-- Of a difference.
pub data Sign : Type 0 where
  minus zero_sign plus : Sign

abbrev pub sign_of : ℕ → ℕ → Sign
sign_of a b = elim (compare a b) [
  | Ordering.lt ↦ minus
  | Ordering.eq ↦ zero_sign
  | Ordering.gt ↦ plus
]

-- Whether a coordinate lies in the middle fifth of a side.
abbrev pub is_middle : ℕ → ℕ → Bool
is_middle side x = ltb (2 * side) (5 * x) && ltb (5 * x) (3 * side)

-- Whether it lies in the first fifth or in the last one.
abbrev pub is_outer : ℕ → ℕ → Bool
is_outer side x = ltb (5 * x) side || ltb (4 * side) (5 * x)

-- The code by the signs of diagonal1 and diagonal2; a point on a diagonal has none.
abbrev pub direction_of : Sign → Sign → Bool → Option DropDirection
direction_of minus minus outer = some (if outer then outer_top else top)
direction_of minus plus outer = some (if outer then outer_right else right)
direction_of plus plus outer = some (if outer then outer_bottom else bottom)
direction_of plus minus outer = some (if outer then outer_left else left)
direction_of _ _ outer = none

abbrev pub drop_at_point : ℕ → ℕ → ℕ → ℕ → Option DropDirection
drop_at_point width height x y =
    if is_middle width x && is_middle height y
    then some center
    else direction_of (sign_of (y * width) (x * height))
        (sign_of (y * width + x * height) (height * width)) (is_outer height y || is_outer width x)

abbrev pub is_outside : Dimensions → XyCoord → Bool
is_outside d p =
    ltb p.y d.top_px
    || ltb d.height (p.y - d.top_px)
    || ltb p.x d.left_px
    || ltb d.width (p.x - d.left_px)

unfoldable pub determine_drop_direction : Option Dimensions → Option XyCoord → Option DropDirection
determine_drop_direction none o = none
determine_drop_direction (some d) none = none
determine_drop_direction (some d) (some p) =
    if is_outside d p
    then none
    else drop_at_point d.width d.height (p.x - d.left_px) (p.y - d.top_px)
