-- ===== src/Layout/Drop/Mirror.antt =====
-- The drop direction of the opposite point.
use native.Mathlib.Nat.{add-mul, mul_comm}
use testmerge.Base.{
  ℕ, ◌+◌, ◌-◌, ◌*◌, ◌≡◌, refl, sym, ap, ◌∙◌, Bool, true, false, ◌&&◌, ◌||◌, Option, none, some,
  if◌then◌else◌, if-true, if-false, Bool-cases, inl, inr, arith,
}
use testmerge.Layout.Types.{
  DropDirection, top, right, bottom, left, outer_top, outer_right, outer_bottom, outer_left, center,
}
use testmerge.Layout.Drop.{
  Dimensions, XyCoord, Sign, minus, zero_sign, plus, sign_of, is_middle, is_outer, direction_of,
  drop_at_point, is_outside, determine_drop_direction,
}

abbrev pub opposite : DropDirection → DropDirection
opposite top = bottom
opposite right = left
opposite bottom = top
opposite left = right
opposite outer_top = outer_bottom
opposite outer_right = outer_left
opposite outer_bottom = outer_top
opposite outer_left = outer_right
opposite center = center

abbrev pub map_opposite : Option DropDirection → Option DropDirection
map_opposite none = none
map_opposite (some d) = some (opposite d)

abbrev flip : Sign → Sign
flip minus = plus
flip zero_sign = zero_sign
flip plus = minus

sign_of-flip : (a b c d : ℕ) → a + c ≡ b + d → sign_of c d ≡ flip (sign_of a b)
sign_of-flip a b c d h = ground (arith, h)

is_middle-mirror : (side x x' : ℕ) → x + x' ≡ side → is_middle side x' ≡ is_middle side x
is_middle-mirror side x x' h = ground (arith, h)

is_outer-mirror : (side x x' : ℕ) → x + x' ≡ side → is_outer side x' ≡ is_outer side x
is_outer-mirror side x x' h = ground (arith, h)

direction_of-flip :
    (s t : Sign) (outer : Bool)
    → direction_of (flip s) (flip t) outer ≡ map_opposite (direction_of s t outer)
direction_of-flip minus minus true = refl
direction_of-flip minus minus false = refl
direction_of-flip minus plus true = refl
direction_of-flip minus plus false = refl
direction_of-flip plus plus true = refl
direction_of-flip plus plus false = refl
direction_of-flip plus minus true = refl
direction_of-flip plus minus false = refl
direction_of-flip minus zero_sign outer = refl
direction_of-flip plus zero_sign outer = refl
direction_of-flip zero_sign minus outer = refl
direction_of-flip zero_sign zero_sign outer = refl
direction_of-flip zero_sign plus outer = refl

abbrev point_of : Bool → Bool → Sign → Sign → Bool → Bool → Option DropDirection
point_of mx my s t oy ox = if mx && my then some center else direction_of s t (oy || ox)

point_of-flip :
    (s t : Sign) {mx mx' my my' oy oy' ox ox' : Bool} {s' t' : Sign}
    → mx' ≡ mx
    → my' ≡ my
    → s' ≡ flip s
    → t' ≡ flip t
    → oy' ≡ oy
    → ox' ≡ ox
    → point_of mx' my' s' t' oy' ox' ≡ map_opposite (point_of mx my s t oy ox)
point_of-flip s t {mx} {my} {oy} {ox} e1 e2 e3 e4 e5 e6 =
    rw (e1, e2, e3, e4, e5, e6) (flipped (mx && my))
  where
    flipped :
        (b : Bool)
        → (if b then some center else direction_of (flip s) (flip t) (oy || ox))
          ≡ map_opposite (if b then some center else direction_of s t (oy || ox))
    flipped true = refl
    flipped false = direction_of-flip s t (oy || ox)

-- Both diagonals change their signs.
module _ (w h x y x' y' : ℕ) (on_x : x + x' ≡ w) (on_y : y + y' ≡ h) where
  rows : y * w + y' * w ≡ h * w
  rows = sym (add-mul y y' w) ∙ ap (λ k. k * w) on_y

  columns : x * h + x' * h ≡ h * w
  columns = sym (add-mul x x' h) ∙ ap (λ k. k * h) on_x ∙ mul_comm w h

  drop_at_point-mirror : drop_at_point w h x' y' ≡ map_opposite (drop_at_point w h x y)
  drop_at_point-mirror =
      point_of-flip (sign_of (y * w) (x * h)) (sign_of (y * w + x * h) (h * w))
        (is_middle-mirror w x x' on_x) (is_middle-mirror h y y' on_y)
        (sign_of-flip (y * w) (x * h) (y' * w) (x' * h) (rows ∙ sym columns))
        (sign_of-flip (y * w + x * h) (h * w) (y' * w + x' * h) (h * w)
          (omega (arith, rows, columns)))
        (is_outer-mirror h y y' on_y) (is_outer-mirror w x x' on_x)

outside-mirror :
    (d : Dimensions) (p q : XyCoord)
    → p.x + q.x ≡ 2 * d.left_px + d.width
    → p.y + q.y ≡ 2 * d.top_px + d.height
    → is_outside d q ≡ is_outside d p
outside-mirror d p q on_x on_y = ground (arith, on_x, on_y)

inside-x :
    (d : Dimensions) (p q : XyCoord)
    → is_outside d p ≡ false
    → p.x + q.x ≡ 2 * d.left_px + d.width
    → p.x - d.left_px + (q.x - d.left_px) ≡ d.width
inside-x d p q e on_x = ground (arith, e, on_x)

inside-y :
    (d : Dimensions) (p q : XyCoord)
    → is_outside d p ≡ false
    → p.y + q.y ≡ 2 * d.top_px + d.height
    → p.y - d.top_px + (q.y - d.top_px) ≡ d.height
inside-y d p q e on_y = ground (arith, e, on_y)

-- Points that lie opposite each other about the centre of a box have opposite drop directions, or
-- none.
pub determine_drop_direction-mirror :
    (d : Dimensions) (p q : XyCoord)
    → p.x + q.x ≡ 2 * d.left_px + d.width
    → p.y + q.y ≡ 2 * d.top_px + d.height
    → determine_drop_direction (some d) (some q)
      ≡ map_opposite (determine_drop_direction (some d) (some p))
unfolding determine_drop_direction
determine_drop_direction-mirror d p q on_x on_y = elim (Bool-cases (is_outside d p)) [
  | inl e ↦ if-true _ _ (outside-mirror d p q on_x on_y ∙ e) ∙ sym (ap map_opposite (if-true _ _ e))
  | inr e ↦
      if-false _ _ (outside-mirror d p q on_x on_y ∙ e)
      ∙ drop_at_point-mirror d.width d.height (p.x - d.left_px) (p.y - d.top_px) (q.x - d.left_px)
          (q.y - d.top_px) (inside-x d p q e on_x) (inside-y d p q e on_y)
      ∙ sym (ap map_opposite (if-false _ _ e))
]
