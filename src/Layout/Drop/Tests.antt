-- ===== src/Layout/Drop/Tests.antt =====
-- Drop directions on a concrete box.
use testmerge.Base.{◌≡◌, refl, none, some}
use testmerge.Layout.Types.{outer_right, center}
use testmerge.Layout.Drop.{Dimensions, XyCoord, determine_drop_direction}

abbrev box : Dimensions
box = record { top_px = 10; left_px = 20; width = 100; height = 50 }

abbrev near_left : XyCoord
near_left = record { x = 22; y = 30 }

abbrev near_right : XyCoord
near_right = record { x = 118; y = 40 }

near_right_edge : determine_drop_direction (some box) (some near_right) ≡ some outer_right
unfolding determine_drop_direction
near_right_edge = refl

in_the_middle : determine_drop_direction (some box) (some (record { x = 70; y = 35 })) ≡ some center
unfolding determine_drop_direction
in_the_middle = refl

outside : determine_drop_direction (some box) (some (record { x = 19; y = 35 })) ≡ none
unfolding determine_drop_direction
outside = refl
