-- ===== src/Layout/Navigate/Tests.antt =====
-- switchNodeFocusInDirection from the left one of two leafs, side by side.
use testmerge.Base.{◌≡◌, ◌≢◌, refl, ◌⊎◌, some, [], ◌∷◌, arith, ◌==◌, if◌then◌else◌}
use testmerge.Layout.Types.{NodeId}
use testmerge.Layout.Drop.{Dimensions}
use testmerge.Layout.Navigate.{
  right, View, focuses, stays, switch_node_focus_in_direction, node_positions, set_position,
  get_position, delete_position, bounds_of, get_center, find_node_at_point, shift, advance, walk,
}
use testmerge.Layout.Navigate.Nearest.{Nearest, IsClear, switch_node_focus_in_direction-Nearest}

abbrev first_rect : Dimensions
first_rect = record { top_px = 0; left_px = 0; width = 45; height = 80 }

abbrev second_rect : Dimensions
second_rect = record { top_px = 0; left_px = 55; width = 45; height = 80 }

abbrev container : Dimensions
container = record { top_px = 0; left_px = 0; width = 100; height = 80 }

abbrev two_leafs : View
two_leafs = record {
  focused_node_id = some 7;
  leaf_order = [];
  leafs = 7 ∷ 8 ∷ [];
  rect = λ id. if id == 7 then some first_rect else some second_rect;
  bounding_rect = some container;
}

focuses_right : switch_node_focus_in_direction 10 right two_leafs ≡ focuses 8
unfolding switch_node_focus_in_direction walk advance shift find_node_at_point node_positions
    set_position get_position delete_position
focuses_right = refl

first_there : get_position (node_positions two_leafs.rect two_leafs.leafs []) 7 ≡ some first_rect
unfolding node_positions set_position get_position
first_there = refl

switch_node_focus_in_direction-Nearest_example :
    ((id' : NodeId) × (switch_node_focus_in_direction 10 right two_leafs ≡ focuses id')
      × (id' ≢ 7)
      × Nearest 10
          (bounds_of container)
          (delete_position (node_positions two_leafs.rect two_leafs.leafs []) 7)
          right
          (get_center first_rect)
          id')
    ⊎ ((switch_node_focus_in_direction 10 right two_leafs ≡ stays)
        × IsClear 10
            (bounds_of container)
            (delete_position (node_positions two_leafs.rect two_leafs.leafs []) 7)
            right
            (get_center first_rect))
switch_node_focus_in_direction-Nearest_example =
    switch_node_focus_in_direction-Nearest 10 right two_leafs 7 first_rect container (omega arith)
      refl (λ e. ground arith) first_there refl refl
