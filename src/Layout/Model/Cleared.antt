-- ===== src/Layout/Model/Cleared.antt =====
-- Clearing the tree of a layout in which a node has the focus.
use testmerge.Base.{
  ◌+◌, ◌≡◌, refl, ap, ◌∙◌, Bool, true, false, none, List, [], ◌∷◌, if-true, if-false, Bool-cases,
  inl, inr,
}
use testmerge.Layout.Types.{NodeId}
use testmerge.Layout.Tree.{same_id}
use testmerge.Layout.Reducer.{clear, tree_reducer}
use testmerge.Layout.Tree.{clear_tree}
use testmerge.Layout.Model.{
  LayoutModel, clean_stack, validate_focused_node, with_root, with_leaf_order, update_root,
  update_tree, sync_magnified, is_behind, act,
}
use testmerge.Layout.Model.Binds.{>>=-none}
use testmerge.Layout.Model.Backend.{FreshIds, LayoutAction, layout_action, layout_actions}
use testmerge.Layout.Model.Backend

clean_stack_nil : (ids : List NodeId) → clean_stack [] [] ids ≡ []
unfolding clean_stack
clean_stack_nil [] = refl
clean_stack_nil (id ∷ ids) = clean_stack_nil ids

-- No leaf is there to take the focus.
validate-none :
    (m : LayoutModel) (id : NodeId) (stack : List NodeId)
    → m.focused_stack ≡ id ∷ stack
    → m.tree_state.focused_node_id ≡ none
    → validate_focused_node m [] ≡ none
unfolding validate_focused_node
validate-none m id stack on_stack unfocused =
    simp (on_stack, unfocused, clean_stack_nil (id ∷ stack))

update_tree-none :
    (m : LayoutModel) (id : NodeId) (stack : List NodeId)
    → m.mounted ≡ true
    → m.tree_state.root_node ≡ none
    → m.focused_stack ≡ id ∷ stack
    → m.tree_state.focused_node_id ≡ none
    → update_tree m ≡ none
unfolding update_tree
update_tree-none m id stack mounted no_root on_stack unfocused =
    if-true _ _ mounted
    ∙ ap (update_root m) no_root
    ∙ >>=-none _ (validate-none (with_leaf_order (with_root m none) []) id stack on_stack unfocused)

-- The model that the action leaves to the update.
abbrev cleared : LayoutModel → LayoutModel
cleared m = record m {
  tree_state = record (m.tree_state) {
    root_node = none;
    leaf_order = none;
    focused_node_id = none;
    magnified_node_id = none;
    generation = m.tree_state.generation + 1;
  };
}

update-cleared :
    (m : LayoutModel) (id : NodeId) (stack : List NodeId)
    → m.mounted ≡ true
    → m.focused_stack ≡ id ∷ stack
    → update_tree (sync_magnified (cleared m)) ≡ none
update-cleared m id stack mounted on_stack = elim (Bool-cases (same_id m.magnified_id none)) [
  | inl e ↦
      ap update_tree (if-true _ _ e)
      ∙ update_tree-none (cleared m) id stack mounted refl on_stack refl
  | inr e ↦
      ap update_tree (if-false _ _ e)
      ∙ update_tree-none
          (record (cleared m) { last_magnified_id = m.magnified_id; magnified_id = none }) id stack
          mounted refl on_stack refl
]

act-clear :
    (u v : NodeId) (set_state : Bool) (m : LayoutModel) (id : NodeId) (stack : List NodeId)
    → m.mounted ≡ true
    → m.focused_stack ≡ id ∷ stack
    → is_behind m.last_generation (m.tree_state.generation + 1) ≡ true
    → act u v set_state m clear ≡ none
unfolding act tree_reducer clear_tree
act-clear u v set_state m id stack mounted on_stack behind =
    if-true _ _ behind ∙ >>=-none _ (update-cleared m id stack mounted on_stack)

-- With the layout on screen, a node on the focus stack, and a next generation ahead of the last one
-- that was set upstream: clearing the tree throws while it looks for a leaf to focus, and so does the
-- server's action, whatever actions follow it.
pub clear_throws :
    (u v : NodeId) (set_state : Bool) (m : LayoutModel) (id : NodeId) (stack : List NodeId)
    (ids : FreshIds) (actions : List (FreshIds × LayoutAction))
    → m.mounted ≡ true
    → m.focused_stack ≡ id ∷ stack
    → is_behind m.last_generation (m.tree_state.generation + 1) ≡ true
    → (act u v set_state m clear ≡ none)
      × (layout_actions ((ids, Backend.clear_tree) ∷ actions) m ≡ none)
unfolding layout_actions
clear_throws u v set_state m id stack ids actions mounted on_stack behind = (
  act-clear u v set_state m id stack mounted on_stack behind,
  >>=-none _ (act-clear ids.first ids.second false m id stack mounted on_stack behind),
)
