-- ===== src/Layout/Model/Calls.antt =====
-- The methods of LayoutModel that go through treeReducer, and the actions on the pending action. An
-- error that is only logged leaves the model as it is.
use testmerge.Base.{ℕ, zero, suc, true, Option, none, some, List, [], ◌∷◌, ◌==◌, if◌then◌else◌}
use testmerge.Layout.Types.{NodeId, BlockId, DropDirection, LayoutNode, LeafOrderEntry}
use testmerge.Layout.Node.{find_node, ◌>>=◌}
use testmerge.Layout.Tree.{same_id}
use testmerge.Layout.Move.{Computed, nothing, swap, move, type_error, compute_move_node}
use testmerge.Layout.Reducer.{LayoutTreeAction}
use testmerge.Layout.Reducer
use testmerge.Layout.Model.{LayoutModel, focused_node_id, includes, act, after_action}

abbrev pub set_pending : Option LayoutTreeAction → LayoutModel → LayoutModel
set_pending a m = record m { pending_tree_action = a }

abbrev pub pending_or_kept : Option LayoutTreeAction → LayoutModel → LayoutModel
pending_or_kept none m = m
pending_or_kept (some a) m = set_pending (some a) m

-- SetPendingAction: without an action only a warning. treeReducer ends as for any action.
unfoldable pub set_pending_action : Option LayoutTreeAction → LayoutModel → Option LayoutModel
set_pending_action a m = after_action true (pending_or_kept a m)

-- ClearPendingAction
unfoldable pub clear_pending_action : LayoutModel → Option LayoutModel
clear_pending_action m = after_action true (set_pending none m)

abbrev pub pending_of : Computed → LayoutModel → Option LayoutModel
pending_of nothing m = after_action true (set_pending none m)
pending_of (swap a b) m = after_action true (set_pending (some (Reducer.swap a b)) m)
pending_of (move op) m = after_action true (set_pending (some (Reducer.move op)) m)
pending_of type_error m = none

-- ComputeMove
unfoldable pub compute_move :
    NodeId → NodeId → Option DropDirection → LayoutModel → Option LayoutModel
unfolding compute_move_node
compute_move node_id node_to_move_id direction m =
    pending_of (compute_move_node m.tree_state node_id node_to_move_id direction) m

abbrev pub commit_of : NodeId → NodeId → Option LayoutTreeAction → LayoutModel → Option LayoutModel
commit_of u v none m = after_action true m
commit_of u v (some a) m = do m' ← act u v true m a; after_action true (set_pending none m')

-- CommitPendingAction
unfoldable pub commit_pending_action : NodeId → NodeId → LayoutModel → Option LayoutModel
unfolding act
commit_pending_action u v m = commit_of u v m.pending_tree_action m

abbrev pub drop_of : NodeId → NodeId → Option LayoutTreeAction → LayoutModel → Option LayoutModel
drop_of u v none m = some m
drop_of u v (some a) m = commit_pending_action u v m

-- onDrop
unfoldable pub on_drop : NodeId → NodeId → LayoutModel → Option LayoutModel
unfolding commit_pending_action
on_drop u v m = drop_of u v m.pending_tree_action m

abbrev pub find_in : Option LayoutNode → NodeId → Option LayoutNode
find_in none id = none
find_in (some root) id = find_node root id

abbrev pub act_found : Option LayoutNode → LayoutTreeAction → LayoutModel → Option LayoutModel
act_found none a m = some m
act_found (some n) a m = act 0 0 true m a

-- focusNode; no action on an existing node draws an id.
unfoldable pub focus_node : NodeId → LayoutModel → Option LayoutModel
unfolding act find_node
focus_node id m =
    if same_id (focused_node_id m) (some id)
    then some m
    else act_found (find_in m.tree_state.root_node id) (Reducer.focus id) m

abbrev pub entry_at : List LeafOrderEntry → ℕ → Option LeafOrderEntry
entry_at [] i = none
entry_at (e ∷ es) zero = some e
entry_at (e ∷ es) (suc i) = entry_at es i

abbrev pub focus_entry : Option LeafOrderEntry → LayoutModel → Option LayoutModel
focus_entry none m = some m
focus_entry (some e) m = focus_node e.node_id m

-- switchNodeFocusByBlockNum; the numbers of blocks begin with 1.
unfoldable pub switch_node_focus_by_block_num : ℕ → LayoutModel → Option LayoutModel
unfolding focus_node
switch_node_focus_by_block_num zero m = some m
switch_node_focus_by_block_num (suc i) m = focus_entry (entry_at m.leaf_order i) m

unfoldable pub focus_first_node : LayoutModel → Option LayoutModel
unfolding focus_node
focus_first_node m = focus_entry (entry_at m.leaf_order 0) m

unfoldable pub magnify_node_toggle : NodeId → LayoutModel → Option LayoutModel
unfolding act
magnify_node_toggle id m = act 0 0 true m (Reducer.magnify id)

-- closeNode. What onNodeDelete does with the data of the node is left out.
unfoldable pub close_node : NodeId → LayoutModel → Option LayoutModel
unfolding act find_node
close_node id m = act_found (find_in m.tree_state.root_node id) (Reducer.delete id) m

abbrev pub close_focused : Option NodeId → LayoutModel → Option LayoutModel
close_focused none m = some m
close_focused (some id) m = close_node id m

unfoldable pub close_focused_node : LayoutModel → Option LayoutModel
unfolding close_node
close_focused_node m = close_focused (focused_node_id m) m

-- getNodeModel, by the key that it adds to the map.
unfoldable pub get_node_model : NodeId → LayoutModel → LayoutModel
get_node_model id m =
    if includes m.node_models id then m else record m { node_models = id ∷ m.node_models }

-- getNodeByBlockId
unfoldable pub get_node_by_block_id : List LeafOrderEntry → BlockId → Option NodeId
get_node_by_block_id [] block_id = none
get_node_by_block_id (e ∷ es) block_id =
    let rest = get_node_by_block_id es block_id in
    if e.block_id == block_id then some e.node_id else rest
