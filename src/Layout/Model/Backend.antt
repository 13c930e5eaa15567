-- ===== src/Layout/Model/Backend.antt =====
-- onTreeStateAtomUpdated of frontend/layout/lib/layoutModel.ts: a new tree state from upstream and the
-- actions that the server has put on it. The callbacks of closed nodes, which the code waits for,
-- are taken to end at once. Each action has the ids that it may draw.
use testmerge.Base.{
  Bool, true, false, ◌||◌, Option, none, some, List, [], ◌∷◌, ltb, ◌==◌, if◌then◌else◌,
}
use testmerge.Base.Int.{ℤ}
use testmerge.Layout.Types.{NodeId, BlockId, row, LayoutNode, default_node_size, LayoutTreeState}
use testmerge.Layout.Node.{new_layout_node, ◌>>=◌}
use testmerge.Layout.Tree.{InsertNodeOperation}
use testmerge.Layout.Reducer.{insert, insert_at_index, clear}
use testmerge.Layout.Model.{LayoutModel, act, update_tree, set_tree_state_atom}
use testmerge.Layout.Model.Calls.{close_node, get_node_by_block_id}

pub data LayoutAction : Type 0 where
  insert_node : BlockId → Bool → Bool → LayoutAction
  delete_node : BlockId → LayoutAction
  insert_node_at_index : BlockId → Option ℤ → Option (List ℤ) → Bool → Bool → LayoutAction
  clear_tree : LayoutAction
  unsupported : LayoutAction

-- The new node's id, then what addChildAt may draw.
pub record FreshIds : Type 0 where
  pub node : NodeId
  pub first : NodeId
  pub second : NodeId

abbrev size_or_default : Option ℤ → ℤ
size_or_default none = default_node_size
size_or_default (some size) = size

abbrev node_of : NodeId → Option ℤ → BlockId → Option LayoutNode
node_of id size block_id =
    new_layout_node id row (size_or_default size) none (some (record { block_id = block_id }))

abbrev operation : Bool → Bool → LayoutNode → InsertNodeOperation
operation magnified focused node = record { node = node; magnified = magnified; focused = focused }

abbrev close_found : Option NodeId → LayoutModel → Option LayoutModel
close_found none m = some m
close_found (some id) m = close_node id m

unfoldable pub layout_action : FreshIds → LayoutAction → LayoutModel → Option LayoutModel
unfolding act new_layout_node close_node get_node_by_block_id
layout_action ids (insert_node block_id magnified focused) m = do
  node ← node_of ids.node none block_id
  act ids.first ids.second false m (insert (operation magnified focused node))
layout_action ids (delete_node block_id) m = close_found (get_node_by_block_id m.leafs block_id) m
layout_action ids (insert_node_at_index block_id size none magnified focused) m = some m
layout_action ids (insert_node_at_index block_id size (some index_arr) magnified focused) m = do
  node ← node_of ids.node size block_id
  act ids.first ids.second false m (insert_at_index (operation magnified focused node) index_arr)
layout_action ids clear_tree m = act ids.first ids.second false m clear
layout_action ids unsupported m = some m

unfoldable pub layout_actions : List (FreshIds × LayoutAction) → LayoutModel → Option LayoutModel
unfolding layout_action
layout_actions [] m = some m
layout_actions ((ids, a) ∷ rest) m = do m' ← layout_action ids a m; layout_actions rest m'

abbrev has_root : Option LayoutNode → Bool
has_root none = false
has_root (some root) = true

abbrev pub is_due : Bool → LayoutTreeState → List (FreshIds × LayoutAction) → LayoutModel → Bool
is_due force new (a ∷ rest) m = true
is_due true new [] m = true
is_due false new [] m =
    if has_root m.tree_state.root_node
    then m.tree_state.generation == 0 || ltb m.tree_state.generation new.generation
    else true

abbrev take_over : Bool → List (FreshIds × LayoutAction) → LayoutModel → Option LayoutModel
take_over force [] m = do m' ← update_tree m; some (set_tree_state_atom force m')
take_over force (a ∷ rest) m = do
  m' ← layout_actions (a ∷ rest) m
  some (set_tree_state_atom true m')

unfoldable pub on_tree_state_atom_updated :
    Bool → LayoutTreeState → List (FreshIds × LayoutAction) → LayoutModel → Option LayoutModel
unfolding layout_actions update_tree
on_tree_state_atom_updated force new actions m =
    if is_due force new actions m
    then take_over force actions (record m { tree_state = new })
    else some m
