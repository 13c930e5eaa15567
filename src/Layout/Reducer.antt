-- ===== src/Layout/Reducer.antt =====
-- `treeReducer` of frontend/layout/lib/layoutModel.ts, as far as it dispatches the actions on the
-- tree state. What it does besides stands in Layout/Model.
pub mod Counts
use testmerge.Base.{Option, List}
use testmerge.Base.Int.{ℤ}
use testmerge.Layout.Types.{NodeId, LayoutTreeState}
use testmerge.Layout.Tree.{
  Outcome, InsertNodeOperation, insert_node, insert_node_at_index, delete_node, swap_node,
  focus_node, magnify_node_toggle, clear_tree,
}
use testmerge.Layout.Move.{MoveOperation, move_node, ResizeNodeOperation, resize_node}

pub data LayoutTreeAction : Type 0 where
  move : Option MoveOperation → LayoutTreeAction
  insert : InsertNodeOperation → LayoutTreeAction
  insert_at_index : InsertNodeOperation → List ℤ → LayoutTreeAction
  delete : NodeId → LayoutTreeAction
  swap : NodeId → NodeId → LayoutTreeAction
  resize : List ResizeNodeOperation → LayoutTreeAction
  focus : NodeId → LayoutTreeAction
  magnify : NodeId → LayoutTreeAction
  clear : LayoutTreeAction

unfoldable pub tree_reducer : NodeId → NodeId → LayoutTreeState → LayoutTreeAction → Outcome
unfolding move_node insert_node insert_node_at_index delete_node swap_node resize_node focus_node
    magnify_node_toggle clear_tree
tree_reducer u v s (move op) = move_node u v s op
tree_reducer u v s (insert op) = insert_node u v s op
tree_reducer u v s (insert_at_index op index_arr) = insert_node_at_index u v s op index_arr
tree_reducer u v s (delete id) = delete_node s id
tree_reducer u v s (swap node1_id node2_id) = swap_node s node1_id node2_id
tree_reducer u v s (resize ops) = resize_node s ops
tree_reducer u v s (focus id) = focus_node s id
tree_reducer u v s (magnify id) = magnify_node_toggle s id
tree_reducer u v s clear = clear_tree s
