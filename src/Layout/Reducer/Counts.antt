-- ===== src/Layout/Reducer/Counts.antt =====
-- Which actions count: the generation of the state, by which the layout model sees a change.
use testmerge.Layout.Types.{NodeId, LayoutTreeState}
use testmerge.Layout.Tree.{Outcome}
use testmerge.Layout.Tree.Counts.{
  Counts, insert_node-Counts, insert_node_at_index-Counts, swap_node-Counts, delete_node-Counts,
  focus_node-Counts, magnify-Counts, clear_tree-Counts,
}
use testmerge.Layout.Move.Counts.{move_node-Counts, CountsResize, resize_node_counts}
use testmerge.Layout.Reducer.{
  LayoutTreeAction, move, insert, insert_at_index, delete, swap, resize, focus, magnify, clear,
  tree_reducer,
}

abbrev pub CountsAs : LayoutTreeState → LayoutTreeAction → Outcome → Type 0
CountsAs s (resize ops) o = CountsResize s o
CountsAs s _ o = Counts s o

-- An action that returns leaves the state exactly as it was, or raises the generation by one; one
-- that throws does not raise it. A resize may besides return with another tree and the old
-- generation.
pub tree_reducer-CountsAs :
    (u v : NodeId) (s : LayoutTreeState) (a : LayoutTreeAction)
    → CountsAs s a (tree_reducer u v s a)
unfolding tree_reducer
tree_reducer-CountsAs u v s (resize ops) = resize_node_counts s ops
tree_reducer-CountsAs u v s (move op) = move_node-Counts u v s op
tree_reducer-CountsAs u v s (insert op) = insert_node-Counts s u v op
tree_reducer-CountsAs u v s (insert_at_index op is) = insert_node_at_index-Counts s u v op is
tree_reducer-CountsAs u v s (delete id) = delete_node-Counts s id
tree_reducer-CountsAs u v s (swap a b) = swap_node-Counts s a b
tree_reducer-CountsAs u v s (focus id) = focus_node-Counts s id
tree_reducer-CountsAs u v s (magnify id) = magnify-Counts s id
tree_reducer-CountsAs u v s clear = clear_tree-Counts s
