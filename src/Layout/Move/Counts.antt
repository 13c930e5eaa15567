-- ===== src/Layout/Move/Counts.antt =====
-- Whether `moveNode` and `resizeNode` count as a change of the state.
use testmerge.Base.{refl, Option, none, some, List, [], ◌∷◌}
use testmerge.Layout.Types.{NodeId, LayoutNode, LayoutTreeState}
use testmerge.Layout.Tree.{Outcome, done}
use testmerge.Layout.Tree.Counts.{Counts, unchanged, counted, thrown, Counts-if}
use testmerge.Layout.Move.{
  MoveOperation, move_inserted, move_in, both_given, move_node, ResizeNodeOperation, Resized,
  finished, returned, failed, bad_resize, resize_result, resize_in, resize_node,
}

move_inserted-Counts :
    (s : LayoutTreeState) (root : LayoutNode) (op : MoveOperation) (root' : LayoutNode)
    (o : Option LayoutNode)
    → Counts s (move_inserted s root op root' o)
move_inserted-Counts s root op root' none = thrown refl
move_inserted-Counts s root op root' (some r) = counted refl

move_in-Counts :
    (u v : NodeId) (s : LayoutTreeState) (op : MoveOperation) (o : Option LayoutNode)
    → Counts s (move_in u v s op o)
move_in-Counts u v s op none = thrown refl
move_in-Counts u v s op (some root) = move_inserted-Counts s root op _ _

pub move_node-Counts :
    (u v : NodeId) (s : LayoutTreeState) (op : Option MoveOperation) → Counts s (move_node u v s op)
unfolding move_node
move_node-Counts u v s none = thrown refl
move_node-Counts u v s (some op) =
    Counts-if s (both_given op) unchanged (move_in-Counts u v s op s.root_node)

-- A resize that stops at an invalid operation changes the sizes before it, and does not count.
pub data CountsResize (s : LayoutTreeState) : Outcome → Type 0 where
  counts : {o : Outcome} → Counts s o → CountsResize s o
  resized : {root : LayoutNode} → CountsResize s (done (record s { root_node = some root }))

resize_result_counts : (s : LayoutTreeState) (r : Resized) → CountsResize s (resize_result s r)
resize_result_counts s (finished r) = counts (counted refl)
resize_result_counts s (returned r) = resized
resize_result_counts s (failed r) = counts (thrown refl)

resize_in_counts :
    (s : LayoutTreeState) (ops : List ResizeNodeOperation) (o : Option LayoutNode)
    → CountsResize s (resize_in s ops o)
resize_in_counts s [] none = counts (counted refl)
resize_in_counts s (r ∷ rs) none = counts (Counts-if s (bad_resize r) unchanged (thrown refl))
resize_in_counts s [] (some root) = resize_result_counts s _
resize_in_counts s (r ∷ rs) (some root) = resize_result_counts s _

pub resize_node_counts :
    (s : LayoutTreeState) (ops : List ResizeNodeOperation) → CountsResize s (resize_node s ops)
unfolding resize_node
resize_node_counts s ops = resize_in_counts s ops s.root_node
