-- ===== src/Layout/Move.antt =====
-- `computeMoveNode`, `moveNode` and `resizeNode` of frontend/layout/lib/layoutTree.ts. Between its
-- insertion and its removal the moved node stands in the tree twice, as one object: what the code
-- writes to it is written at both places.
use testmerge.Base.{
  ℕ, ◌+◌, Bool, true, false, not, ◌&&◌, ◌||◌, Option, none, some, List, [], ◌∷◌, ◌==◌,
  if◌then◌else◌,
}
pub mod Counts
pub mod Compute
use testmerge.Base.Int.{ℤ, pos, negsuc, ◌+ℤ◌, ltb_ℤ, leb_ℤ}
use testmerge.Layout.Types.{
  NodeId, FlexDirection, row, column, DropDirection, top, right, bottom, left, outer_top,
  outer_right, outer_bottom, outer_left, center, LayoutNode, Nodes, leaf, branch, nil, cons, attrs,
  default_node_size, flex_eq, LayoutTreeState,
}
use testmerge.Layout.Node.{
  adopt, with_array, add_child_at, remove_child, find_node, find_parent, ◌>>=◌,
}
use testmerge.Layout.Tree.{Outcome, done, threw, replace_node, with_size, same_id, bump}

-- `insert_at_root` is false where the source leaves it undefined.
pub record MoveOperation : Type 0 where
  pub index : ℤ
  pub parent_id : Option NodeId
  pub insert_at_root : Bool
  pub node : LayoutNode

-- What `computeMoveNode` returns: `undefined`, a swap, or a move; `move none` is the move action
-- with none of the operation's fields, `{ type: Move, ...undefined }`.
pub data Computed : Type 0 where
  nothing : Computed
  swap : NodeId → NodeId → Computed
  move : Option MoveOperation → Computed
  type_error : Computed

-- children.findIndex((child) => child.id === id)
abbrev pub find_index_from : ℕ → Nodes → NodeId → ℤ
find_index_from i nil id = negsuc 0
find_index_from i (cons c cs) id =
    if (attrs c).id == id then pos i else find_index_from (i + 1) cs id

unfoldable pub index_of : LayoutNode → NodeId → ℤ
index_of (leaf a) id = negsuc 0
index_of (branch a cs) id = find_index_from 0 cs id

-- The variables that the closures of `computeMoveNode` read.
record Drop : Type 0 where
  root : LayoutNode
  node : LayoutNode
  moved : LayoutNode

abbrev into : Drop → NodeId → ℤ → Option MoveOperation
into d parent_id index =
    some
      (record { index = index; parent_id = some parent_id; insert_at_root = false; node = d.moved })

abbrev at_root : Drop → Bool → ℤ → Option MoveOperation
at_root d is_root index =
    if is_root
    then some (record { index = index; parent_id = none; insert_at_root = true; node = d.moved })
    else none

-- The cases Top (column, may insert at the root, 0), Bottom (column, may, 1), Left (row, may not, 0)
-- and Right (row, may not, 1).
drop_beside : Drop → FlexDirection → Bool → ℕ → Option MoveOperation
unfolding find_parent index_of
drop_beside d axis may_root offset =
    let id = (attrs d.node).id in
    if flex_eq (attrs d.node).flex_direction axis
    then into d id (pos offset)
    else elim (find_parent d.root id) [
      | none ↦ at_root d (may_root && (attrs d.root).id == id) (pos offset)
      | some p ↦ into d (attrs p).id (index_of p id +ℤ pos offset)
    ]

abbrev same_int : ℤ → ℤ → Bool
same_int (pos a) (pos b) = a == b
same_int (negsuc a) (negsuc b) = a == b
same_int _ _ = false

abbrev index_differs : ℤ → Option ℤ → Bool
index_differs i none = true
index_differs i (some j) = not (same_int i j) && not (same_int i (j +ℤ pos 1))

-- The test that ends the function: whether the operation would change the tree. `parent` is the
-- parent of the node that is moved.
abbrev finish_with : NodeId → Option LayoutNode → Option MoveOperation → Computed
finish_with id none none = type_error
finish_with id (some p) none = move none
finish_with id none (some o) =
    if not (same_id o.parent_id none) || index_differs o.index none then move (some o) else nothing
finish_with id (some p) (some o) =
    if not (same_id o.parent_id (some (attrs p).id)) || index_differs o.index (some (index_of p id))
    then move (some o)
    else nothing

finish : Drop → Option MoveOperation → Computed
unfolding find_parent index_of
finish d op = finish_with (attrs d.moved).id (find_parent d.root (attrs d.moved).id) op

-- The cases OuterTop, OuterBottom, OuterLeft and OuterRight, which fall through to the inner ones.
-- Of a node with no parent the code throws at `parent().id`.
drop_outside : Drop → FlexDirection → Bool → ℕ → Computed
unfolding drop_beside finish
drop_outside d axis may_root offset =
    let beside = finish d (drop_beside d axis may_root offset) in
    if flex_eq (attrs d.node).flex_direction axis
    then elim (find_parent d.root (attrs d.node).id) [
      | none ↦ type_error
      | some p ↦ elim (find_parent d.root (attrs p).id) [
        | none ↦ beside
        | some g ↦ finish d (into d (attrs g).id (index_of g (attrs p).id +ℤ pos offset))
      ]
    ]
    else beside

drop_at : Drop → DropDirection → Computed
unfolding drop_outside
drop_at d top = finish d (drop_beside d column true 0)
drop_at d bottom = finish d (drop_beside d column true 1)
drop_at d left = finish d (drop_beside d row false 0)
drop_at d right = finish d (drop_beside d row false 1)
drop_at d outer_top = drop_outside d column true 0
drop_at d outer_bottom = drop_outside d column true 1
drop_at d outer_left = drop_outside d row false 0
drop_at d outer_right = drop_outside d row false 1
drop_at d center =
    let root_id = (attrs d.root).id in
    if not ((attrs d.node).id == root_id) && not ((attrs d.moved).id == root_id)
    then swap (attrs d.node).id (attrs d.moved).id
    else finish d none

abbrev drop_found : LayoutNode → Option LayoutNode → Option LayoutNode → DropDirection → Computed
drop_found root (some node) (some moved) direction =
    drop_at (record { root = root; node = node; moved = moved }) direction
drop_found root _ _ direction = nothing

abbrev compute_in : NodeId → NodeId → DropDirection → Option LayoutNode → Computed
compute_in node_id node_to_move_id direction none = type_error
compute_in node_id node_to_move_id direction (some root) =
    drop_found root (find_node root node_id) (find_node root node_to_move_id) direction

unfoldable pub compute_move_node :
    LayoutTreeState → NodeId → NodeId → Option DropDirection → Computed
unfolding drop_at find_node
compute_move_node s node_id node_to_move_id none = nothing
compute_move_node s node_id node_to_move_id (some direction) =
    if node_id == 0 || node_to_move_id == 0
    then nothing
    else if node_id == node_to_move_id
    then nothing
    else compute_in node_id node_to_move_id direction s.root_node

-- Where the search for the old place starts: behind the new place, if that comes first.
abbrev starting_index : Option LayoutNode → Option LayoutNode → MoveOperation → ℤ
starting_index (some old) (some p) op =
    let cur = index_of p (attrs op.node).id in
    if (attrs old).id == (attrs p).id && leb_ℤ op.index cur then op.index +ℤ pos 1 else pos 0
starting_index _ _ op = pos 0

abbrev moved_node : Option LayoutNode → Option LayoutNode → LayoutNode → LayoutNode
moved_node (some old) (some p) node =
    if (attrs old).id == (attrs p).id then node else with_size default_node_size node
moved_node _ _ node = node

abbrev write : LayoutNode → LayoutNode → LayoutNode
write node root = replace_node (attrs node).id node root

-- `addChildAt(at, index, node)` on a node of the tree, which turns `node` wherever it stands.
abbrev insert_into : NodeId → NodeId → LayoutNode → LayoutNode → ℤ → LayoutNode → Option LayoutNode
insert_into u v root at index node = do
  let turned = adopt (attrs at).flex_direction node
  at' ← add_child_at u v (write turned at) index (cons node nil)
  some (replace_node (attrs at).id at' (write turned root))

-- An operation with neither a parent that is found nor `insertAtRoot` is a throw.
insert_moved : NodeId → NodeId → LayoutNode → MoveOperation → LayoutNode → Option LayoutNode
unfolding add_child_at find_node replace_node adopt with_array
insert_moved u v root op node = elim (op.parent_id >>= find_node root) [
  | some p ↦ insert_into u v root p op.index node
  | none ↦
      if op.insert_at_root
      then (do
        root' ← with_array u v root
        add_child_at u v (write (adopt (attrs root').flex_direction node) root') op.index
            (cons node nil))
      else none
]

abbrev remove_old : Option LayoutNode → NodeId → ℤ → LayoutNode → LayoutNode
remove_old none id start root = root
remove_old (some old) id start root = elim (find_node root (attrs old).id) [
  | none ↦ root
  | some old' ↦ replace_node (attrs old).id (remove_child old' id start) root
]

abbrev or_given : Option LayoutNode → LayoutNode → LayoutNode
or_given none given = given
or_given (some found) given = found

abbrev move_inserted :
    LayoutTreeState → LayoutNode → MoveOperation → LayoutNode → Option LayoutNode → Outcome
move_inserted s root op root' none = threw (record s { root_node = some root' })
move_inserted s root op root' (some root'') =
    let parent = op.parent_id >>= find_node root in
    let old = find_parent root (attrs op.node).id in
    let start = starting_index old parent op in
    done (bump (record s { root_node = some (remove_old old (attrs op.node).id start root'') }))

abbrev move_in : NodeId → NodeId → LayoutTreeState → MoveOperation → Option LayoutNode → Outcome
move_in u v s op none = threw s
move_in u v s op (some root) =
    let id = (attrs op.node).id in
    let parent = op.parent_id >>= find_node root in
    let node = moved_node (find_parent root id) parent (or_given (find_node root id) op.node) in
    let root' = write node root in move_inserted s root op root' (insert_moved u v root' op node)

abbrev both_given : MoveOperation → Bool
both_given op = elim op.parent_id [ none ↦ false | some p ↦ not (p == 0) && op.insert_at_root ]

-- `none` is the action without an operation, of which the code throws at `action.node.id`.
unfoldable pub move_node : NodeId → NodeId → LayoutTreeState → Option MoveOperation → Outcome
unfolding insert_moved find_parent index_of remove_child
move_node u v s none = threw s
move_node u v s (some op) = if both_given op then done s else move_in u v s op s.root_node

pub record ResizeNodeOperation : Type 0 where
  pub node_id : NodeId
  pub size : ℤ

-- The loop of `resizeNode`: at its end, at the early return, or at the throw for a missing node,
-- with the tree as it is by then.
pub data Resized : Type 0 where
  finished : LayoutNode → Resized
  returned : LayoutNode → Resized
  failed : LayoutNode → Resized

abbrev pub bad_resize : ResizeNodeOperation → Bool
bad_resize r = r.node_id == 0 || ltb_ℤ r.size (pos 0) || ltb_ℤ (pos 100) r.size

unfoldable pub resize_loop : LayoutNode → List ResizeNodeOperation → Resized
unfolding find_node replace_node
resize_loop root [] = finished root
resize_loop root (r ∷ rs) =
    if bad_resize r then returned root else elim (find_node root r.node_id) [
      | none ↦ failed root
      | some node ↦ resize_loop (replace_node r.node_id (with_size r.size node) root) rs
    ]

abbrev resize_result : LayoutTreeState → Resized → Outcome
resize_result s (finished r) = done (bump (record s { root_node = some r }))
resize_result s (returned r) = done (record s { root_node = some r })
resize_result s (failed r) = threw (record s { root_node = some r })

-- Without a root the first valid operation throws, and an invalid one returns.
abbrev resize_in : LayoutTreeState → List ResizeNodeOperation → Option LayoutNode → Outcome
resize_in s [] none = done (bump s)
resize_in s (r ∷ rs) none = if bad_resize r then done s else threw s
resize_in s ops (some root) = resize_result s (resize_loop root ops)

unfoldable pub resize_node : LayoutTreeState → List ResizeNodeOperation → Outcome
unfolding resize_loop
resize_node s ops = resize_in s ops s.root_node
