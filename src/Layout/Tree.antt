-- ===== src/Layout/Tree.antt =====
-- frontend/layout/lib/layoutTree.ts: the actions on the state of a layout tree. An object of the
-- tree is the node of its id: what the code writes through a reference to it, `replace_node` writes
-- at that id. The console messages are left out.
pub mod Replace
pub mod Counts
pub mod Delete
pub mod Insert
pub mod Exchange
pub mod Swap
use testmerge.Base.{ℕ, ◌+◌, Bool, true, false, Option, none, some, List, ◌==◌, ◌||◌, if◌then◌else◌}
use testmerge.Base.Int.{ℤ, pos, ◌+ℤ◌}
use testmerge.Layout.Types.{
  NodeId, LayoutNode, Nodes, leaf, branch, nil, cons, attrs, set_attrs, LayoutTreeState,
}
use testmerge.Layout.Node.{add_child_at, remove_child, find_parent}
use testmerge.Layout.Locate.{
  InsertLocation, find_next_insert_location, Located, located, unlocated, type_error,
  find_insert_location_from_index_arr,
}

-- The state after a call that returns, or as a throw leaves it.
pub data Outcome : Type 0 where
  done : LayoutTreeState → Outcome
  threw : LayoutTreeState → Outcome

abbrev pub default_max_children : ℕ
default_max_children = 5

unfoldable mutual
  pub replace_node : NodeId → LayoutNode → LayoutNode → LayoutNode
  replace_node id new (leaf a) = if a.id == id then new else leaf a
  replace_node id new (branch a cs) = if a.id == id then new else branch a (replace_in id new cs)

  pub replace_in : NodeId → LayoutNode → Nodes → Nodes
  replace_in id new nil = nil
  replace_in id new (cons c cs) = cons (replace_node id new c) (replace_in id new cs)

abbrev pub with_size : ℤ → LayoutNode → LayoutNode
with_size size node = set_attrs node (record (attrs node) { size = size })

abbrev pub same_id : Option NodeId → Option NodeId → Bool
same_id none none = true
same_id (some a) (some b) = a == b
same_id _ _ = false

abbrev pub bump : LayoutTreeState → LayoutTreeState
bump s = record s { generation = s.generation + 1 }

-- The fields `node`, `magnified` and `focused` of the insert actions.
pub record InsertNodeOperation : Type 0 where
  pub node : LayoutNode
  pub magnified : Bool
  pub focused : Bool

abbrev pub mark_magnified : InsertNodeOperation → LayoutTreeState → LayoutTreeState
mark_magnified op s =
    if op.magnified
    then record s {
      magnified_node_id = some (attrs op.node).id;
      focused_node_id = some (attrs op.node).id;
    }
    else s

abbrev pub mark_focused : InsertNodeOperation → LayoutTreeState → LayoutTreeState
mark_focused op s = if op.focused then record s { focused_node_id = some (attrs op.node).id } else s

-- `addChildAt(at, index, op.node)` on a node of the tree, and the rest of both insert actions.
abbrev write_back :
    LayoutTreeState → LayoutNode → InsertNodeOperation → LayoutNode → Option LayoutNode → Outcome
write_back s root op at none = threw s
write_back s root op at (some at') = done (
    bump (
      mark_focused op
        (mark_magnified op (record s { root_node = some (replace_node (attrs at).id at' root) }))))

abbrev insert_below :
    NodeId → NodeId → LayoutTreeState → LayoutNode → InsertNodeOperation → LayoutNode → ℤ → Outcome
insert_below u v s root op at index =
    write_back s root op at (add_child_at u v at index (cons op.node nil))

abbrev insert_root : LayoutTreeState → InsertNodeOperation → Outcome
insert_root s op = done (bump (mark_focused op (record s { root_node = some op.node })))

-- `findNextInsertLocation` may leave the node of the place undefined, of which `addChildAt` throws.
abbrev insert_next :
    NodeId
    → NodeId
    → LayoutTreeState
    → LayoutNode
    → InsertNodeOperation
    → Option InsertLocation
    → Outcome
insert_next u v s root op none = threw s
insert_next u v s root op (some loc) = insert_below u v s root op loc.node (pos loc.index)

abbrev insert_in :
    NodeId → NodeId → LayoutTreeState → InsertNodeOperation → Option LayoutNode → Outcome
insert_in u v s op none = insert_root s op
insert_in u v s op (some root) =
    insert_next u v s root op (find_next_insert_location root default_max_children)

unfoldable pub insert_node : NodeId → NodeId → LayoutTreeState → InsertNodeOperation → Outcome
unfolding replace_node add_child_at find_next_insert_location
insert_node u v s op = insert_in u v s op s.root_node

abbrev insert_located :
    NodeId → NodeId → LayoutTreeState → LayoutNode → InsertNodeOperation → Located → Outcome
insert_located u v s root op unlocated = done s
insert_located u v s root op type_error = threw s
insert_located u v s root op (located node index) = insert_below u v s root op node (index +ℤ pos 1)

abbrev insert_at_path :
    NodeId → NodeId → LayoutTreeState → InsertNodeOperation → List ℤ → Option LayoutNode → Outcome
insert_at_path u v s op index_arr none = insert_root s op
insert_at_path u v s op index_arr (some root) =
    insert_located u v s root op (find_insert_location_from_index_arr root index_arr)

unfoldable pub insert_node_at_index :
    NodeId → NodeId → LayoutTreeState → InsertNodeOperation → List ℤ → Outcome
unfolding replace_node add_child_at find_insert_location_from_index_arr
insert_node_at_index u v s op index_arr = insert_at_path u v s op index_arr s.root_node

-- `parent.children.find((child) => child.id === id)`
abbrev pub find_child : Nodes → NodeId → Option LayoutNode
find_child nil id = none
find_child (cons c cs) id = if (attrs c).id == id then some c else find_child cs id

abbrev pub child_of : LayoutNode → NodeId → Option LayoutNode
child_of (leaf a) id = none
child_of (branch a cs) id = find_child cs id

-- Both nodes change places at once; a node that lies in the other goes with it.
unfoldable mutual
  pub exchange : NodeId → LayoutNode → NodeId → LayoutNode → LayoutNode → LayoutNode
  exchange id1 n1 id2 n2 (leaf a) = if a.id == id1 then n2 else if a.id == id2 then n1 else leaf a
  exchange id1 n1 id2 n2 (branch a cs) =
      if a.id == id1
      then n2
      else if a.id == id2
      then n1
      else branch a (exchange_in id1 n1 id2 n2 cs)

  pub exchange_in : NodeId → LayoutNode → NodeId → LayoutNode → Nodes → Nodes
  exchange_in id1 n1 id2 n2 nil = nil
  exchange_in id1 n1 id2 n2 (cons c cs) =
      cons (exchange id1 n1 id2 n2 c) (exchange_in id1 n1 id2 n2 cs)

abbrev swap_found : LayoutTreeState → LayoutNode → Option LayoutNode → Option LayoutNode → Outcome
swap_found s root (some n1) (some n2) = done (
    bump (record s {
      root_node = some (
          exchange (attrs n1).id (with_size (attrs n2).size n1) (attrs n2).id
            (with_size (attrs n1).size n2) root);
    }))
swap_found s root _ _ = threw s

abbrev child_below : LayoutNode → NodeId → Option LayoutNode
child_below root id = elim (find_parent root id) [ none ↦ none | some p ↦ child_of p id ]

-- Without a root the code throws at `layoutState.rootNode.id`.
abbrev swap_in : LayoutTreeState → NodeId → NodeId → Option LayoutNode → Outcome
swap_in s node1_id node2_id none = threw s
swap_in s node1_id node2_id (some root) =
    if (attrs root).id == node1_id || (attrs root).id == node2_id
    then done s
    else if node1_id == node2_id
    then done s
    else swap_found s root (child_below root node1_id) (child_below root node2_id)

unfoldable pub swap_node : LayoutTreeState → NodeId → NodeId → Outcome
unfolding exchange
swap_node s node1_id node2_id =
    if node1_id == 0 || node2_id == 0 then done s else swap_in s node1_id node2_id s.root_node

abbrev unfocus : NodeId → LayoutTreeState → LayoutTreeState
unfocus id s =
    if same_id s.focused_node_id (some id) then record s { focused_node_id = none } else s

abbrev delete_child : LayoutTreeState → LayoutNode → NodeId → Option LayoutNode → Outcome
delete_child s root node_id none = done (bump s)
delete_child s root node_id (some p) =
    let root' = replace_node (attrs p).id (remove_child p node_id (pos 0)) root in
    done (bump (unfocus node_id (record s { root_node = some root' })))

abbrev delete_in : LayoutTreeState → NodeId → Option LayoutNode → Outcome
delete_in s node_id none = done s
delete_in s node_id (some root) =
    if (attrs root).id == node_id
    then done (bump (record s { root_node = none }))
    else delete_child s root node_id (find_parent root node_id)

unfoldable pub delete_node : LayoutTreeState → NodeId → Outcome
unfolding replace_node
delete_node s node_id = if node_id == 0 then done s else delete_in s node_id s.root_node

unfoldable pub focus_node : LayoutTreeState → NodeId → Outcome
focus_node s node_id =
    if node_id == 0 then done s else done (bump (record s { focused_node_id = some node_id }))

abbrev magnify_in : LayoutTreeState → NodeId → Option LayoutNode → Outcome
magnify_in s node_id none = threw s
magnify_in s node_id (some root) =
    if (attrs root).id == node_id
    then done s
    else if same_id s.magnified_node_id (some node_id)
    then done (bump (record s { magnified_node_id = none }))
    else done (bump (record s { magnified_node_id = some node_id; focused_node_id = some node_id }))

unfoldable pub magnify_node_toggle : LayoutTreeState → NodeId → Outcome
magnify_node_toggle s node_id = if node_id == 0 then done s else magnify_in s node_id s.root_node

unfoldable pub clear_tree : LayoutTreeState → Outcome
clear_tree s = done (
    bump (record s {
      root_node = none;
      leaf_order = none;
      focused_node_id = none;
      magnified_node_id = none;
    }))
