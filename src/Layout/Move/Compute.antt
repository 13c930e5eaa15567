-- ===== src/Layout/Move/Compute.antt =====
-- What `computeMoveNode` returns, and what `moveNode` makes of it.
use mathlib.Core.Path.{ap₂}
use testmerge.Base.{
  ◌≡◌, ◌≢◌, refl, ap, ◌∙◌, false, not, ◌&&◌, ◌||◌, none, some, ◌==◌, ==_refl, ==_ne, if-false,
  arith,
}
use testmerge.Layout.Types.{
  NodeId, DropDirection, center, LayoutNode, leaf, branch, attrs, LayoutTreeState,
}
use testmerge.Layout.Node.{find_node, find_parent}
use testmerge.Layout.Node.Find.{find_node-Within}
use testmerge.Layout.Tree.{threw}
use testmerge.Layout.Move.{
  nothing, move, drop_found, drop_at, finish_with, compute_in, compute_move_node, move_node,
}

find_node_root : (root : LayoutNode) → find_node root (attrs root).id ≡ some root
unfolding find_node
find_node_root (leaf a) = rw (==_refl a.id)
find_node_root (branch a cs) = rw (==_refl a.id)

-- `computeMoveNode` past its guards.
computed :
    (s : LayoutTreeState) (root : LayoutNode) (node_id moved_id : NodeId)
    (direction : DropDirection)
    → s.root_node ≡ some root
    → node_id ≢ 0
    → moved_id ≢ 0
    → node_id ≢ moved_id
    → compute_move_node s node_id moved_id (some direction)
      ≡ drop_found root (find_node root node_id) (find_node root moved_id) direction
unfolding compute_move_node
computed s root node_id moved_id direction has_root h k l =
    if-false {b = node_id == 0 || moved_id == 0} nothing _ (ground arith)
    ∙ (if-false nothing _ (==_ne node_id moved_id l)
        ∙ ap (compute_in node_id moved_id direction) has_root)

center_root :
    (root moved p : LayoutNode)
    → find_parent root (attrs moved).id ≡ some p
    → drop_at (record { root = root; node = root; moved = moved }) center ≡ move none
unfolding drop_at
center_root root moved p h =
    let same : (not ((attrs root).id == (attrs root).id)) ≡ false = rw (==_refl (attrs root).id) in
    if-false _ _ (ap (λ b. b && not ((attrs moved).id == (attrs root).id)) same)
    ∙ ap (λ o. finish_with (attrs moved).id o none) h

-- Dropping a node of the tree at the centre of the root computes a move action that has no
-- operation, and performing that action throws.
pub center_of_root_throws :
    (u v : NodeId) (s : LayoutTreeState) (root moved p : LayoutNode) (id : NodeId)
    → s.root_node ≡ some root
    → (attrs root).id ≢ 0
    → id ≢ 0
    → (attrs root).id ≢ id
    → find_node root id ≡ some moved
    → find_parent root id ≡ some p
    → (compute_move_node s (attrs root).id id (some center) ≡ move none)
      × (move_node u v s none ≡ threw s)
center_of_root_throws u v s root moved p id has_root h k l found parent = (
  computed s root (attrs root).id id center has_root h k l
      ∙ (ap₂ (λ x y. drop_found root x y center) (find_node_root root) found
          ∙ center_root root moved p (rw ((find_node-Within root id).0 moved found).0 parent)),
  unfold move_node in refl,
)
