-- ===== src/Layout/Tree/Counts.antt =====
-- Which actions count: the generation of the state, by which the layout model sees a change.
use testmerge.Base.{
  ◌+◌, ◌≡◌, refl, ap, Bool, true, false, Option, none, some, List, arith, ◌==◌, ◌||◌, if◌then◌else◌,
}
use testmerge.Base.Int.{ℤ}
use testmerge.Layout.Types.{NodeId, LayoutNode, attrs, LayoutTreeState}
use testmerge.Layout.Locate.{InsertLocation, Located, located, unlocated, type_error}
use testmerge.Layout.Tree.{
  Outcome, done, threw, InsertNodeOperation, mark_magnified, mark_focused, write_back, insert_root,
  insert_next, insert_in, insert_node, insert_located, insert_at_path, insert_node_at_index,
  swap_found, child_below, swap_in, swap_node, delete_child, delete_in, delete_node, focus_node,
  magnify_in, magnify_node_toggle, clear_tree, same_id,
}

-- The call left the state as it was, or counted as one change; where it throws, it has not counted.
pub data Counts (s : LayoutTreeState) : Outcome → Type 0 where
  unchanged : Counts s (done s)
  counted : {s' : LayoutTreeState} → s'.generation ≡ s.generation + 1 → Counts s (done s')
  thrown : {s' : LayoutTreeState} → s'.generation ≡ s.generation → Counts s (threw s')

module _ (s : LayoutTreeState) where
  pub Counts-if :
      (b : Bool) {x y : Outcome} → Counts s x → Counts s y → Counts s (if b then x else y)
  Counts-if true h k = h
  Counts-if false h k = k

  unmarked :
      (op : InsertNodeOperation) (t : LayoutTreeState)
      → (mark_focused op (mark_magnified op t)).generation ≡ t.generation
  unmarked op t = ground arith

  write_back-Counts :
      (root : LayoutNode) (op : InsertNodeOperation) (at : LayoutNode) (o : Option LayoutNode)
      → Counts s (write_back s root op at o)
  write_back-Counts root op at none = thrown refl
  write_back-Counts root op at (some at') = counted (ap (λ k. k + 1) (unmarked op _))

  insert_root-Counts : (op : InsertNodeOperation) → Counts s (insert_root s op)
  insert_root-Counts op = counted (ground arith)

  module _ (u v : NodeId) (op : InsertNodeOperation) where
    insert_next-Counts :
        (root : LayoutNode) (o : Option InsertLocation) → Counts s (insert_next u v s root op o)
    insert_next-Counts root none = thrown refl
    insert_next-Counts root (some l) = write_back-Counts root op l.node _

    insert_in-Counts : (o : Option LayoutNode) → Counts s (insert_in u v s op o)
    insert_in-Counts none = insert_root-Counts op
    insert_in-Counts (some root) = insert_next-Counts root _

    pub insert_node-Counts : Counts s (insert_node u v s op)
    unfolding insert_node
    insert_node-Counts = insert_in-Counts s.root_node

    insert_located-Counts :
        (root : LayoutNode) (l : Located) → Counts s (insert_located u v s root op l)
    insert_located-Counts root unlocated = unchanged
    insert_located-Counts root type_error = thrown refl
    insert_located-Counts root (located node index) = write_back-Counts root op node _

    insert_at_path-Counts :
        (index_arr : List ℤ) (o : Option LayoutNode)
        → Counts s (insert_at_path u v s op index_arr o)
    insert_at_path-Counts index_arr none = insert_root-Counts op
    insert_at_path-Counts index_arr (some root) = insert_located-Counts root _

    pub insert_node_at_index-Counts :
        (index_arr : List ℤ) → Counts s (insert_node_at_index u v s op index_arr)
    unfolding insert_node_at_index
    insert_node_at_index-Counts index_arr = insert_at_path-Counts index_arr s.root_node

  swap_found-Counts :
      (root : LayoutNode) (x y : Option LayoutNode) → Counts s (swap_found s root x y)
  swap_found-Counts root none y = thrown refl
  swap_found-Counts root (some x) none = thrown refl
  swap_found-Counts root (some x) (some y) = counted refl

  swap_in-Counts : (a b : NodeId) (o : Option LayoutNode) → Counts s (swap_in s a b o)
  swap_in-Counts a b none = thrown refl
  swap_in-Counts a b (some root) =
      Counts-if ((attrs root).id == a || (attrs root).id == b) unchanged (
        Counts-if (a == b) unchanged
          (swap_found-Counts root (child_below root a) (child_below root b)))

  pub swap_node-Counts : (a b : NodeId) → Counts s (swap_node s a b)
  unfolding swap_node
  swap_node-Counts a b = Counts-if _ unchanged (swap_in-Counts a b s.root_node)

  delete_child-Counts :
      (root : LayoutNode) (id : NodeId) (o : Option LayoutNode)
      → Counts s (delete_child s root id o)
  delete_child-Counts root id none = counted refl
  delete_child-Counts root id (some p) = counted (ground arith)

  delete_in-Counts : (id : NodeId) (o : Option LayoutNode) → Counts s (delete_in s id o)
  delete_in-Counts id none = unchanged
  delete_in-Counts id (some root) = Counts-if _ (counted refl) (delete_child-Counts root id _)

  pub delete_node-Counts : (id : NodeId) → Counts s (delete_node s id)
  unfolding delete_node
  delete_node-Counts id = Counts-if _ unchanged (delete_in-Counts id s.root_node)

  pub focus_node-Counts : (id : NodeId) → Counts s (focus_node s id)
  unfolding focus_node
  focus_node-Counts id = Counts-if _ unchanged (counted refl)

  magnify_in-Counts : (id : NodeId) (o : Option LayoutNode) → Counts s (magnify_in s id o)
  magnify_in-Counts id none = thrown refl
  magnify_in-Counts id (some root) =
      Counts-if ((attrs root).id == id) unchanged
        (Counts-if (same_id s.magnified_node_id (some id)) (counted refl) (counted refl))

  pub magnify-Counts : (id : NodeId) → Counts s (magnify_node_toggle s id)
  unfolding magnify_node_toggle
  magnify-Counts id = Counts-if _ unchanged (magnify_in-Counts id s.root_node)

  pub clear_tree-Counts : Counts s (clear_tree s)
  unfolding clear_tree
  clear_tree-Counts = counted refl
