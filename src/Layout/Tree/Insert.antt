-- ===== src/Layout/Tree/Insert.antt =====
-- `insertNode` and `insertNodeAtIndex` on a valid tree without duplicate ids.
use mathlib.Core.List.{append-nil, append_assoc}
use mathlib.Core.Path.{subst}
use testmerge.Base.{
  ℕ, ◌+◌, ◌≡◌, refl, ap, sym, ◌∙◌, List, ◌∷◌, ◌++◌, Option, some, arith, true, ◌||◌, if◌then◌else◌,
}
use testmerge.Base.Int.{pos, ◌+ℤ◌}
use testmerge.Layout.Types.{
  NodeId, TabLayoutData, LayoutNode, Nodes, leaf, branch, nil, cons, attrs, blocks, blocks_in,
  LayoutTreeState,
}
use testmerge.Layout.Node.{validate_node}
use testmerge.Layout.Node.Find.{Within, WithinIn, here, below, first, later}
use testmerge.Layout.Node.Arrays.{take, drop, blocks_in-append, take-append-drop}
use testmerge.Layout.Node.Insert.{slots, blocks-add_child_at}
use testmerge.Layout.Balance.Total.{IsValidTree, AreValidTrees}
use testmerge.Layout.Locate.Room.{find_next_insert_location-IsPlace}
use testmerge.Layout.Locate.IndexPath.{as_ints, find_insert_location_from_index_arr-Within}
use testmerge.Layout.Tree.Replace.{HasUniqueIds, frame_lem}
use testmerge.Layout.Tree.{
  done, InsertNodeOperation, insert_node, insert_node_at_index, insert_below, mark_magnified,
  mark_focused, bump, replace_node, write_back, insert_in, insert_next, insert_at_path,
  insert_located,
}

pub valid_here : (n : LayoutNode) → IsValidTree n → validate_node n ≡ true
valid_here (leaf a) v = v
valid_here (branch a cs) v = v.0

mutual
  valid-Within : {m n : LayoutNode} → Within m n → IsValidTree n → IsValidTree m
  valid-Within (here p) v = subst IsValidTree (sym p) v
  valid-Within (below w) v = valid-WithinIn w v.1

  valid-WithinIn : {m : LayoutNode} {cs : Nodes} → WithinIn m cs → AreValidTrees cs → IsValidTree m
  valid-WithinIn (first w) v = valid-Within w v.0
  valid-WithinIn (later w) v = valid-WithinIn w v.1

blocks-slots : (n : LayoutNode) → blocks_in (slots n) ≡ blocks n
blocks-slots (leaf a) = refl
blocks-slots (branch a cs) = refl

-- The state after an insertion: the blocks of the new node stand in one place among those of the
-- tree, the generation is one more, and the focus and the magnified node are as the action says.
pub record IsInserted (op : InsertNodeOperation) (root : LayoutNode) (s s' : LayoutTreeState)
    : Type 0 where
  pub root' : LayoutNode
  pub pre : List (Option TabLayoutData)
  pub post : List (Option TabLayoutData)
  pub has_root : s'.root_node ≡ some root'
  pub before : blocks root ≡ pre ++ post
  pub after : blocks root' ≡ pre ++ (blocks op.node ++ post)
  pub generation : s'.generation ≡ s.generation + 1
  pub focus :
      s'.focused_node_id
      ≡ (if op.focused || op.magnified then some (attrs op.node).id else s.focused_node_id)
  pub magnified :
      s'.magnified_node_id ≡ (if op.magnified then some (attrs op.node).id else s.magnified_node_id)

abbrev marked : InsertNodeOperation → LayoutTreeState → LayoutTreeState
marked op s = mark_focused op (mark_magnified op s)

root-marked :
    (op : InsertNodeOperation) (s : LayoutTreeState) → (marked op s).root_node ≡ s.root_node
root-marked op s = ground arith

generation-marked :
    (op : InsertNodeOperation) (s : LayoutTreeState) → (marked op s).generation ≡ s.generation
generation-marked op s = ground arith

focus-marked :
    (op : InsertNodeOperation) (s : LayoutTreeState)
    → (marked op s).focused_node_id
      ≡ (if op.focused || op.magnified then some (attrs op.node).id else s.focused_node_id)
focus-marked op s = ground arith

magnified-marked :
    (op : InsertNodeOperation) (s : LayoutTreeState)
    → (marked op s).magnified_node_id
      ≡ (if op.magnified then some (attrs op.node).id else s.magnified_node_id)
magnified-marked op s = ground arith

next : (k : ℕ) → pos k +ℤ pos 1 ≡ pos (k + 1)
next k = ground arith

module _ (u v : NodeId) (s : LayoutTreeState) (op : InsertNodeOperation) (root : LayoutNode)
    (unique : HasUniqueIds root) (valid : IsValidTree root) where
  insert_below_lem :
      (m : LayoutNode) (i : ℕ)
      → Within m root
      → (s' : LayoutTreeState) × (insert_below u v s root op m (pos i) ≡ done s')
        × IsInserted op root s s'
  insert_below_lem m i w =
      let (m', added, inserted) =
        blocks-add_child_at u v m (pos i) (cons op.node nil)
          (valid_here m (valid-Within w valid)) in
      let f = frame_lem w (unique (attrs m).id) in
      let root' = replace_node (attrs m).id m' root in
      let t = record s { root_node = some root' } in
      let front = blocks_in (take i (slots m)) in
      let back = blocks_in (drop i (slots m)) in
      let split : blocks m ≡ front ++ back =
        sym (blocks-slots m)
        ∙ (sym (ap blocks_in (take-append-drop i (slots m)))
            ∙ blocks_in-append (take i (slots m)) (drop i (slots m))) in
      (
        bump (marked op t),
        ap (write_back s root op m) added,
        record {
          root' = root';
          pre = f.pre ++ front;
          post = back ++ f.post;
          has_root = root-marked op t;
          before = f.split ∙ rw split (simp append_assoc);
          after = f.written m' ∙ rw inserted (simp (append_assoc, append-nil));
          generation = ap (λ k. k + 1) (generation-marked op t);
          focus = focus-marked op t;
          magnified = magnified-marked op t;
        },
      )

  -- Into a tree, `insertNode` puts the node at one place between its blocks.
  pub insert_node-IsInserted :
      s.root_node ≡ some root
      → (s' : LayoutTreeState) × (insert_node u v s op ≡ done s') × IsInserted op root s s'
  unfolding insert_node
  insert_node-IsInserted has_root =
      let (l, e, place) = find_next_insert_location-IsPlace root 4 in
      let (s', e', h) = insert_below_lem l.node l.index place.0 in
      (s', ap (insert_in u v s op) has_root ∙ (ap (insert_next u v s root op) e ∙ e'), h)

  -- So does `insertNodeAtIndex`, at indices that are not negative.
  pub insert_node_at_index-IsInserted :
      (i : ℕ) (is : List ℕ)
      → s.root_node ≡ some root
      → (s' : LayoutTreeState) × (insert_node_at_index u v s op (as_ints (i ∷ is)) ≡ done s')
        × IsInserted op root s s'
  unfolding insert_node_at_index
  insert_node_at_index-IsInserted i is has_root =
      let (m, k, e, w, _) = find_insert_location_from_index_arr-Within root i is valid in
      let (s', e', h) = insert_below_lem m (k + 1) w in
      (
        s',
        ap (insert_at_path u v s op (as_ints (i ∷ is))) has_root
            ∙ (ap (insert_located u v s root op) e
                ∙ (ap (insert_below u v s root op m) (next k) ∙ e')),
        h,
      )
