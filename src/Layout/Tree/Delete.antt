-- ===== src/Layout/Tree/Delete.antt =====
-- `deleteNode` on a tree without duplicate ids.
use mathlib.Core.List.{append_assoc}
use mathlib.Core.Path.{subst}
use testmerge.Base.{
  ◌+◌, ◌≤◌, ◌<◌, ◌≡◌, ◌≢◌, refl, ap, ◌∙◌, inl, inr, List, ◌++◌, Option, none, some, arith, ==_ne,
  if-false, if◌then◌else◌, Option-cases,
}
use testmerge.Base.Int.{pos}
use testmerge.Layout.Types.{
  NodeId, TabLayoutData, LayoutNode, Nodes, leaf, branch, nil, cons, attrs, ◌+++◌, blocks,
  blocks_in, LayoutTreeState,
}
use testmerge.Layout.Node.{find_parent, remove_child}
use testmerge.Layout.Node.Find.{
  Within, WithinIn, IsChild, child_array, here, below, first, later, head, tail, times, times_in,
  Within-times, find_parent-Within,
}
use testmerge.Layout.Node.Arrays.{blocks_in-append}
use testmerge.Layout.Node.Insert.{Lacks, remove_child-first}
use testmerge.Layout.Tree.Replace.{HasUniqueIds, frame_lem}
use testmerge.Layout.Tree.{
  done, delete_node, delete_in, delete_child, replace_node, same_id, bump, unfocus,
}

mutual
  Within-le : {m n : LayoutNode} (id : NodeId) → Within m n → times id m ≤ times id n
  Within-le id (here p) = rw p (omega arith)
  Within-le {m} id (below {a} {cs} w) = omega (arith, WithinIn-le id w)

  WithinIn-le :
      {m : LayoutNode} {cs : Nodes} (id : NodeId) → WithinIn m cs → times id m ≤ times_in id cs
  WithinIn-le id (first w) = omega (arith, Within-le id w)
  WithinIn-le id (later w) = omega (arith, WithinIn-le id w)

times_in-append :
    (id : NodeId) (xs ys : Nodes) → times_in id (xs +++ ys) ≡ times_in id xs + times_in id ys
times_in-append id nil ys = omega arith
times_in-append id (cons x xs) ys = omega (arith, times_in-append id xs ys)

times_self : (c : LayoutNode) → 0 < times (attrs c).id c
times_self c = Within-times {n = c} (here refl)

mutual
  Within-trans : {k m n : LayoutNode} → Within k m → Within m n → Within k n
  Within-trans {k} w (here q) = subst (Within k) q w
  Within-trans w (below v) = below (Within-trans_in w v)

  Within-trans_in : {k m : LayoutNode} {cs : Nodes} → Within k m → WithinIn m cs → WithinIn k cs
  Within-trans_in w (first v) = first (Within-trans w v)
  Within-trans_in w (later v) = later (Within-trans_in w v)

child-Within : {c p : LayoutNode} → IsChild c (child_array p) → Within c p
child-Within {p = leaf a} i = elim i [ ]
child-Within {p = branch a cs} i = below (in_array i)
  where
    in_array : {c : LayoutNode} {cs : Nodes} → IsChild c cs → WithinIn c cs
    in_array head = first (here refl)
    in_array (tail i) = later (in_array i)

Lacks-of_none : (id : NodeId) (cs : Nodes) → times_in id cs ≡ 0 → Lacks id cs
Lacks-of_none id nil h = tt
Lacks-of_none id (cons c cs) h = (
  λ e. let p : 0 < times id c = rw (← e) (times_self c) in absurd (omega arith),
  Lacks-of_none id cs (omega arith),
)

split_child :
    {c : LayoutNode} {cs : Nodes}
    → IsChild c cs
    → (before after : Nodes) × (cs ≡ before +++ cons c after)
split_child (head {cs}) = (nil, cs, refl)
split_child (tail {d} i) =
    let (before, after, e) = split_child i in (cons d before, after, ap (cons d) e)

-- The state after a deletion: a node of the id, with all that stands below it, is gone from among
-- the blocks of the tree, and is no longer focused.
pub record IsDeleted (id : NodeId) (root : LayoutNode) (s s' : LayoutTreeState) : Type 0 where
  pub gone : LayoutNode
  pub root' : LayoutNode
  pub pre : List (Option TabLayoutData)
  pub post : List (Option TabLayoutData)
  pub has_id : (attrs gone).id ≡ id
  pub in_tree : Within gone root
  pub has_root : s'.root_node ≡ some root'
  pub before : blocks root ≡ pre ++ (blocks gone ++ post)
  pub after : blocks root' ≡ pre ++ post
  pub generation : s'.generation ≡ s.generation + 1
  pub focus :
      s'.focused_node_id ≡ (if same_id s.focused_node_id (some id) then none else s.focused_node_id)
  pub magnified : s'.magnified_node_id ≡ s.magnified_node_id

root-unfocus : (id : NodeId) (s : LayoutTreeState) → (unfocus id s).root_node ≡ s.root_node
root-unfocus id s = ground arith

generation-unfocus : (id : NodeId) (s : LayoutTreeState) → (unfocus id s).generation ≡ s.generation
generation-unfocus id s = ground arith

focus-unfocus :
    (id : NodeId) (s : LayoutTreeState)
    → (unfocus id s).focused_node_id
      ≡ (if same_id s.focused_node_id (some id) then none else s.focused_node_id)
focus-unfocus id s = ground arith

magnified-unfocus :
    (id : NodeId) (s : LayoutTreeState) → (unfocus id s).magnified_node_id ≡ s.magnified_node_id
magnified-unfocus id s = ground arith

module _ (s : LayoutTreeState) (root : LayoutNode) (id : NodeId) (unique : HasUniqueIds root) where
  delete_child_lem :
      (p c : LayoutNode)
      → Within p root
      → (attrs c).id ≡ id
      → IsChild c (child_array p)
      → (s' : LayoutTreeState) × (delete_child s root id (some p) ≡ done s')
        × IsDeleted id root s s'
  delete_child_lem (leaf a) c w e i = elim i [ ]
  delete_child_lem (branch a cs) c w e i =
      let (before, after, split) = split_child i in
      let once : times_in id (before +++ cons c after) ≤ 1 =
        subst (λ x. times_in id x ≤ 1) split (omega (arith, Within-le id w, unique id)) in
      let present : 0 < times id c = rw (← e) (times_self c) in
      let lacks =
        Lacks-of_none id before (omega (arith, times_in-append id before (cons c after))) in
      let removed : remove_child (branch a cs) id (pos 0) ≡ branch a (before +++ after) =
        ap (λ x. remove_child (branch a x) id (pos 0)) split
        ∙ remove_child-first a id 0 before c after (omega arith) lacks e in
      let f = frame_lem w (unique a.id) in
      let root' = replace_node a.id (remove_child (branch a cs) id (pos 0)) root in
      let t = record s { root_node = some root' } in
      (
        bump (unfocus id t),
        refl,
        record {
          gone = c;
          root' = root';
          pre = f.pre ++ blocks_in before;
          post = blocks_in after ++ f.post;
          has_id = e;
          in_tree = Within-trans (child-Within i) w;
          has_root = root-unfocus id t;
          before =
              f.split
              ∙ (ap (λ x. f.pre ++ (blocks_in x ++ f.post)) split
                  ∙ simp (blocks_in-append, append_assoc));
          after =
              f.written (remove_child (branch a cs) id (pos 0))
              ∙ (ap (λ x. f.pre ++ (blocks x ++ f.post)) removed
                  ∙ simp (blocks_in-append, append_assoc));
          generation = ap (λ k. k + 1) (generation-unfocus id t);
          focus = focus-unfocus id t;
          magnified = magnified-unfocus id t;
        },
      )

  -- In a tree without duplicate ids, with an id that is not empty, that is in the tree and that is not
  -- the root's: `deleteNode` takes exactly the blocks of the node of the id out of the tree, and the
  -- node has the focus no longer.
  pub delete_node-IsDeleted :
      s.root_node ≡ some root
      → id ≢ 0
      → (attrs root).id ≢ id
      → 0 < times id root
      → (s' : LayoutTreeState) × (delete_node s id ≡ done s') × IsDeleted id root s s'
  unfolding delete_node
  delete_node-IsDeleted has_root real inner present = elim (Option-cases (find_parent root id)) [
    | inl none_found ↦ elim ((find_parent-Within root id).1 none_found) [
      | inl e ↦ absurd (inner e)
      | inr e ↦ absurd (omega arith)
    ]
    | inr (p, found) ↦
        let (w, child) = (find_parent-Within root id).0 p found in
        let (c, e, i) = child in
        let (s', e', h) = delete_child_lem p c w e i in
        (
          s',
          if-false _ _ (==_ne id 0 real)
              ∙ (ap (delete_in s id) has_root
                  ∙ (if-false _ _ (==_ne (attrs root).id id inner)
                      ∙ (ap (delete_child s root id) found ∙ e'))),
          h,
        )
  ]
