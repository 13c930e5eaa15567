-- ===== src/Layout/Tree/Replace.antt =====
-- Writing through a reference: `replace_node` at the id of a node of a tree without duplicate ids.
use mathlib.Core.List.{append-nil, append_assoc}
use testmerge.Base.{
  ◌≤◌, ◌<◌, ◌≡◌, refl, ap, sym, List, [], ◌++◌, Option, arith, false, ◌==◌, ==_refl,
}
use testmerge.Layout.Types.{
  NodeId, TabLayoutData, Attrs, LayoutNode, Nodes, leaf, branch, nil, cons, attrs, blocks,
  blocks_in,
}
use testmerge.Layout.Node.Find.{
  Within, WithinIn, here, below, first, later, times, times_in, Within-times, within_times_in,
}
use testmerge.Layout.Tree.{replace_node, replace_in}

-- No two nodes of the tree have one id.
abbrev pub HasUniqueIds : LayoutNode → Type 0
HasUniqueIds n = (id : NodeId) → times id n ≤ 1

mutual
  unfolding replace_node

  replace_absent : (id : NodeId) (new n : LayoutNode) → times id n ≡ 0 → replace_node id new n ≡ n
  replace_absent id new (leaf a) h = ground arith
  replace_absent id new (branch a cs) h = ground (arith, replace_in_absent id new cs)

  replace_in_absent :
      (id : NodeId) (new : LayoutNode) (cs : Nodes) → times_in id cs ≡ 0 → replace_in id new cs ≡ cs
  replace_in_absent id new nil h = refl
  replace_in_absent id new (cons c cs) h =
      ground (arith, replace_absent id new c, replace_in_absent id new cs)

-- The node `m` stands between these blocks of `n`, and whatever is written there stands there too.
pub record Frame (m n : LayoutNode) : Type 0 where
  pub pre : List (Option TabLayoutData)
  pub post : List (Option TabLayoutData)
  pub split : blocks n ≡ pre ++ (blocks m ++ post)
  pub written :
      (m' : LayoutNode) → blocks (replace_node (attrs m).id m' n) ≡ pre ++ (blocks m' ++ post)

record FrameIn (m : LayoutNode) (cs : Nodes) : Type 0 where
  pre : List (Option TabLayoutData)
  post : List (Option TabLayoutData)
  split : blocks_in cs ≡ pre ++ (blocks m ++ post)
  written :
      (m' : LayoutNode) → blocks_in (replace_in (attrs m).id m' cs) ≡ pre ++ (blocks m' ++ post)

replace_self : (new n : LayoutNode) → replace_node (attrs n).id new n ≡ new
unfolding replace_node
replace_self new (leaf a) = rw (==_refl a.id)
replace_self new (branch a cs) = rw (==_refl a.id)

Frame-self : (n m : LayoutNode) → m ≡ n → Frame m n
Frame-self n m p = record {
  pre = [];
  post = [];
  split = rw p (sym (append-nil _));
  written = λ m'. rw (ap (λ x. (attrs x).id) p, replace_self m' n) (sym (append-nil _));
}

-- Above the node that is written, nothing has its id.
id_above :
    (id : NodeId) (a : Attrs) (cs : Nodes)
    → times id (branch a cs) ≤ 1
    → 0 < times_in id cs
    → (a.id == id) ≡ false
id_above id a cs le h = ground arith

mutual
  unfolding replace_node

  frame : {n m : LayoutNode} → Within m n → times (attrs m).id n ≤ 1 → Frame m n
  frame {n} {m} (here p) le = Frame-self n m p
  frame {m} (below {a} {cs} w) le =
      let absent = id_above (attrs m).id a cs le (within_times_in w) in
      let f = frame_in w (omega arith) in
      record {
        pre = f.pre;
        post = f.post;
        split = f.split;
        written = λ m'. rw absent (f.written m');
      }

  frame_in :
      {cs : Nodes} {m : LayoutNode} → WithinIn m cs → times_in (attrs m).id cs ≤ 1 → FrameIn m cs
  frame_in {m} (first {c} {cs} w) le =
      let f = frame w (omega arith) in
      let rest = replace_in_absent (attrs m).id in
      record {
        pre = f.pre;
        post = f.post ++ blocks_in cs;
        split = rw f.split (simp append_assoc);
        written =
            λ m'. rw (f.written m', rest m' cs (omega (arith, Within-times w))) (simp append_assoc);
      }
  frame_in {m} (later {c} {cs} w) le =
      let f = frame_in w (omega arith) in
      let rest = replace_absent (attrs m).id in
      record {
        pre = blocks c ++ f.pre;
        post = f.post;
        split = rw f.split (simp append_assoc);
        written = λ m'.
            rw (f.written m', rest m' c (omega (arith, within_times_in w))) (simp append_assoc);
      }

pub frame_lem : {n m : LayoutNode} → Within m n → times (attrs m).id n ≤ 1 → Frame m n
frame_lem w le = frame w le
