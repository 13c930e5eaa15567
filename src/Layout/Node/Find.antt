-- ===== src/Layout/Node/Find.antt =====
-- `findNode` and `findParent` against the tree relations that they search.
use testmerge.Base.{
  ℕ, ◌+◌, ◌<◌, ◌≡◌, refl, sym, ap, ◌∙◌, ◌⊎◌, inl, inr, none, some, arith, ◌==◌, ==_iff,
  if◌then◌else◌, Bool-cases, Option-cases, ◌↔◌,
}
use mathlib.Core.Path.{subst}
use testmerge.Layout.Types.{NodeId, Attrs, LayoutNode, Nodes, leaf, branch, nil, cons, attrs}
use testmerge.Layout.Node.{find_node, find_node_in, find_parent, find_parent_in}

-- `m` is a node of the tree; `m` is a node of one of the trees.
mutual
  pub data Within (m : LayoutNode) : LayoutNode → Type 0 where
    here : {n : LayoutNode} → m ≡ n → Within m n
    below : {a : Attrs} {cs : Nodes} → WithinIn m cs → Within m (branch a cs)

  pub data WithinIn (m : LayoutNode) : Nodes → Type 0 where
    first : {c : LayoutNode} {cs : Nodes} → Within m c → WithinIn m (cons c cs)
    later : {c : LayoutNode} {cs : Nodes} → WithinIn m cs → WithinIn m (cons c cs)

-- `c` is one of the nodes.
pub data IsChild (c : LayoutNode) : Nodes → Type 0 where
  head : {cs : Nodes} → IsChild c (cons c cs)
  tail : {d : LayoutNode} {cs : Nodes} → IsChild c cs → IsChild c (cons d cs)

abbrev pub child_array : LayoutNode → Nodes
child_array (leaf a) = nil
child_array (branch a cs) = cs

-- `p` has a child of this id.
abbrev pub HasChild : LayoutNode → NodeId → Type 0
HasChild p id = (c : LayoutNode) × ((attrs c).id ≡ id) × IsChild c (child_array p)

-- The number of nodes with an id.
abbrev mutual
  pub times : NodeId → LayoutNode → ℕ
  times id (leaf a) = if a.id == id then 1 else 0
  times id (branch a cs) = (if a.id == id then 1 else 0) + times_in id cs

  pub times_in : NodeId → Nodes → ℕ
  times_in id nil = 0
  times_in id (cons c cs) = times id c + times_in id cs

mutual
  unfolding find_node

  find-Within :
      (n : LayoutNode) (id : NodeId) (m : LayoutNode)
      → find_node n id ≡ some m
      → ((attrs m).id ≡ id) × Within m n
  find-Within (leaf a) id m h = elim (Bool-cases (a.id == id)) [
    | inl e ↦
        let p : m ≡ leaf a = ground arith in
        (ap (λ n. (attrs n).id) p ∙ (==_iff a.id id).0 e, here p)
    | inr e ↦ ground arith
  ]
  find-Within (branch a cs) id m h = elim (Bool-cases (a.id == id)) [
    | inl e ↦
        let p : m ≡ branch a cs = ground arith in
        (ap (λ n. (attrs n).id) p ∙ (==_iff a.id id).0 e, here p)
    | inr e ↦ let r = find-WithinIn cs id m (ground arith) in (r.0, below r.1)
  ]

  find-WithinIn :
      (cs : Nodes) (id : NodeId) (m : LayoutNode)
      → find_node_in cs id ≡ some m
      → ((attrs m).id ≡ id) × WithinIn m cs
  find-WithinIn nil id m h = absurd (ground arith)
  find-WithinIn (cons c cs) id m h = elim (Option-cases (find_node c id)) [
    | inl e ↦ let r = find-WithinIn cs id m (ground arith) in (r.0, later r.1)
    | inr (x, e) ↦ let r = find-Within c id m (ground arith) in (r.0, first r.1)
  ]

mutual
  unfolding find_node

  find_none : (n : LayoutNode) (id : NodeId) → find_node n id ≡ none → times id n ≡ 0
  find_none (leaf a) id h = ground arith
  find_none (branch a cs) id h = ground (arith, find_none_in cs id)

  find_none_in : (cs : Nodes) (id : NodeId) → find_node_in cs id ≡ none → times_in id cs ≡ 0
  find_none_in nil id h = refl
  find_none_in (cons c cs) id h = ground (arith, find_none c id, find_none_in cs id)

mutual
  pub Within-times : {n m : LayoutNode} → Within m n → 0 < times (attrs m).id n
  Within-times {n = leaf a} {m} (here p) = rw (ap (λ x. (attrs x).id) p) (ground arith)
  Within-times {n = branch a cs} {m} (here p) = rw (ap (λ x. (attrs x).id) p) (ground arith)
  Within-times (below w) = omega (arith, within_times_in w)

  pub within_times_in : {cs : Nodes} {m : LayoutNode} → WithinIn m cs → 0 < times_in (attrs m).id cs
  within_times_in (first w) = omega (arith, Within-times w)
  within_times_in (later w) = omega (arith, within_times_in w)

-- `findNode` returns a node of the tree that has the id, and returns none exactly where the tree
-- has no node of that id.
pub find_node-Within :
    (n : LayoutNode) (id : NodeId)
    → ((m : LayoutNode) → find_node n id ≡ some m → ((attrs m).id ≡ id) × Within m n)
      × ((find_node n id ≡ none) ↔ (times id n ≡ 0))
find_node-Within n id = (find-Within n id, (find_none n id, back))
  where
    back : times id n ≡ 0 → find_node n id ≡ none
    back h = elim (Option-cases (find_node n id)) [
      | inl e ↦ e
      | inr (m, e) ↦
          let r = find-Within n id m e in
          let p : 0 < times (attrs m).id n = Within-times r.1 in
          let q : 0 < times id n = rw r.0 at p in absurd (omega arith)
    ]

mutual
  unfolding find_parent

  parent-Within :
      (n : LayoutNode) (id : NodeId) (p : LayoutNode)
      → find_parent n id ≡ some p
      → Within p n × HasChild p id
  parent-Within (leaf a) id p h = absurd (ground arith)
  parent-Within (branch a cs) id p h = elim (Bool-cases (a.id == id)) [
    | inl e ↦ absurd (ground arith)
    | inr e ↦ elim (parent-WithinIn (branch a cs) cs id p (ground arith)) [
      | inl (q, c, i, k) ↦ (here q, (c, i, subst (λ x. IsChild c (child_array x)) (sym q) k))
      | inr (w, k) ↦ (below w, k)
    ]
  ]

  parent-WithinIn :
      (n : LayoutNode) (cs : Nodes) (id : NodeId) (p : LayoutNode)
      → find_parent_in n cs id ≡ some p
      → ((p ≡ n) × (c : LayoutNode) × ((attrs c).id ≡ id) × IsChild c cs)
        ⊎ (WithinIn p cs × HasChild p id)
  parent-WithinIn n nil id p h = absurd (ground arith)
  parent-WithinIn n (cons c cs) id p h = elim (Bool-cases ((attrs c).id == id)) [
    | inl e ↦ inl (ground arith, c, (==_iff (attrs c).id id).0 e, head)
    | inr e ↦ elim (Option-cases (find_parent c id)) [
      | inr (x, f) ↦ let r = parent-Within c id p (ground arith) in inr (first r.0, r.1)
      | inl f ↦ elim (parent-WithinIn n cs id p (ground arith)) [
        | inl (q, d, i, k) ↦ inl (q, d, i, tail k)
        | inr (w, k) ↦ inr (later w, k)
      ]
    ]
  ]

mutual
  unfolding find_parent

  parent_none :
      (n : LayoutNode) (id : NodeId)
      → find_parent n id ≡ none
      → ((attrs n).id ≡ id) ⊎ (times id n ≡ 0)
  parent_none (leaf a) id h = ground arith
  parent_none (branch a cs) id h = elim (Bool-cases (a.id == id)) [
    | inl e ↦ inl ((==_iff a.id id).0 e)
    | inr e ↦ inr (ground (arith, parent_none_in (branch a cs) cs id))
  ]

  parent_none_in :
      (n : LayoutNode) (cs : Nodes) (id : NodeId)
      → find_parent_in n cs id ≡ none
      → times_in id cs ≡ 0
  parent_none_in n nil id h = refl
  parent_none_in n (cons c cs) id h = elim (Bool-cases ((attrs c).id == id)) [
    | inl e ↦ absurd (ground arith)
    | inr e ↦ ground (arith, parent_none c id, parent_none_in n cs id)
  ]

-- `findParent` returns a node of the tree with a child of the id; where it returns none, the id is
-- the root's, or no node has it.
pub find_parent-Within :
    (n : LayoutNode) (id : NodeId)
    → ((p : LayoutNode) → find_parent n id ≡ some p → Within p n × HasChild p id)
      × (find_parent n id ≡ none → ((attrs n).id ≡ id) ⊎ (times id n ≡ 0))
find_parent-Within n id = (parent-Within n id, parent_none n id)
