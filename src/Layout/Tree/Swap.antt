-- ===== src/Layout/Tree/Swap.antt =====
-- swapNode keeps the blocks of the tree, each as often as it was there.
use mathlib.Core.Path.{subst}
use testmerge.Base.Int.{ℤ}
use testmerge.Base.{
  ℕ, ◌+◌, ◌≡◌, refl, sym, ap, ◌∙◌, inl, inr, Bool, true, false, Option, none, some, arith, ◌==◌,
  ◌||◌, ==_iff, Bool-cases, if◌then◌else◌,
}
use testmerge.Layout.Types.{
  NodeId, TabLayoutData, LayoutNode, Nodes, leaf, branch, nil, cons, attrs, LayoutTreeState,
}
use testmerge.Layout.Node.{find_parent}
use testmerge.Layout.Node.Find.{
  Within, WithinIn, here, below, first, later, times, child_array, find_parent-Within,
}
use testmerge.Layout.Tree.{
  Outcome, done, threw, exchange, find_child, child_of, child_below, swap_found, swap_in, swap_node,
  with_size,
}
use testmerge.Layout.Tree.Replace.{HasUniqueIds}
use testmerge.Layout.Tree.Exchange.{
  weight, same_node, counted, Weighed, weight-exchange, Apart, taken, taken-times,
}

weight-with_size :
    (f : Option TabLayoutData → ℕ) (size : ℤ) (n : LayoutNode)
    → weight f (with_size size n) ≡ weight f n
weight-with_size f size (leaf a) = refl
weight-with_size f size (branch a cs) = refl

no_child : {n : LayoutNode} → WithinIn n nil → ⊥
no_child w = elim w [ ]

below_root : {n : LayoutNode} (root : LayoutNode) → WithinIn n (child_array root) → Within n root
below_root (leaf a) w = absurd (no_child w)
below_root (branch a cs) w = below w

mutual
  Within-trans :
      {root p n : LayoutNode} → Within p root → WithinIn n (child_array p) → Within n root
  Within-trans {root} {p} {n} (here e) w =
      below_root root (subst (λ x. WithinIn n (child_array x)) e w)
  Within-trans (below v) w = below (within_trans_in v w)

  within_trans_in :
      {cs : Nodes} {p n : LayoutNode} → WithinIn p cs → WithinIn n (child_array p) → WithinIn n cs
  within_trans_in (first v) w = first (Within-trans v w)
  within_trans_in (later v) w = later (within_trans_in v w)

find_child-Within :
    (cs : Nodes) (id : NodeId) (n : LayoutNode)
    → find_child cs id ≡ some n
    → WithinIn n cs × ((attrs n).id ≡ id)
find_child-Within nil id n h = absurd (ground arith)
find_child-Within (cons c cs) id n h = elim (Bool-cases ((attrs c).id == id)) [
  | inl e ↦
      let q : n ≡ c = ground arith in (first (here q), ap (λ x. (attrs x).id) q ∙ (==_iff _ id).0 e)
  | inr e ↦ let (w, p) = find_child-Within cs id n (rw e at h) in (later w, p)
]

child_of-Within :
    (p : LayoutNode) (id : NodeId) (n : LayoutNode)
    → child_of p id ≡ some n
    → WithinIn n (child_array p) × ((attrs n).id ≡ id)
child_of-Within (leaf a) id n h = absurd (ground arith)
child_of-Within (branch a cs) id n h = find_child-Within cs id n h

-- What `child_below` finds.
in_parent :
    (root : LayoutNode) (id : NodeId) (n : LayoutNode) (o : Option LayoutNode)
    → find_parent root id ≡ o
    → elim o [ none ↦ none | some p ↦ child_of p id ] ≡ some n
    → Within n root × ((attrs n).id ≡ id)
in_parent root id n none e h = absurd (ground arith)
in_parent root id n (some p) e h =
    let (w, q) = child_of-Within p id n h in
    (Within-trans ((find_parent-Within root id).0 p e).0 w, q)

child_below-Within :
    (root : LayoutNode) (id : NodeId) (n : LayoutNode)
    → child_below root id ≡ some n
    → Within n root × ((attrs n).id ≡ id)
child_below-Within root id n h = in_parent root id n (find_parent root id) refl h

module _ (root n1 n2 : LayoutNode) (u : HasUniqueIds root) (w1 : Within n1 root)
    (w2 : Within n2 root) where
  Weighed-root :
      (f : Option TabLayoutData → ℕ) (n1' n2' : LayoutNode)
      → Weighed f (attrs n1).id (attrs n2).id n1' n2' (weight f n1) (weight f n2) root
  Weighed-root f n1' n2' m w = (
    λ e. ap (weight f) (same_node (attrs n1).id w1 w refl e (u _)),
    λ e. ap (weight f) (same_node (attrs n2).id w2 w refl e (u _)),
  )

  taken-both :
      (x y : ℕ)
      → Apart (attrs n1).id (attrs n2).id root
      → taken (attrs n1).id (attrs n2).id x y root ≡ x + y
  taken-both x y apart =
      let t1 : times (attrs n1).id root ≡ 1 =
        omega (arith, counted (attrs n1).id w1 refl, u (attrs n1).id) in
      let t2 : times (attrs n2).id root ≡ 1 =
        omega (arith, counted (attrs n2).id w2 refl, u (attrs n2).id) in
      let e = taken-times (attrs n1).id (attrs n2).id x y root (u _) (u _) apart in
      e ∙ rw (t1, t2) (omega arith)

  weight-exchanged :
      (f : Option TabLayoutData → ℕ)
      → Apart (attrs n1).id (attrs n2).id root
      → weight f (
          exchange
            (attrs n1).id
            (with_size (attrs n2).size n1)
            (attrs n2).id
            (with_size (attrs n1).size n2)
            root)
        ≡ weight f root
  weight-exchanged f apart =
      let n1' = with_size (attrs n2).size n1 in
      let n2' = with_size (attrs n1).size n2 in
      let e =
        weight-exchange f (attrs n1).id (attrs n2).id n1' n2' _ _ root (Weighed-root f n1' n2') in
      let t = taken-both (weight f n1) (weight f n2) apart in
      let t' = taken-both (weight f n2') (weight f n1') apart in
      omega (
        arith,
        e,
        t,
        t',
        weight-with_size f (attrs n2).size n1,
        weight-with_size f (attrs n1).size n2,
      )

abbrev pub state_of : Outcome → LayoutTreeState
state_of (done s) = s
state_of (threw s) = s

-- The state has a tree with the blocks of `root`, each as often.
pub record Keeps (root : LayoutNode) (s : LayoutTreeState) : Type 0 where
  pub kept_root : LayoutNode
  pub is_root : s.root_node ≡ some kept_root
  pub same : (f : Option TabLayoutData → ℕ) → weight f kept_root ≡ weight f root

module _ (s : LayoutTreeState) (root : LayoutNode) (r : s.root_node ≡ some root) where
  unmoved : Keeps root s
  unmoved = record { kept_root = root; is_root = r; same = λ f. refl }

  Keeps-if :
      (b : Bool) (x y : Outcome)
      → Keeps root (state_of x)
      → Keeps root (state_of y)
      → Keeps root (state_of (if b then x else y))
  Keeps-if true x y h k = h
  Keeps-if false x y h k = k

  module _ (a b : NodeId) (u : HasUniqueIds root) (apart : Apart a b root) where
    swap_found-Keeps :
        (o1 o2 : Option LayoutNode)
        → child_below root a ≡ o1
        → child_below root b ≡ o2
        → Keeps root (state_of (swap_found s root o1 o2))
    swap_found-Keeps none o2 e1 e2 = unmoved
    swap_found-Keeps (some n1) none e1 e2 = unmoved
    swap_found-Keeps (some n1) (some n2) e1 e2 =
        let (w1, i1) = child_below-Within root a n1 e1 in
        let (w2, i2) = child_below-Within root b n2 e2 in
        let apart' : Apart (attrs n1).id (attrs n2).id root = rw (i1, i2) apart in
        record {
          kept_root = _;
          is_root = refl;
          same = λ f. weight-exchanged root n1 n2 u w1 w2 f apart';
        }

    swap_in-Keeps : Keeps root (state_of (swap_in s a b (some root)))
    swap_in-Keeps = Keeps-if ((attrs root).id == a || (attrs root).id == b) (done s) _ unmoved (
        Keeps-if (a == b) (done s) (swap_found s root (child_below root a) (child_below root b))
          unmoved (swap_found-Keeps _ _ refl refl))

    -- Swapping two nodes of a tree without duplicate ids, neither of which lies in the other, keeps
    -- the blocks of the tree, each as often as it was there; also where the call changes nothing
    -- or throws.
    pub swap_node-Keeps : Keeps root (state_of (swap_node s a b))
    unfolding swap_node
    swap_node-Keeps =
        Keeps-if (a == 0 || b == 0) (done s) (swap_in s a b s.root_node) unmoved
          (subst (λ o. Keeps root (state_of (swap_in s a b o))) (sym r) swap_in-Keeps)
