-- ===== src/Layout/Tree/Exchange.antt =====
-- What the exchange of two nodes does to the blocks of a tree.
use native.Mathlib.Nat.{add-mul, zero-add}
use testmerge.Base.{
  ℕ, ◌+◌, ◌*◌, ◌≤◌, ◌<◌, ◌≡◌, refl, sym, ap, ◌∙◌, inl, inr, true, Option, List, [], ◌∷◌, ◌++◌,
  arith, ◌==◌, ==_iff, Bool-cases, if◌then◌else◌,
}
use testmerge.Layout.Types.{
  NodeId, TabLayoutData, Attrs, LayoutNode, Nodes, leaf, branch, nil, cons, attrs, blocks,
  blocks_in,
}
use testmerge.Layout.Node.Find.{
  Within, WithinIn, here, below, first, later, times, times_in, Within-times, within_times_in,
}
use testmerge.Layout.Tree.{exchange, exchange_in}

-- A sum over blocks: what it is for every `f` says how often each block is there.
abbrev pub total : (Option TabLayoutData → ℕ) → List (Option TabLayoutData) → ℕ
total f [] = 0
total f (d ∷ ds) = f d + total f ds

total-append :
    (f : Option TabLayoutData → ℕ) (xs ys : List (Option TabLayoutData))
    → total f (xs ++ ys) ≡ total f xs + total f ys
total-append f [] ys = omega arith
total-append f (x ∷ xs) ys = omega (arith, total-append f xs ys)

abbrev pub weight : (Option TabLayoutData → ℕ) → LayoutNode → ℕ
weight f n = total f (blocks n)

pub counted : {n m : LayoutNode} (id : NodeId) → Within m n → (attrs m).id ≡ id → 0 < times id n
counted {n} {m} id w e = let h : 0 < times (attrs m).id n = Within-times w in rw e at h

counted_in :
    {cs : Nodes} {m : LayoutNode} (id : NodeId)
    → WithinIn m cs
    → (attrs m).id ≡ id
    → 0 < times_in id cs
counted_in {cs} {m} id w e = let h : 0 < times_in (attrs m).id cs = within_times_in w in rw e at h

-- The root has the id and another node has it, so it is there twice.
twice :
    {m m' : LayoutNode} (id : NodeId) (a : Attrs) (cs : Nodes)
    → m ≡ branch a cs
    → (attrs m).id ≡ id
    → WithinIn m' cs
    → (attrs m').id ≡ id
    → 1 < times id (branch a cs)
twice id a cs p e w e' =
    let q : a.id ≡ id = ap (λ n. (attrs n).id) (sym p) ∙ e in
    let h = counted_in id w e' in ground arith

-- In a tree without duplicate ids an id names one node.
mutual
  pub same_node :
      {n m m' : LayoutNode} (id : NodeId)
      → Within m n
      → Within m' n
      → (attrs m).id ≡ id
      → (attrs m').id ≡ id
      → times id n ≤ 1
      → m' ≡ m
  same_node id (here p) (here q) e e' le = q ∙ sym p
  same_node id (here p) (below {a} {cs} w) e e' le =
      let h = twice id a cs p e w e' in absurd (omega arith)
  same_node id (below {a} {cs} w) (here p) e e' le =
      let h = twice id a cs p e' w e in absurd (omega arith)
  same_node id (below w) (below w') e e' le = same_node_in id w w' e e' (omega arith)

  same_node_in :
      {cs : Nodes} {m m' : LayoutNode} (id : NodeId)
      → WithinIn m cs
      → WithinIn m' cs
      → (attrs m).id ≡ id
      → (attrs m').id ≡ id
      → times_in id cs ≤ 1
      → m' ≡ m
  same_node_in id (first w) (first w') e e' le = same_node id w w' e e' (omega arith)
  same_node_in id (first w) (later w') e e' le =
      absurd (omega (arith, counted id w e, counted_in id w' e'))
  same_node_in id (later w) (first w') e e' le =
      absurd (omega (arith, counted_in id w e, counted id w' e'))
  same_node_in id (later w) (later w') e e' le = same_node_in id w w' e e' (omega arith)

-- The weights that `exchange` takes away, or puts in.
abbrev mutual
  pub taken : NodeId → NodeId → ℕ → ℕ → LayoutNode → ℕ
  taken id1 id2 x y (leaf a) = if a.id == id1 then x else if a.id == id2 then y else 0
  taken id1 id2 x y (branch a cs) =
      if a.id == id1 then x else if a.id == id2 then y else taken_in id1 id2 x y cs

  taken_in : NodeId → NodeId → ℕ → ℕ → Nodes → ℕ
  taken_in id1 id2 x y nil = 0
  taken_in id1 id2 x y (cons c cs) = taken id1 id2 x y c + taken_in id1 id2 x y cs

module _ (f : Option TabLayoutData → ℕ) (id1 id2 : NodeId) (n1 n2 : LayoutNode) (x y : ℕ) where
  abbrev weight_in : Nodes → ℕ
  weight_in cs = total f (blocks_in cs)

  -- The nodes of the ids weigh `x` and `y`.
  abbrev pub Weighed : LayoutNode → Type 0
  Weighed n =
      (m : LayoutNode)
      → Within m n
      → ((attrs m).id ≡ id1 → weight f m ≡ x) × ((attrs m).id ≡ id2 → weight f m ≡ y)

  abbrev WeighedIn : Nodes → Type 0
  WeighedIn cs =
      (m : LayoutNode)
      → WithinIn m cs
      → ((attrs m).id ≡ id1 → weight f m ≡ x) × ((attrs m).id ≡ id2 → weight f m ≡ y)

  mutual
    unfolding exchange

    pub weight-exchange :
        (n : LayoutNode)
        → Weighed n
        → weight f (exchange id1 n1 id2 n2 n) + taken id1 id2 x y n
          ≡ weight f n + taken id1 id2 (weight f n2) (weight f n1) n
    weight-exchange (leaf a) h =
        let (p, q) = h (leaf a) (here refl) in
        elim (Bool-cases (a.id == id1)) [
          | inl e ↦ rw e (omega (arith, p ((==_iff a.id id1).0 e)))
          | inr e ↦ elim (Bool-cases (a.id == id2)) [
            | inl g ↦ rw (e, g) (omega (arith, q ((==_iff a.id id2).0 g)))
            | inr g ↦ rw (e, g) refl
          ]
        ]
    weight-exchange (branch a cs) h =
        let (p, q) = h (branch a cs) (here refl) in
        elim (Bool-cases (a.id == id1)) [
          | inl e ↦ rw e (omega (arith, p ((==_iff a.id id1).0 e)))
          | inr e ↦ elim (Bool-cases (a.id == id2)) [
            | inl g ↦ rw (e, g) (omega (arith, q ((==_iff a.id id2).0 g)))
            | inr g ↦ rw (e, g) (weight-exchange_in cs (λ m w. h m (below w)))
          ]
        ]

    weight-exchange_in :
        (cs : Nodes)
        → WeighedIn cs
        → weight_in (exchange_in id1 n1 id2 n2 cs) + taken_in id1 id2 x y cs
          ≡ weight_in cs + taken_in id1 id2 (weight f n2) (weight f n1) cs
    weight-exchange_in nil h = refl
    weight-exchange_in (cons c cs) h = omega (
      arith,
      total-append f (blocks c) (blocks_in cs),
      total-append f (blocks (exchange id1 n1 id2 n2 c)) (blocks_in (exchange_in id1 n1 id2 n2 cs)),
      weight-exchange c (λ m w. h m (first w)),
      weight-exchange_in cs (λ m w. h m (later w)),
    )

module _ (id1 id2 : NodeId) where
  -- No node of one id has the other id in it.
  abbrev pub Apart : LayoutNode → Type 0
  Apart n =
      (m : LayoutNode)
      → Within m n
      → ((attrs m).id ≡ id1 → times id2 m ≡ 0) × ((attrs m).id ≡ id2 → times id1 m ≡ 0)

  no_multiple : (x y : ℕ) → 0 * x + 0 * y ≡ 0
  no_multiple x y = omega arith

  root_times : (id : NodeId) (n : LayoutNode) → ((attrs n).id == id) ≡ true → 0 < times id n
  root_times id (leaf a) e = ground arith
  root_times id (branch a cs) e = ground arith

  taken_first :
      (x y : ℕ) (n : LayoutNode)
      → times id1 n ≤ 1
      → Apart n
      → ((attrs n).id == id1) ≡ true
      → taken id1 id2 x y n ≡ x
      → taken id1 id2 x y n ≡ times id1 n * x + times id2 n * y
  taken_first x y n l1 h e t =
      let p : times id2 n ≡ 0 = (h n (here refl)).0 ((==_iff _ id1).0 e) in
      let q : times id1 n ≡ 1 = omega (arith, root_times id1 n e) in rw (t, p, q) (omega arith)

  taken_second :
      (x y : ℕ) (n : LayoutNode)
      → times id2 n ≤ 1
      → Apart n
      → ((attrs n).id == id2) ≡ true
      → taken id1 id2 x y n ≡ y
      → taken id1 id2 x y n ≡ times id1 n * x + times id2 n * y
  taken_second x y n l2 h e t =
      let p : times id1 n ≡ 0 = (h n (here refl)).1 ((==_iff _ id2).0 e) in
      let q : times id2 n ≡ 1 = omega (arith, root_times id2 n e) in rw (t, p, q) (omega arith)

  -- Where each id is there once at most and they lie apart, the sums count the ids.
  mutual
    pub taken-times :
        (x y : ℕ) (n : LayoutNode)
        → times id1 n ≤ 1
        → times id2 n ≤ 1
        → Apart n
        → taken id1 id2 x y n ≡ times id1 n * x + times id2 n * y
    taken-times x y (leaf a) l1 l2 h = elim (Bool-cases (a.id == id1)) [
      | inl e ↦ taken_first x y (leaf a) l1 h e (rw e refl)
      | inr e ↦ elim (Bool-cases (a.id == id2)) [
        | inl g ↦ taken_second x y (leaf a) l2 h g (rw (e, g) refl)
        | inr g ↦ rw (e, g) (sym (no_multiple x y))
      ]
    ]
    taken-times x y (branch a cs) l1 l2 h = elim (Bool-cases (a.id == id1)) [
      | inl e ↦ taken_first x y (branch a cs) l1 h e (rw e refl)
      | inr e ↦ elim (Bool-cases (a.id == id2)) [
        | inl g ↦ taken_second x y (branch a cs) l2 h g (rw (e, g) refl)
        | inr g ↦
            rw (e, g, zero-add (times_in id1 cs), zero-add (times_in id2 cs))
              (taken_in-times x y cs (omega arith) (omega arith) (λ m w. h m (below w)))
      ]
    ]

    taken_in-times :
        (x y : ℕ) (cs : Nodes)
        → times_in id1 cs ≤ 1
        → times_in id2 cs ≤ 1
        → ((m : LayoutNode)
            → WithinIn m cs
            → ((attrs m).id ≡ id1 → times id2 m ≡ 0) × ((attrs m).id ≡ id2 → times id1 m ≡ 0))
        → taken_in id1 id2 x y cs ≡ times_in id1 cs * x + times_in id2 cs * y
    taken_in-times x y nil l1 l2 h = omega arith
    taken_in-times x y (cons c cs) l1 l2 h =
        rw (add-mul (times id1 c) (times_in id1 cs) x, add-mul (times id2 c) (times_in id2 cs) y)
          (omega (
            arith,
            taken-times x y c (omega arith) (omega arith) (λ m w. h m (first w)),
            taken_in-times x y cs (omega arith) (omega arith) (λ m w. h m (later w)),
          ))
