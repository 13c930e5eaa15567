-- ===== src/Layout/Balance/Total.antt =====
-- `balanceNode` returns on every valid tree, and returns a valid one.
use testmerge.Base.{ℕ, zero, suc, ◌+◌, ◌≤◌, ◌≡◌, refl, arith, true, none}
use testmerge.Layout.Types.{FlexDirection, Attrs, LayoutNode, Nodes, leaf, branch, nil, cons, ◌+++◌}
use testmerge.Layout.Node.{validate_node}
use testmerge.Layout.Balance.{
  Walk, walked, before_child, before_children, after_children, walk_each, balance_fuel,
  balance_node, node_count, count_in,
}

-- Every node of the tree passes `validateNode`.
abbrev mutual
  pub IsValidTree : LayoutNode → Type 0
  IsValidTree (leaf a) = validate_node (leaf a) ≡ true
  IsValidTree (branch a cs) = (validate_node (branch a cs) ≡ true) × AreValidTrees cs

  pub AreValidTrees : Nodes → Type 0
  AreValidTrees nil = Unit {0}
  AreValidTrees (cons c cs) = IsValidTree c × AreValidTrees cs

-- No array holds one leaf alone.
abbrev mutual
  pub IsCollapsed : LayoutNode → Type 0
  IsCollapsed (leaf a) = Unit {0}
  IsCollapsed (branch a (cons (leaf b) nil)) = ⊥
  IsCollapsed (branch a cs) = AreCollapsed cs

  pub AreCollapsed : Nodes → Type 0
  AreCollapsed nil = Unit {0}
  AreCollapsed (cons c cs) = IsCollapsed c × AreCollapsed cs

abbrev NonEmpty : Nodes → Type 0
NonEmpty nil = ⊥
NonEmpty (cons c cs) = Unit {0}

AreValidTrees-append :
    (xs ys : Nodes) → AreValidTrees xs → AreValidTrees ys → AreValidTrees (xs +++ ys)
AreValidTrees-append nil ys h k = k
AreValidTrees-append (cons x xs) ys h k = (h.0, AreValidTrees-append xs ys h.1 k)

count_in-append : (xs ys : Nodes) → count_in (xs +++ ys) ≡ count_in xs + count_in ys
count_in-append nil ys = omega arith
count_in-append (cons x xs) ys = omega (arith, count_in-append xs ys)

before_child-le : (f : FlexDirection) (c : LayoutNode) → count_in (before_child f c) ≤ node_count c
before_child-le f (leaf a) = omega arith
before_child-le f (branch a nil) = omega arith
before_child-le f (branch a (cons (branch b inner) nil)) = omega arith
before_child-le f (branch a (cons (leaf b) nil)) = omega arith
before_child-le f (branch a (cons c (cons d cs))) = omega arith

pub before_children-le :
    (f : FlexDirection) (cs : Nodes) → count_in (before_children f cs) ≤ count_in cs
unfolding before_children
before_children-le f nil = omega arith
before_children-le f (cons c cs) = omega (
  arith,
  count_in-append (before_child f c) (before_children f cs),
  before_child-le f c,
  before_children-le f cs,
)

AreValidTrees-before_child :
    (f : FlexDirection) (c : LayoutNode) → IsValidTree c → AreValidTrees (before_child f c)
unfolding validate_node
AreValidTrees-before_child f (leaf a) h = (h, tt)
AreValidTrees-before_child f (branch a nil) h = tt
AreValidTrees-before_child f (branch a (cons (branch b inner) nil)) h = h.1.0.1
AreValidTrees-before_child f (branch a (cons (leaf b) nil)) h = (h, tt)
AreValidTrees-before_child f (branch a (cons c (cons d cs))) h = (h, tt)

NonEmpty-before_child :
    (f : FlexDirection) (c : LayoutNode) → IsValidTree c → NonEmpty (before_child f c)
unfolding validate_node
NonEmpty-before_child f (leaf a) h = tt
NonEmpty-before_child f (branch a nil) h = absurd (ground arith)
NonEmpty-before_child f (branch a (cons (branch b nil) nil)) h = absurd (ground arith)
NonEmpty-before_child f (branch a (cons (branch b (cons i is)) nil)) h = tt
NonEmpty-before_child f (branch a (cons (leaf b) nil)) h = tt
NonEmpty-before_child f (branch a (cons c (cons d cs))) h = tt

pub AreValidTrees-before_children :
    (f : FlexDirection) (cs : Nodes) → AreValidTrees cs → AreValidTrees (before_children f cs)
unfolding before_children
AreValidTrees-before_children f nil h = tt
AreValidTrees-before_children f (cons c cs) h =
    AreValidTrees-append (before_child f c) (before_children f cs)
      (AreValidTrees-before_child f c h.0) (AreValidTrees-before_children f cs h.1)

NonEmpty-append : (xs ys : Nodes) → NonEmpty xs → NonEmpty (xs +++ ys)
NonEmpty-append nil ys h = absurd h
NonEmpty-append (cons x xs) ys h = tt

NonEmpty-before_children :
    (f : FlexDirection) (c : LayoutNode) (cs : Nodes)
    → IsValidTree c
    → NonEmpty (before_children f (cons c cs))
unfolding before_children
NonEmpty-before_children f c cs h =
    NonEmpty-append (before_child f c) _ (NonEmpty-before_child f c h)

-- What the visit of one node is to do, and what the visit of an array then does.
abbrev IsGood : Walk LayoutNode → Type 0
IsGood w = (m : LayoutNode) × (w ≡ walked m) × IsValidTree m × IsCollapsed m

walk_each-good :
    (visit : LayoutNode → Walk LayoutNode) (k : ℕ) (cs : Nodes)
    → ((n : LayoutNode) → node_count n ≤ k → IsValidTree n → IsGood (visit n))
    → count_in cs ≤ k
    → AreValidTrees cs
    → (cs' : Nodes) × (walk_each visit cs ≡ walked cs')
      × AreValidTrees cs'
      × AreCollapsed cs'
      × (NonEmpty cs → NonEmpty cs')
unfolding walk_each
walk_each-good visit k nil good le h = (nil, refl, tt, tt, λ x. x)
walk_each-good visit k (cons c cs) good le h =
    let (c', e, valid, collapsed) = good c (omega arith) h.0 in
    let (cs', e', valids, collapseds, _) = walk_each-good visit k cs good (omega arith) h.1 in
    (cons c' cs', rw (e, e') refl, (valid, valids), (collapsed, collapseds), λ x. tt)

after_children-good :
    (a : Attrs) (cs : Nodes)
    → a.tab_data ≡ none
    → NonEmpty cs
    → AreValidTrees cs
    → AreCollapsed cs
    → IsValidTree (after_children a cs) × IsCollapsed (after_children a cs)
unfolding validate_node
after_children-good a nil none_here h valid collapsed = absurd h
after_children-good a (cons (leaf b) nil) none_here h valid collapsed = (valid.0, tt)
after_children-good a (cons (branch b ks) nil) none_here h valid collapsed =
    ((rw none_here refl, valid), collapsed)
after_children-good a (cons (leaf b) (cons d cs)) none_here h valid collapsed =
    ((rw none_here refl, valid), collapsed)
after_children-good a (cons (branch b ks) (cons d cs)) none_here h valid collapsed =
    ((rw none_here refl, valid), collapsed)

no_data : (a : Attrs) (cs : Nodes) → validate_node (branch a cs) ≡ true → a.tab_data ≡ none
unfolding validate_node
no_data a nil h = absurd (ground arith)
no_data a (cons c cs) h = ground arith

pub empty_array : (a : Attrs) → ¬ (validate_node (branch a nil) ≡ true)
unfolding validate_node
empty_array a h = cc h

balance_fuel-IsGood :
    (fuel : ℕ) (n : LayoutNode) → node_count n ≤ fuel → IsValidTree n → IsGood (balance_fuel fuel n)
unfolding balance_fuel
balance_fuel-IsGood zero (leaf a) le h = absurd (omega arith)
balance_fuel-IsGood zero (branch a cs) le h = absurd (omega arith)
balance_fuel-IsGood (suc fuel) (leaf a) le h = (leaf a, rw h, h, tt)
balance_fuel-IsGood (suc fuel) (branch a nil) le h = absurd (empty_array a h.0)
balance_fuel-IsGood (suc fuel) (branch a (cons c cs)) le h =
    let f = a.flex_direction in
    let (ds, e, valid, collapsed, filled) =
      walk_each-good (balance_fuel fuel) fuel (before_children f (cons c cs))
        (balance_fuel-IsGood fuel) (omega (arith, before_children-le f (cons c cs)))
        (AreValidTrees-before_children f (cons c cs) h.1) in
    let r =
      after_children-good a ds (no_data a (cons c cs) h.0)
        (filled (NonEmpty-before_children f c cs h.1.0)) valid collapsed in
    (after_children a ds, rw (h.0, e) refl, r.0, r.1)

-- Balancing a valid tree ends with a tree that is valid again, and in which no array holds one
-- leaf alone.
pub balance_node-IsValidTree :
    (n : LayoutNode)
    → IsValidTree n
    → (m : LayoutNode) × (balance_node n ≡ walked m) × IsValidTree m × IsCollapsed m
unfolding balance_node
balance_node-IsValidTree n h = balance_fuel-IsGood (node_count n) n (omega arith) h
