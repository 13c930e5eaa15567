-- ===== src/Layout/Leafs/Total.antt =====
-- That `updateTree` finds the leafs of every valid tree.
use mathlib.Core.List.{Permᴰ}
use testmerge.Base.{
  ℕ, zero, suc, ◌≤◌, ◌≡◌, refl, ◌∙◌, arith, true, false, Option, none, some, List, [], ◌∷◌, ◌++◌,
  if-true, if-false,
}
use testmerge.Layout.Types.{Attrs, LayoutNode, Nodes, leaf, branch, nil, cons, TabLayoutData}
use testmerge.Layout.Node.{validate_node}
use testmerge.Layout.Balance.{
  Walk, walked, ◌>>=◌, before_children, balance_node, node_count, count_in,
}
use testmerge.Layout.Balance.Total.{
  IsValidTree, AreValidTrees, empty_array, before_children-le, AreValidTrees-before_children,
  balance_node-IsValidTree,
}
use testmerge.Layout.Leafs.{
  TreeKey, KeyedLeaf, digits, entry_of, leaf_at, has_undefined, leafs_each, leafs_fuel, find_leafs,
  get_leaf_order, balance_with_leafs,
}
use testmerge.Layout.Leafs.Order.{leaf_entries, get_leaf_order-Perm}

Returns : Walk (List KeyedLeaf) → Type 0
Returns w = (ls : List KeyedLeaf) × (w ≡ walked ls)

has_undefined-valid : (cs : Nodes) → AreValidTrees cs → has_undefined cs ≡ false
has_undefined-valid nil h = refl
has_undefined-valid (cons (leaf a) cs) h = has_undefined-valid cs h.1
has_undefined-valid (cons (branch a nil) cs) h = absurd (empty_array a h.0.0)
has_undefined-valid (cons (branch a (cons d ds)) cs) h = has_undefined-valid cs h.1

leaf_at-Returns :
    (key : TreeKey) (a : Attrs) → validate_node (leaf a) ≡ true → Returns (leaf_at key a)
unfolding Returns validate_node
leaf_at-Returns key a h = of_data a.tab_data h
  where
    of_data :
        (o : Option TabLayoutData)
        → (elim o [ none ↦ false | some d ↦ true ]) ≡ true
        → Returns (do e ← entry_of a o; walked ((key, e) ∷ []))
    of_data none p = cc p
    of_data (some d) p = (_, refl)

each-Returns :
    (visit : TreeKey → LayoutNode → Walk (List KeyedLeaf)) (k : ℕ) (key : TreeKey) (i : ℕ)
    (cs : Nodes)
    → ((key : TreeKey) (n : LayoutNode) → node_count n ≤ k → IsValidTree n → Returns (visit key n))
    → count_in cs ≤ k
    → AreValidTrees cs
    → Returns (leafs_each visit key i cs)
unfolding Returns leafs_each
each-Returns visit k key i nil returns le h = ([], refl)
each-Returns visit k key i (cons c cs) returns le h =
    let (ls, e) = returns (key ++ digits i) c (omega arith) h.0 in
    let (rest, e') = each-Returns visit k key (suc i) cs returns (omega arith) h.1 in
    (ls ++ rest, rw (e, e') refl)

fuel-Returns :
    (fuel : ℕ) (key : TreeKey) (n : LayoutNode)
    → node_count n ≤ fuel
    → IsValidTree n
    → Returns (leafs_fuel fuel key n)
unfolding Returns leafs_fuel
fuel-Returns zero key (leaf a) le h = absurd (omega arith)
fuel-Returns zero key (branch a cs) le h = absurd (omega arith)
fuel-Returns (suc fuel) key (leaf a) le h =
    let (ls, e) = leaf_at-Returns key a h in (ls, if-true _ _ h ∙ e)
fuel-Returns (suc fuel) key (branch a cs) le h =
    let f = a.flex_direction in
    let (ls, e) =
      each-Returns (leafs_fuel fuel) fuel key 0 (before_children f cs) (fuel-Returns fuel)
        (omega (arith, before_children-le f cs)) (AreValidTrees-before_children f cs h.1) in
    (ls, if-true _ _ h.0 ∙ if-false _ _ (has_undefined-valid cs h.1) ∙ e)

-- The update of a valid tree ends, and the leaf order then has just the leafs of the balanced tree,
-- each as often as the tree has it.
pub leaf_order-Perm :
    (n : LayoutNode)
    → IsValidTree n
    → (m : LayoutNode) × (ls : List KeyedLeaf) × (balance_node n ≡ walked m)
      × (balance_with_leafs n ≡ walked (m, ls))
      × Permᴰ (get_leaf_order ls) (leaf_entries m)
unfolding Returns balance_with_leafs find_leafs
leaf_order-Perm n h =
    let (m, e, _, _) = balance_node-IsValidTree n h in
    let (ls, f) = fuel-Returns (node_count n) (0 ∷ []) n (omega arith) h in
    let both : balance_with_leafs n ≡ walked (m, ls) = rw (e, f) refl in
    (m, ls, e, both, get_leaf_order-Perm n m ls both)
