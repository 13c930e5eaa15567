-- ===== src/Layout/Leafs/Order.antt =====
-- That the leafs which `updateTree` finds are those of the tree that it leaves.
use mathlib.Core.List.{append-nil, Permᴰ}
use mathlib.Core.Path.{subst}
use testmerge.Base.{
  ℕ, zero, suc, ◌≡◌, refl, sym, ap, ◌∙◌, Bool, true, false, Option, none, some, List, [], ◌∷◌, ◌++◌,
  if◌then◌else◌,
}
use testmerge.Base.Sort.{sort_by, sort_by-Perm}
use testmerge.Layout.Types.{
  Attrs, LayoutNode, Nodes, leaf, branch, nil, cons, TabLayoutData, LeafOrderEntry,
}
use testmerge.Layout.Node.{validate_node}
use testmerge.Layout.Balance.{
  Walk, walked, invalid, ◌>>=◌, before_children, after_children, walk_each, balance_fuel,
  balance_node, node_count,
}
use testmerge.Layout.Balance.Blocks.{>>=-walked, guard-walked}
use testmerge.Layout.Leafs.{
  TreeKey, KeyedLeaf, digits, entry_of, leaf_at, has_undefined, leafs_each, leafs_fuel, find_leafs,
  leaf_before, entries, get_leaf_order, balance_with_leafs,
}

-- The leafs of a tree, in the order of a walk. Their data is there, as the tree is valid.
abbrev entry : Attrs → Option TabLayoutData → List LeafOrderEntry
entry a none = []
entry a (some d) = record { node_id = a.id; block_id = d.block_id } ∷ []

abbrev mutual
  pub leaf_entries : LayoutNode → List LeafOrderEntry
  leaf_entries (leaf a) = entry a a.tab_data
  leaf_entries (branch a cs) = entries_in cs

  pub entries_in : Nodes → List LeafOrderEntry
  entries_in nil = []
  entries_in (cons c cs) = leaf_entries c ++ entries_in cs

entries-append : (ls ks : List KeyedLeaf) → entries (ls ++ ks) ≡ entries ls ++ entries ks
entries-append [] ks = refl
entries-append ((k, e) ∷ ls) ks = ap (λ es. e ∷ es) (entries-append ls ks)

leaf_entries-after_children :
    (a : Attrs) (cs : Nodes) → leaf_entries (after_children a cs) ≡ entries_in cs
leaf_entries-after_children a nil = refl
leaf_entries-after_children a (cons (leaf b) nil) = sym (append-nil _)
leaf_entries-after_children a (cons (branch b ks) nil) = refl
leaf_entries-after_children a (cons (leaf b) (cons d cs)) = refl
leaf_entries-after_children a (cons (branch b ks) (cons d cs)) = refl

walked-inj {ℓ} : {A : Type ℓ} (x y : A) → walked x ≡ walked y → x ≡ y
walked-inj x y h = cc h

leaf_at-entry :
    (key : TreeKey) (a : Attrs) (o : Option TabLayoutData) (ls : List KeyedLeaf)
    → (do e ← entry_of a o; walked ((key, e) ∷ [])) ≡ walked ls
    → entries ls ≡ entry a o
leaf_at-entry key a none ls h = cc h
leaf_at-entry key a (some d) ls h =
    ap entries
      (sym (walked-inj ((key, record { node_id = a.id; block_id = d.block_id }) ∷ []) ls h))

-- Two walks that agree: one gives the balanced node, the other the leafs.
abbrev Agree :
    (LayoutNode → Walk LayoutNode) → (TreeKey → LayoutNode → Walk (List KeyedLeaf)) → Type 0
Agree visit find =
    (n m : LayoutNode) (key : TreeKey) (ls : List KeyedLeaf)
    → visit n ≡ walked m
    → find key n ≡ walked ls
    → entries ls ≡ leaf_entries m

each-Agree :
    (visit : LayoutNode → Walk LayoutNode) (find : TreeKey → LayoutNode → Walk (List KeyedLeaf))
    (key : TreeKey) (i : ℕ) (cs cs' : Nodes) (ls : List KeyedLeaf)
    → Agree visit find
    → walk_each visit cs ≡ walked cs'
    → leafs_each find key i cs ≡ walked ls
    → entries ls ≡ entries_in cs'
unfolding walk_each leafs_each
each-Agree visit find key i nil cs' ls agree h k =
    ap entries (sym (walked-inj [] ls k)) ∙ ap entries_in (walked-inj nil cs' h)
each-Agree visit find key i (cons c cs) cs' ls agree h k =
    let (c', e, h') = >>=-walked (visit c) _ h in
    let (ds, e', h'') = >>=-walked (walk_each visit cs) _ h' in
    let (ks, f, k') = >>=-walked (find (key ++ digits i) c) _ k in
    let (rest, f', k'') = >>=-walked (leafs_each find key (suc i) cs) _ k' in
    ap entries (sym (walked-inj (ks ++ rest) ls k''))
    ∙ entries-append ks rest
    ∙ ap (λ es. es ++ entries rest) (agree c c' (key ++ digits i) ks e f)
    ∙ ap (λ es. leaf_entries c' ++ es) (each-Agree visit find key (suc i) cs ds rest agree e' f')
    ∙ ap entries_in (walked-inj (cons c' ds) cs' h'')

fuel-Agree : (fuel : ℕ) → Agree (balance_fuel fuel) (leafs_fuel fuel)
unfolding balance_fuel leafs_fuel
fuel-Agree zero n m key ls h k = cc h
fuel-Agree (suc fuel) (leaf a) m key ls h k =
    let (_, p) = guard-walked (validate_node (leaf a)) (walked (leaf a)) h in
    let (_, q) = guard-walked (validate_node (leaf a)) (leaf_at key a) k in
    leaf_at-entry key a a.tab_data ls q ∙ ap leaf_entries (walked-inj (leaf a) m p)
fuel-Agree (suc fuel) (branch a cs) m key ls h k =
    let before = before_children a.flex_direction cs in
    let (_, p) = guard-walked (validate_node (branch a cs)) _ h in
    let (cs', e, p') =
      >>=-walked (walk_each (balance_fuel fuel) before) (λ x. walked (after_children a x)) p in
    let (_, q) = guard-walked (validate_node (branch a cs)) _ k in
    each-Agree (balance_fuel fuel) (leafs_fuel fuel) key 0 before cs' ls (fuel-Agree fuel) e
      (unless (has_undefined cs) _ ls q)
    ∙ sym (leaf_entries-after_children a cs')
    ∙ ap leaf_entries (walked-inj (after_children a cs') m p')
  where
    unless :
        (b : Bool) (w : Walk (List KeyedLeaf)) (ls : List KeyedLeaf)
        → (if b then invalid else w) ≡ walked ls
        → w ≡ walked ls
    unless true w ls r = cc r
    unless false w ls r = r

Permᴰ-entries : {ls ks : List KeyedLeaf} → Permᴰ ls ks → Permᴰ (entries ls) (entries ks)
Permᴰ-entries Permᴰ.nil = Permᴰ.nil
Permᴰ-entries (Permᴰ.cons p r) = Permᴰ.cons (ap (λ l. l.1) p) (Permᴰ-entries r)
Permᴰ-entries (Permᴰ.swap p q) = Permᴰ.swap (ap (λ l. l.1) p) (ap (λ l. l.1) q)
Permᴰ-entries (Permᴰ.trans r s) = Permᴰ.trans (Permᴰ-entries r) (Permᴰ-entries s)

-- Where an update walks the tree without a throw, the leaf order has just the leafs of the tree
-- that it leaves, each as often as the tree has it.
pub get_leaf_order-Perm :
    (n m : LayoutNode) (ls : List KeyedLeaf)
    → balance_with_leafs n ≡ walked (m, ls)
    → Permᴰ (get_leaf_order ls) (leaf_entries m)
unfolding balance_with_leafs get_leaf_order balance_node find_leafs
get_leaf_order-Perm n m ls h =
    let (m', e, p) = >>=-walked (balance_node n) _ h in
    let (ls', f, q) = >>=-walked (find_leafs n) (λ x. walked (m', x)) p in
    let same = walked-inj (m', ls') (m, ls) q in
    subst (Permᴰ (entries (sort_by leaf_before ls)))
      (ap entries (sym (ap (λ x. x.1) same))
        ∙ fuel-Agree (node_count n) n m' (0 ∷ []) ls' e f
        ∙ ap (λ x. leaf_entries x.0) same)
      (Permᴰ-entries (sort_by-Perm leaf_before ls))
