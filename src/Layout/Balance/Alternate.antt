-- ===== src/Layout/Balance/Alternate.antt =====
-- `balanceNode` keeps the directions of a tree alternating.
use mathlib.Core.Path.{subst}
use testmerge.Base.{ℕ, zero, suc, ◌≡◌, ◌≢◌, refl, sym, arith, false}
use testmerge.Layout.Types.{
  FlexDirection, Attrs, LayoutNode, Nodes, leaf, branch, nil, cons, attrs, ◌+++◌, flex_eq,
}
use testmerge.Layout.Node.{validate_node}
use testmerge.Layout.Balance.{
  Walk, walked, before_child, before_children, after_children, walk_each, balance_fuel,
  balance_node, node_count, turn,
}
use testmerge.Layout.Balance.Blocks.{>>=-walked, guard-walked}

-- Every child of the tree, at every depth, has another direction than its parent.
abbrev mutual
  pub Alternates : LayoutNode → Type 0
  Alternates (leaf a) = Unit {0}
  Alternates (branch a cs) = AlternateBelow a.flex_direction cs

  pub AlternateBelow : FlexDirection → Nodes → Type 0
  AlternateBelow f nil = Unit {0}
  AlternateBelow f (cons c cs) = ((attrs c).flex_direction ≢ f) × Alternates c × AlternateBelow f cs

flex_ne : (f g : FlexDirection) → f ≢ g → flex_eq f g ≡ false
flex_ne f g h = ground arith

turn_lem : (f : FlexDirection) (a : Attrs) → a.flex_direction ≢ f → turn f a ≡ a
turn_lem f a h = rw (flex_ne a.flex_direction f h)

AlternateBelow-append :
    (f : FlexDirection) (xs ys : Nodes)
    → AlternateBelow f xs
    → AlternateBelow f ys
    → AlternateBelow f (xs +++ ys)
AlternateBelow-append f nil ys h k = k
AlternateBelow-append f (cons x xs) ys h k = (h.0, h.1, AlternateBelow-append f xs ys h.2 k)

-- There are two directions.
third : (f g h : FlexDirection) → f ≢ g → g ≢ h → f ≡ h
third f g h p q = ground arith

AlternateBelow-turned :
    (f : FlexDirection) (a : Attrs) (ks : Nodes)
    → a.flex_direction ≢ f
    → AlternateBelow a.flex_direction ks
    → AlternateBelow f (cons (branch (turn f a) ks) nil)
AlternateBelow-turned f a ks h k =
    subst (λ b. AlternateBelow f (cons (branch b ks) nil)) (sym (turn_lem f a h)) (h, k, tt)

AlternateBelow-before_child :
    (f : FlexDirection) (c : LayoutNode)
    → (attrs c).flex_direction ≢ f
    → Alternates c
    → AlternateBelow f (before_child f c)
AlternateBelow-before_child f (leaf a) h k =
    subst (λ b. AlternateBelow f (cons (leaf b) nil)) (sym (turn_lem f a h)) (h, tt, tt)
AlternateBelow-before_child f (branch a nil) h k = tt
AlternateBelow-before_child f (branch a (cons (branch b inner) nil)) h k =
    subst (λ d. AlternateBelow d inner) (third b.flex_direction a.flex_direction f k.0 h) k.1
AlternateBelow-before_child f (branch a (cons (leaf b) nil)) h k =
    AlternateBelow-turned f a (cons (leaf b) nil) h k
AlternateBelow-before_child f (branch a (cons c (cons d cs))) h k =
    AlternateBelow-turned f a (cons c (cons d cs)) h k

AlternateBelow-before_children :
    (f : FlexDirection) (cs : Nodes) → AlternateBelow f cs → AlternateBelow f (before_children f cs)
unfolding before_children
AlternateBelow-before_children f nil h = tt
AlternateBelow-before_children f (cons c cs) h =
    AlternateBelow-append f (before_child f c) (before_children f cs)
      (AlternateBelow-before_child f c h.0 h.1) (AlternateBelow-before_children f cs h.2)

abbrev KeepsDirections : (LayoutNode → Walk LayoutNode) → Type 0
KeepsDirections visit =
    (n m : LayoutNode)
    → visit n ≡ walked m
    → Alternates n
    → Alternates m × ((attrs m).flex_direction ≡ (attrs n).flex_direction)

AlternateBelow-walk_each :
    (visit : LayoutNode → Walk LayoutNode) (f : FlexDirection) (cs cs' : Nodes)
    → KeepsDirections visit
    → walk_each visit cs ≡ walked cs'
    → AlternateBelow f cs
    → AlternateBelow f cs'
unfolding walk_each
AlternateBelow-walk_each visit f nil cs' keeps h k =
    subst (λ ds. AlternateBelow f ds) (let p : nil ≡ cs' = cc h in p) tt
AlternateBelow-walk_each visit f (cons c cs) cs' keeps h k =
    let (c', e, h') = >>=-walked (visit c) _ h in
    let (ds, e', h'') = >>=-walked (walk_each visit cs) _ h' in
    let r = keeps c c' e k.1 in
    let p : cons c' ds ≡ cs' = cc h'' in
    subst (λ xs. AlternateBelow f xs) p
      (rw r.1 k.0, r.0, AlternateBelow-walk_each visit f cs ds keeps e' k.2)

after_children-directions :
    (a : Attrs) (cs : Nodes)
    → AlternateBelow a.flex_direction cs
    → Alternates (after_children a cs)
      × ((attrs (after_children a cs)).flex_direction ≡ a.flex_direction)
after_children-directions a nil h = (tt, refl)
after_children-directions a (cons (leaf b) nil) h = (tt, refl)
after_children-directions a (cons (branch b ks) nil) h = (h, refl)
after_children-directions a (cons (leaf b) (cons d cs)) h = (h, refl)
after_children-directions a (cons (branch b ks) (cons d cs)) h = (h, refl)

balance_fuel-directions : (fuel : ℕ) → KeepsDirections (balance_fuel fuel)
unfolding balance_fuel
balance_fuel-directions zero n m h k = cc h
balance_fuel-directions (suc fuel) (leaf a) m h k =
    let p : leaf a ≡ m = cc ((guard-walked (validate_node (leaf a)) (walked (leaf a)) h).1) in
    subst (λ x. Alternates x × ((attrs x).flex_direction ≡ a.flex_direction)) p (tt, refl)
balance_fuel-directions (suc fuel) (branch a cs) m h k =
    let f = a.flex_direction in
    let before = before_children f cs in
    let visited = guard-walked (validate_node (branch a cs)) _ h in
    let (cs', e, h') =
      >>=-walked (walk_each (balance_fuel fuel) before) (λ x. walked (after_children a x))
        visited.1 in
    let p : after_children a cs' ≡ m = cc h' in
    subst (λ x. Alternates x × ((attrs x).flex_direction ≡ f)) p
      (after_children-directions a cs' (
        AlternateBelow-walk_each (balance_fuel fuel) f before cs' (balance_fuel-directions fuel) e
          (AlternateBelow-before_children f cs k)))

-- Where balancing returns on a tree whose directions alternate, they alternate in the result, and
-- its root has the direction that it had.
pub balance_node-Alternates :
    (n m : LayoutNode)
    → balance_node n ≡ walked m
    → Alternates n
    → Alternates m × ((attrs m).flex_direction ≡ (attrs n).flex_direction)
unfolding balance_node
balance_node-Alternates n m h k = balance_fuel-directions (node_count n) n m h k
