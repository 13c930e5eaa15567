-- ===== src/Layout/Balance.antt =====
-- `walkNodes` and `balanceNode` of frontend/layout/lib/layoutNode.ts. The walk replaces the children
-- of a node before it visits them, so it is a recursion on fuel; `out_of_fuel` is no result of the
-- code. Without the callers' optional callbacks.
pub mod Blocks
pub mod Alternate
pub mod Total
use testmerge.Base.{ℕ, zero, suc, ◌+◌, if◌then◌else◌}
use testmerge.Layout.Types.{
  FlexDirection, Attrs, LayoutNode, Nodes, leaf, branch, nil, cons, ◌+++◌, flex_eq,
}
use testmerge.Layout.Node.{reverse_flex_direction, validate_node}

pub data Walk {ℓ} (A : Type ℓ) : Type ℓ where
  walked : A → Walk A
  invalid : Walk A
  out_of_fuel : Walk A

infixl 5 ◌>>=◌
abbrev pub ◌>>=◌ {ℓ κ} : {A : Type ℓ} {B : Type κ} → Walk A → (A → Walk B) → Walk B
walked a >>= f = f a
invalid >>= f = invalid
out_of_fuel >>= f = out_of_fuel

abbrev pub turn : FlexDirection → Attrs → Attrs
turn flex a = record a {
  flex_direction =
      if flex_eq a.flex_direction flex then reverse_flex_direction flex else a.flex_direction;
}

-- What a child becomes before the walk visits it: the children of its only child, if that has any
-- array; nothing, if its own array is empty; else itself. `undefined` is left out at once, which the
-- source's filter does after the visit, since the walk passes over it.
abbrev pub before_child : FlexDirection → LayoutNode → Nodes
before_child flex (leaf a) = cons (leaf (turn flex a)) nil
before_child flex (branch a nil) = nil
before_child flex (branch a (cons (branch b inner) nil)) = inner
before_child flex (branch a (cons (leaf b) nil)) =
    cons (branch (turn flex a) (cons (leaf b) nil)) nil
before_child flex (branch a (cons c (cons d cs))) =
    cons (branch (turn flex a) (cons c (cons d cs))) nil

unfoldable pub before_children : FlexDirection → Nodes → Nodes
before_children flex nil = nil
before_children flex (cons c cs) = before_child flex c +++ before_children flex cs

-- After the visit a node whose only child is a leaf takes that leaf's content and id.
abbrev pub after_children : Attrs → Nodes → LayoutNode
after_children a (cons (leaf b) nil) = leaf (record a { id = b.id; tab_data = b.tab_data })
after_children a cs = branch a cs

unfoldable pub walk_each : (LayoutNode → Walk LayoutNode) → Nodes → Walk Nodes
walk_each visit nil = walked nil
walk_each visit (cons c cs) = do c' ← visit c; cs' ← walk_each visit cs; walked (cons c' cs')

abbrev visit_branch : (LayoutNode → Walk LayoutNode) → Attrs → Nodes → Walk LayoutNode
visit_branch visit a cs = do
  cs' ← walk_each visit (before_children a.flex_direction cs)
  walked (after_children a cs')

unfoldable pub balance_fuel : ℕ → LayoutNode → Walk LayoutNode
unfolding validate_node walk_each before_children
balance_fuel zero node = out_of_fuel
balance_fuel (suc fuel) (leaf a) = if validate_node (leaf a) then walked (leaf a) else invalid
balance_fuel (suc fuel) (branch a cs) =
    if validate_node (branch a cs) then visit_branch (balance_fuel fuel) a cs else invalid

-- The number of nodes.
abbrev mutual
  pub node_count : LayoutNode → ℕ
  node_count (leaf a) = 1
  node_count (branch a cs) = suc (count_in cs)

  pub count_in : Nodes → ℕ
  count_in nil = 0
  count_in (cons c cs) = node_count c + count_in cs

unfoldable pub balance_node : LayoutNode → Walk LayoutNode
unfolding balance_fuel
balance_node node = balance_fuel (node_count node) node
