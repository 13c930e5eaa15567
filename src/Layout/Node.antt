-- ===== src/Layout/Node.antt =====
-- frontend/layout/lib/layoutNode.ts: creating, searching and editing the nodes of a layout tree.
-- An operation that mutates a node returns the node as it is afterwards; `none` is a throw, which
-- the source makes before it has changed anything. `crypto.randomUUID` is a parameter: `u` and `v`
-- are its next two results.
pub mod Arrays
pub mod Insert
pub mod Find
use testmerge.Base.{
  ℕ, zero, suc, ◌-◌, Bool, true, false, Option, none, some, leb, ◌==◌, if◌then◌else◌,
}
use testmerge.Base.Int.{ℤ, pos, negsuc}
use testmerge.Layout.Types.{
  NodeId, TabLayoutData, FlexDirection, row, column, default_node_size, Attrs, LayoutNode, Nodes,
  leaf, branch, nil, cons, attrs, set_attrs, children?, ◌+++◌, length, flex_eq,
}

infixl 5 ◌>>=◌
abbrev pub ◌>>=◌ {ℓ κ} : {A : Type ℓ} {B : Type κ} → Option A → (A → Option B) → Option B
none >>= f = none
some a >>= f = f a

-- utils.ts
unfoldable pub reverse_flex_direction : FlexDirection → FlexDirection
reverse_flex_direction d = if flex_eq d row then column else row

unfoldable pub validate_node : LayoutNode → Bool
validate_node (leaf a) = elim a.tab_data [ none ↦ false | some d ↦ true ]
validate_node (branch a nil) = false
validate_node (branch a (cons c cs)) = elim a.tab_data [ none ↦ true | some d ↦ false ]

abbrev with_children : Attrs → Option Nodes → LayoutNode
with_children a none = leaf a
with_children a (some cs) = branch a cs

unfoldable pub new_layout_node :
    NodeId → FlexDirection → ℤ → Option Nodes → Option TabLayoutData → Option LayoutNode
unfolding validate_node
new_layout_node u flex size children d =
    let node =
      with_children (record { id = u; tab_data = d; flex_direction = flex; size = size })
        children in
    if validate_node node then some node else none

-- The two nodes exchange ids, so that the id of `node` stays with its content.
unfoldable pub add_intermediate_node : NodeId → NodeId → LayoutNode → Option LayoutNode
unfolding new_layout_node reverse_flex_direction
add_intermediate_node u v node = elim (attrs node).tab_data [
  | some d ↦ do
    let turned = reverse_flex_direction (attrs node).flex_direction
    inter ← new_layout_node u turned default_node_size none (some d)
    some (
        branch (record (attrs node) { id = (attrs inter).id; tab_data = none })
          (cons (set_attrs inter (record (attrs inter) { id = (attrs node).id })) nil))
  | none ↦ do
    let flex = (attrs node).flex_direction
    inner ← new_layout_node u flex default_node_size (children? node) none
    inter ←
        new_layout_node v (reverse_flex_direction flex) default_node_size (some (cons inner nil))
          none
    some (
        branch (record (attrs node) { id = (attrs inter).id })
          (cons (set_attrs inter (record (attrs inter) { id = (attrs node).id })) nil))
]

-- What `addChildAt` under a parent of this direction does to a node that it is given: a leaf of the
-- same direction is turned.
unfoldable pub adopt : FlexDirection → LayoutNode → LayoutNode
unfolding reverse_flex_direction
adopt flex (leaf a) =
    if flex_eq a.flex_direction flex
    then leaf (record a { flex_direction = reverse_flex_direction flex })
    else leaf a
adopt flex (branch a cs) = branch a cs

-- The nodes that it adds in place of the given one: of a branch of the same direction the children.
unfoldable pub flatten_child : FlexDirection → LayoutNode → Nodes
unfolding adopt
flatten_child flex (leaf a) = cons (adopt flex (leaf a)) nil
flatten_child flex (branch a cs) =
    if flex_eq a.flex_direction flex then cs else cons (branch a cs) nil

unfoldable pub flatten_children : FlexDirection → Nodes → Nodes
unfolding flatten_child
flatten_children flex nil = nil
flatten_children flex (cons c cs) = flatten_child flex c +++ flatten_children flex cs

-- children.splice(i, 0, ...added)
abbrev pub splice_in : ℕ → Nodes → Nodes → Nodes
splice_in zero added cs = added +++ cs
splice_in (suc i) added nil = added
splice_in (suc i) added (cons c cs) = cons c (splice_in i added cs)

-- At or past the end the nodes are pushed; at a negative index nothing is added.
abbrev pub insert_at : ℤ → Nodes → Nodes → Nodes
insert_at (pos i) added cs = if leb (length cs) i then cs +++ added else splice_in i added cs
insert_at (negsuc i) added cs = cs

abbrev place : ℤ → Nodes → LayoutNode → LayoutNode
place idx children (leaf a) = leaf a
place idx children (branch a cs) =
    branch a (insert_at idx (flatten_children a.flex_direction children) cs)

unfoldable pub with_array : NodeId → NodeId → LayoutNode → Option LayoutNode
unfolding add_intermediate_node
with_array u v (leaf a) = add_intermediate_node u v (leaf a)
with_array u v (branch a cs) = some (branch a cs)

unfoldable pub add_child_at : NodeId → NodeId → LayoutNode → ℤ → Nodes → Option LayoutNode
unfolding with_array flatten_children
add_child_at u v node idx nil = some node
add_child_at u v node idx (cons c cs) = do
  node' ← with_array u v node
  some (place idx (cons c cs) node')

-- children.indexOf(child, from) and children.splice(idx, 1): a node is the one of its id.
unfoldable pub remove_from : NodeId → ℕ → Nodes → Nodes
remove_from child from nil = nil
remove_from child (suc from) (cons c cs) = cons c (remove_from child from cs)
remove_from child zero (cons c cs) =
    if (attrs c).id == child then cs else cons c (remove_from child zero cs)

-- A negative start counts from the end of the array.
abbrev pub start_index : ℤ → Nodes → ℕ
start_index (pos i) cs = i
start_index (negsuc i) cs = length cs - suc i

unfoldable pub remove_child : LayoutNode → NodeId → ℤ → LayoutNode
unfolding remove_from
remove_child (leaf a) child start = leaf a
remove_child (branch a cs) child start = branch a (remove_from child (start_index start cs) cs)

abbrev or_else : Option LayoutNode → Option LayoutNode → Option LayoutNode
or_else none y = y
or_else (some x) y = some x

unfoldable mutual
  pub find_node : LayoutNode → NodeId → Option LayoutNode
  find_node (leaf a) id = if a.id == id then some (leaf a) else none
  find_node (branch a cs) id = if a.id == id then some (branch a cs) else find_node_in cs id

  pub find_node_in : Nodes → NodeId → Option LayoutNode
  find_node_in nil id = none
  find_node_in (cons c cs) id = or_else (find_node c id) (find_node_in cs id)

unfoldable mutual
  pub find_parent : LayoutNode → NodeId → Option LayoutNode
  find_parent (leaf a) id = none
  find_parent (branch a cs) id = if a.id == id then none else find_parent_in (branch a cs) cs id

  pub find_parent_in : LayoutNode → Nodes → NodeId → Option LayoutNode
  find_parent_in node nil id = none
  find_parent_in node (cons c cs) id =
      if (attrs c).id == id
      then some node
      else or_else (find_parent c id) (find_parent_in node cs id)
