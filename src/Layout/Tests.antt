-- ===== src/Layout/Tests.antt =====
-- The theorems on the layout at concrete trees.
use testmerge.Base.{ℕ, ◌≡◌, refl, ap, ◌≢◌, true, false, none, some, arith}
use testmerge.Base.Int.{pos}
use testmerge.Layout.Types.{
  NodeId, FlexDirection, row, column, Attrs, LayoutNode, leaf, branch, nil, cons, blocks,
  LayoutTreeState,
}
use testmerge.Layout.Node.{validate_node, find_node, find_parent}
use testmerge.Layout.Balance.{walked, balance_node}
use testmerge.Layout.Balance.Blocks.{blocks-balance_node}
use testmerge.Layout.Balance.Total.{IsValidTree, IsCollapsed, balance_node-IsValidTree}
use testmerge.Layout.Balance.Alternate.{Alternates, balance_node-Alternates}
use testmerge.Layout.Tree.{done, InsertNodeOperation, insert_node, delete_node}
use testmerge.Layout.Tree.Replace.{HasUniqueIds}
use testmerge.Layout.Tree.Insert.{IsInserted, insert_node-IsInserted}
use testmerge.Layout.Node.Find.{here, below, first, later, times}
use testmerge.Layout.Tree.{swap_node, exchange}
use testmerge.Layout.Tree.Exchange.{Apart, same_node}
use testmerge.Layout.Tree.Swap.{Keeps, state_of, swap_node-Keeps}
use testmerge.Layout.Tree.Delete.{IsDeleted, delete_node-IsDeleted}

abbrev leaf_of : NodeId → FlexDirection → ℕ → LayoutNode
leaf_of id flex block = leaf (record {
  id = id;
  tab_data = some (record { block_id = block });
  flex_direction = flex;
  size = pos 10;
})

abbrev inner : NodeId → FlexDirection → Attrs
inner id flex = record { id = id; tab_data = none; flex_direction = flex; size = pos 10 }

-- A row of a leaf and a column of two.
abbrev tree : LayoutNode
tree = branch (inner 1 row) (
    cons (leaf_of 2 column 20)
      (cons (branch (inner 3 column) (cons (leaf_of 4 row 40) (cons (leaf_of 5 row 50) nil))) nil))

abbrev column_node : LayoutNode
column_node = branch (inner 3 column) (cons (leaf_of 4 row 40) (cons (leaf_of 5 row 50) nil))

find_five : find_node tree 5 ≡ some (leaf_of 5 row 50)
unfolding find_node
find_five = refl

find_parent_five : find_parent tree 5 ≡ some column_node
unfolding find_parent
find_parent_five = refl

-- A row whose only content lies two arrays deeper.
abbrev nested : LayoutNode
nested = branch (inner 1 row) (
    cons
      (branch (inner 2 column) (
        cons (branch (inner 3 row) (cons (leaf_of 4 column 40) (cons (leaf_of 5 column 50) nil)))
          nil))
      nil)

abbrev unnested : LayoutNode
unnested = branch (inner 1 row) (cons (leaf_of 4 column 40) (cons (leaf_of 5 column 50) nil))

tree-HasUniqueIds : HasUniqueIds tree
tree-HasUniqueIds id = ground arith

tree-IsValidTree : IsValidTree tree
unfolding validate_node
tree-IsValidTree = (refl, (refl, ((refl, (refl, (refl, tt))), tt)))

balance_nested : balance_node nested ≡ walked unnested
unfolding balance_node
balance_nested = refl

blocks-balance_node_example : blocks unnested ≡ blocks nested
blocks-balance_node_example = blocks-balance_node nested unnested balance_nested

nested-IsValidTree : IsValidTree nested
unfolding validate_node
nested-IsValidTree = (refl, ((refl, ((refl, (refl, (refl, tt))), tt)), tt))

balance_node-IsValidTree_example :
    (m : LayoutNode) × (balance_node nested ≡ walked m) × IsValidTree m × IsCollapsed m
balance_node-IsValidTree_example = balance_node-IsValidTree nested nested-IsValidTree

column-ne-row : column ≢ row
column-ne-row p = cc p

row-ne-column : row ≢ column
row-ne-column p = cc p

nested-Alternates : Alternates nested
nested-Alternates =
    (column-ne-row, (row-ne-column, (column-ne-row, tt, (column-ne-row, tt, tt)), tt), tt)

balance_node-Alternates_example : Alternates unnested × (row ≡ row)
balance_node-Alternates_example =
    balance_node-Alternates nested unnested balance_nested nested-Alternates

abbrev state : LayoutTreeState
state = record {
  root_node = some tree;
  focused_node_id = some 4;
  magnified_node_id = none;
  leaf_order = none;
  generation = 7;
}

abbrev new_leaf : InsertNodeOperation
new_leaf = record { node = leaf_of 6 row 60; magnified = false; focused = true }

insert_node-IsInserted_example :
    (s' : LayoutTreeState) × (insert_node 8 9 state new_leaf ≡ done s')
    × IsInserted new_leaf tree state s'
insert_node-IsInserted_example =
    insert_node-IsInserted 8 9 state new_leaf tree tree-HasUniqueIds tree-IsValidTree refl

delete_node-IsDeleted_example :
    (s' : LayoutTreeState) × (delete_node state 4 ≡ done s') × IsDeleted 4 tree state s'
delete_node-IsDeleted_example =
    delete_node-IsDeleted state tree 4 tree-HasUniqueIds refl (omega arith) (omega arith)
      (omega arith)

-- The leafs of the blocks 20 and 50 lie apart, as leafs do.
leafs-Apart : Apart 2 5 tree
leafs-Apart m w = (
  λ e. ap (times 5) (same_node 2 (below (first (here refl))) w refl e (tree-HasUniqueIds 2)),
  λ e. ap (times 2) (
      same_node 5 (below (later (first (below (later (first (here refl))))))) w refl e
        (tree-HasUniqueIds 5)),
)

swapped : swap_node state 2 5 ≡ done (state_of (swap_node state 2 5))
unfolding swap_node exchange find_parent
swapped = refl

swap_node-Keeps_example : Keeps tree (state_of (swap_node state 2 5))
swap_node-Keeps_example = swap_node-Keeps state tree refl 2 5 tree-HasUniqueIds leafs-Apart
