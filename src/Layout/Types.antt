-- ===== src/Layout/Types.antt =====
-- The layout's data: frontend/layout/lib/types.ts, and TabLayoutData of frontend/types/custom.d.ts.
-- An id is a random UUID, of which the code reads only whether two are equal and whether one is
-- there: it is a number, and 0 is the empty string.
use testmerge.Base.{ℕ, suc, Bool, true, false, Option, none, some, List, [], ◌∷◌, ◌++◌}
use testmerge.Base.Int.{ℤ, pos}

abbrev pub NodeId : Type 0
NodeId = ℕ

abbrev pub BlockId : Type 0
BlockId = ℕ

pub record TabLayoutData : Type 0 where
  pub block_id : BlockId

pub data FlexDirection : Type 0 where
  row column : FlexDirection

pub data DropDirection : Type 0 where
  top right bottom left outer_top outer_right outer_bottom outer_left center : DropDirection

abbrev pub default_node_size : ℤ
default_node_size = pos 10

-- The fields of a LayoutNode, its children apart. `tab_data` is the field `data`.
pub record Attrs : Type 0 where
  pub id : NodeId
  pub tab_data : Option TabLayoutData
  pub flex_direction : FlexDirection
  pub size : ℤ

-- The field `children` is undefined in a `leaf`, and an array, which may be empty, in a `branch`.
mutual
  pub data LayoutNode : Type 0 where
    leaf : Attrs → LayoutNode
    branch : Attrs → Nodes → LayoutNode

  pub data Nodes : Type 0 where
    nil : Nodes
    cons : LayoutNode → Nodes → Nodes

abbrev pub attrs : LayoutNode → Attrs
attrs (leaf a) = a
attrs (branch a cs) = a

abbrev pub set_attrs : LayoutNode → Attrs → LayoutNode
set_attrs (leaf _) a = leaf a
set_attrs (branch _ cs) a = branch a cs

abbrev pub children? : LayoutNode → Option Nodes
children? (leaf a) = none
children? (branch a cs) = some cs

-- The array methods of `children`, under the names of the lists' functions.
infixr 65 ◌+++◌
abbrev pub ◌+++◌ : Nodes → Nodes → Nodes
nil +++ ys = ys
cons x xs +++ ys = cons x (xs +++ ys)

abbrev pub length : Nodes → ℕ
length nil = 0
length (cons x xs) = suc (length xs)

abbrev pub flex_eq : FlexDirection → FlexDirection → Bool
flex_eq row row = true
flex_eq column column = true
flex_eq _ _ = false

pub record LeafOrderEntry : Type 0 where
  pub node_id : NodeId
  pub block_id : BlockId

-- `pendingBackendActions` is left out: no operation of layoutTree.ts reads or writes it, and
-- Layout/Model/Backend has the actions as an argument.
pub record LayoutTreeState : Type 0 where
  pub root_node : Option LayoutNode
  pub focused_node_id : Option NodeId
  pub magnified_node_id : Option NodeId
  pub leaf_order : Option (List LeafOrderEntry)
  pub generation : ℕ

-- What shows of a tree: the blocks of its leaves, in the order of a walk, and the ids of its nodes.
abbrev mutual
  pub blocks : LayoutNode → List (Option TabLayoutData)
  blocks (leaf a) = a.tab_data ∷ []
  blocks (branch a cs) = blocks_in cs

  pub blocks_in : Nodes → List (Option TabLayoutData)
  blocks_in nil = []
  blocks_in (cons c cs) = blocks c ++ blocks_in cs
