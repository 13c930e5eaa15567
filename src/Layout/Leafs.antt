-- ===== src/Layout/Leafs.antt =====
-- What `updateTree` of frontend/layout/lib/layoutModel.ts finds of the leafs of a tree while it
-- balances it, and the order of the leafs. A tree key, a text of digits, is the list of the digits,
-- which localeCompare orders by the first difference. The rectangles are left out.
pub mod Order
pub mod Total
use Prim.Native.Nat.{◌/◌, ◌%◌}
use testmerge.Base.{
  ℕ, zero, suc, Bool, true, false, not, ◌||◌, ◌&&◌, Option, none, some, List, [], ◌∷◌, ◌++◌, ltb,
  ◌==◌, if◌then◌else◌,
}
use testmerge.Base.Sort.{sort_by}
use testmerge.Layout.Types.{
  NodeId, Attrs, LayoutNode, Nodes, leaf, branch, nil, cons, TabLayoutData, LeafOrderEntry,
}
use testmerge.Layout.Node.{validate_node}
use testmerge.Layout.Balance.{
  Walk, walked, invalid, out_of_fuel, ◌>>=◌, before_children, balance_node, node_count,
}

abbrev pub TreeKey : Type 0
TreeKey = List ℕ

digits_fuel : ℕ → ℕ → List ℕ
digits_fuel zero i = []
digits_fuel (suc fuel) i =
    let rest = digits_fuel fuel (i / 10) in if ltb i 10 then i ∷ [] else rest ++ (i % 10) ∷ []

-- The decimal digits of an index.
unfoldable pub digits : ℕ → List ℕ
unfolding digits_fuel
digits i = digits_fuel (suc i) i

unfoldable pub key_before : TreeKey → TreeKey → Bool
key_before [] [] = false
key_before [] (y ∷ ys) = true
key_before (x ∷ xs) [] = false
key_before (x ∷ xs) (y ∷ ys) = let rest = key_before xs ys in ltb x y || (x == y && rest)

-- A leaf of `newLeafs` with its tree key.
abbrev pub KeyedLeaf : Type 0
KeyedLeaf = TreeKey × LeafOrderEntry

-- `node.data.blockId` throws where there is no data.
abbrev pub entry_of : Attrs → Option TabLayoutData → Walk LeafOrderEntry
entry_of a none = invalid
entry_of a (some d) = walked (record { node_id = a.id; block_id = d.block_id })

-- A child with an empty array is undefined while the callback runs, which throws of it.
abbrev pub has_undefined : Nodes → Bool
has_undefined nil = false
has_undefined (cons (branch a nil) cs) = true
has_undefined (cons _ cs) = has_undefined cs

unfoldable pub leafs_each :
    (TreeKey → LayoutNode → Walk (List KeyedLeaf)) → TreeKey → ℕ → Nodes → Walk (List KeyedLeaf)
unfolding digits
leafs_each visit key i nil = walked []
leafs_each visit key i (cons c cs) = do
  ls ← visit (key ++ digits i) c
  rest ← leafs_each visit key (suc i) cs
  walked (ls ++ rest)

abbrev pub leaf_at : TreeKey → Attrs → Walk (List KeyedLeaf)
leaf_at key a = do e ← entry_of a a.tab_data; walked ((key, e) ∷ [])

-- The walk of `balanceNode` with `updateTreeHelper` for its callback; `key` is the tree key of the
-- node. A branch that before_children leaves without children, which no valid tree has, gives no leaf
-- here; the code takes it for a leaf, of whose missing data the order of the leafs throws.
unfoldable pub leafs_fuel : ℕ → TreeKey → LayoutNode → Walk (List KeyedLeaf)
unfolding validate_node before_children leafs_each
leafs_fuel zero key node = out_of_fuel
leafs_fuel (suc fuel) key (leaf a) = if validate_node (leaf a) then leaf_at key a else invalid
leafs_fuel (suc fuel) key (branch a cs) =
    if validate_node (branch a cs)
    then if has_undefined cs
      then invalid
      else leafs_each (leafs_fuel fuel) key 0 (before_children a.flex_direction cs)
    else invalid

-- The root has the key "0". Alone it has none, which an order of one leaf does not read.
unfoldable pub find_leafs : LayoutNode → Walk (List KeyedLeaf)
unfolding leafs_fuel
find_leafs root = leafs_fuel (node_count root) (0 ∷ []) root

-- The balanced tree and what the callback found.
unfoldable pub balance_with_leafs : LayoutNode → Walk (LayoutNode × List KeyedLeaf)
unfolding balance_node find_leafs
balance_with_leafs root = do
  balanced ← balance_node root
  ls ← find_leafs root
  walked (balanced, ls)

abbrev leaf_before : KeyedLeaf → KeyedLeaf → Bool
leaf_before (k, _) (l, _) = key_before k l

abbrev pub entries : List KeyedLeaf → List LeafOrderEntry
entries [] = []
entries ((k, e) ∷ ls) = e ∷ entries ls

unfoldable pub get_leaf_order : List KeyedLeaf → List LeafOrderEntry
unfolding key_before sort_by
get_leaf_order ls = entries (sort_by leaf_before ls)

abbrev id_before : LeafOrderEntry → LeafOrderEntry → Bool
id_before e f = ltb e.node_id f.node_id

-- The leafs sorted by their ids; the numbers of the ids stand in the order of localeCompare.
unfoldable pub sorted_leafs : List LeafOrderEntry → List LeafOrderEntry
unfolding sort_by
sorted_leafs es = sort_by id_before es
