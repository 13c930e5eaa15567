-- ===== src/Layout/Locate.antt =====
-- Where a new node goes: `findNextInsertLocation`, its helper and `findInsertLocationFromIndexArr`
-- of frontend/layout/lib/layoutNode.ts.
pub mod Room
pub mod Next
pub mod IndexPath
use Prim.Native.Nat.{◌/◌, ◌%◌}
use mathlib.Core.Option
use testmerge.Base.{
  ℕ, zero, suc, ◌+◌, ◌*◌, ◌^◌, Bool, true, false, ◌&&◌, ◌||◌, Option, none, some, List, [], ◌∷◌,
  ◌++◌, ◌==◌, leb, ltb, if◌then◌else◌,
}
use testmerge.Base.Int.{ℤ, pos, negsuc}
use testmerge.Layout.Types.{LayoutNode, Nodes, leaf, branch, nil, cons, length}

pub record InsertLocation : Type 0 where
  pub node : LayoutNode
  pub index : ℕ
  pub depth : ℕ

abbrev pub power : ℕ → InsertLocation → ℕ
power max_children l = l.depth ^ (l.index + max_children)

-- How often a number is halved until it is below 2 ^ 53.
unfoldable pub halvings : ℕ → ℕ → Option ℕ
halvings zero x = if ltb x (2 ^ 53) then some 0 else none
halvings (suc fuel) x = elim (ltb x (2 ^ 53)) [
  | true ↦ some 0
  | false ↦ Option.map suc (halvings fuel (x / 2))
]

-- To the nearest multiple of the unit, at a tie to the even one.
abbrev round_to : ℕ → ℕ → ℕ
round_to unit x =
    let q = x / unit in
    let twice = 2 * (x % unit) in
    (if ltb unit twice || (twice == unit && q % 2 == 1) then suc q else q) * unit

-- 2 ^ 1024 stands for Infinity: two of these compare as equal, as their difference is NaN.
abbrev pub rounded : ℕ → Option ℕ → ℕ
rounded x none = 2 ^ 1024
rounded x (some e) = round_to (2 ^ e) x

-- The double next to a natural number.
unfoldable pub to_double : ℕ → ℕ
unfolding halvings
to_double x = if ltb x (2 ^ 53) then x else rounded x (halvings 971 x)

-- `Math.pow`, taken to be rounded correctly.
abbrev pub weight : ℕ → InsertLocation → ℕ
weight max_children l = to_double (power max_children l)

abbrev pub first_least : ℕ → InsertLocation → Option InsertLocation → InsertLocation
first_least max_children l none = l
first_least max_children l (some m) =
    if leb (weight max_children l) (weight max_children m) then l else m

-- The first item of the list after a stable sort by weight: the first one of least weight.
unfoldable pub sorted_head : ℕ → List InsertLocation → Option InsertLocation
sorted_head max_children [] = none
sorted_head max_children (l ∷ ls) = some (first_least max_children l (sorted_head max_children ls))

abbrev pub own_location : ℕ → LayoutNode → Nodes → ℕ → List InsertLocation
own_location max_children node cs depth =
    if ltb (length cs) max_children
    then record { node = node; index = length cs; depth = depth } ∷ []
    else []

abbrev pub defined : Option InsertLocation → List InsertLocation
defined none = []
defined (some l) = l ∷ []

-- The children are visited from the last to the first.
unfoldable mutual
  unfolding sorted_head

  pub next_location_helper : LayoutNode → ℕ → ℕ → Option InsertLocation
  next_location_helper (leaf a) max_children depth =
      some (record { node = leaf a; index = 1; depth = depth })
  next_location_helper (branch a cs) max_children depth =
      sorted_head max_children (
        own_location max_children (branch a cs) cs depth
        ++ locations_in cs max_children (depth + 1))

  pub locations_in : Nodes → ℕ → ℕ → List InsertLocation
  locations_in nil max_children depth = []
  locations_in (cons c cs) max_children depth =
      locations_in cs max_children depth ++ defined (next_location_helper c max_children depth)

unfoldable pub find_next_insert_location : LayoutNode → ℕ → Option InsertLocation
unfolding next_location_helper
find_next_insert_location node max_children = next_location_helper node max_children 1

-- The result for an index array: a place, `undefined`, or a TypeError for a child that is not there.
pub data Located : Type 0 where
  located : LayoutNode → ℤ → Located
  unlocated : Located
  type_error : Located

abbrev pub children_length : LayoutNode → ℕ
children_length (leaf a) = 1
children_length (branch a cs) = length cs

abbrev min_last : ℕ → ℕ → ℤ
min_last i zero = negsuc 0
min_last i (suc last) = pos (if leb i last then i else last)

-- `childrenLength - Math.max(index, -childrenLength)` at an index below zero.
unfoldable pub normalize_index : LayoutNode → ℤ → ℤ
normalize_index node (pos i) = min_last i (children_length node)
normalize_index node (negsuc i) =
    let n = children_length node in pos (n + (if leb (suc i) n then suc i else n))

abbrev pub child_at? : Nodes → ℕ → Option LayoutNode
child_at? nil i = none
child_at? (cons c cs) zero = some c
child_at? (cons c cs) (suc i) = child_at? cs i

abbrev pub child_at_index : Nodes → ℤ → Option LayoutNode
child_at_index cs (pos i) = child_at? cs i
child_at_index cs (negsuc i) = none

unfoldable pub find_insert_location_from_index_arr : LayoutNode → List ℤ → Located
unfolding normalize_index
find_insert_location_from_index_arr node [] = unlocated
find_insert_location_from_index_arr node (i ∷ []) = located node (normalize_index node i)
find_insert_location_from_index_arr (leaf a) (i ∷ j ∷ rest) =
    located (leaf a) (normalize_index (leaf a) i)
find_insert_location_from_index_arr (branch a cs) (i ∷ j ∷ rest) =
    elim (child_at_index cs (normalize_index (branch a cs) i)) [
      | none ↦ type_error
      | some c ↦ find_insert_location_from_index_arr c (j ∷ rest)
    ]
