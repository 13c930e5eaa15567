-- ===== src/Layout/Locate/IndexPath.antt =====
-- `findInsertLocationFromIndexArr`: where an index array leads, at indices of either sign.
use testmerge.Base.{
  ℕ, zero, suc, ◌+◌, ◌≤◌, ◌<◌, ◌≡◌, refl, ◌∙◌, List, [], ◌∷◌, none, some, arith, leb, if◌then◌else◌,
}
use testmerge.Base.Int.{ℤ, pos, negsuc}
use testmerge.Layout.Types.{Attrs, LayoutNode, Nodes, leaf, branch, nil, cons, length}
use testmerge.Layout.Node.Find.{Within, WithinIn, IsChild, here, below, first, later, head, tail}
use testmerge.Layout.Balance.Total.{IsValidTree, AreValidTrees, empty_array}
use testmerge.Layout.Locate.{
  located, type_error, children_length, normalize_index, child_at?, child_at_index,
  find_insert_location_from_index_arr,
}

abbrev pub as_ints : List ℕ → List ℤ
as_ints [] = []
as_ints (i ∷ is) = pos i ∷ as_ints is

IsChild-there :
    (cs : Nodes) (i : ℕ)
    → i < length cs
    → AreValidTrees cs
    → (c : LayoutNode) × (child_at? cs i ≡ some c) × IsChild c cs × IsValidTree c
IsChild-there nil i h v = absurd (omega arith)
IsChild-there (cons c cs) zero h v = (c, refl, head, v.0)
IsChild-there (cons c cs) (suc i) h v =
    let (d, e, w, k) = IsChild-there cs i (omega arith) v.1 in (d, e, tail w, k)

-- An index that is not negative is cut off at the last child.
normalize_pos :
    (n : LayoutNode) (i : ℕ)
    → IsValidTree n
    → (k : ℕ) × (normalize_index n (pos i) ≡ pos k) × (k < children_length n)
unfolding normalize_index
normalize_pos (leaf a) i v = (_, refl, ground arith)
normalize_pos (branch a nil) i v = absurd (empty_array a v.0)
normalize_pos (branch a (cons c cs)) i v = (_, refl, ground arith)

Within-child : {m c : LayoutNode} {cs : Nodes} → Within m c → IsChild c cs → WithinIn m cs
Within-child w head = first w
Within-child w (tail i) = later (Within-child w i)

-- A child past the end is not there.
child_missing : (cs : Nodes) (i : ℕ) → length cs ≤ i → child_at? cs i ≡ none
child_missing nil i h = refl
child_missing (cons c cs) zero h = absurd (omega arith)
child_missing (cons c cs) (suc i) h = child_missing cs i (omega arith)

descend :
    (a : Attrs) (cs : Nodes) (i j : ℤ) (rest : List ℤ) (c : LayoutNode)
    → child_at_index cs (normalize_index (branch a cs) i) ≡ some c
    → find_insert_location_from_index_arr (branch a cs) (i ∷ (j ∷ rest))
      ≡ find_insert_location_from_index_arr c (j ∷ rest)
unfolding find_insert_location_from_index_arr
descend a cs i j rest c e = rw (e, find_insert_location_from_index_arr) refl

-- At indices that are not negative the search ends in every valid tree at one of its nodes, at an
-- index below the number of its children, or at index 0 of a leaf.
pub find_insert_location_from_index_arr-Within :
    (n : LayoutNode) (i : ℕ) (is : List ℕ)
    → IsValidTree n
    → (m : LayoutNode) × (k : ℕ) × (find_insert_location_from_index_arr n (as_ints (i ∷ is))
        ≡ located m (pos k))
      × Within m n
      × (k < children_length m)
unfolding find_insert_location_from_index_arr
find_insert_location_from_index_arr-Within n i [] v =
    let (k, e, lt) = normalize_pos n i v in (n, k, rw e refl, here refl, lt)
find_insert_location_from_index_arr-Within (leaf a) i (j ∷ is) v =
    let (k, e, lt) = normalize_pos (leaf a) i v in (leaf a, k, rw e refl, here refl, lt)
find_insert_location_from_index_arr-Within (branch a cs) i (j ∷ is) v =
    let (k, e, lt) = normalize_pos (branch a cs) i v in
    let (c, f, child, vc) = IsChild-there cs k lt v.1 in
    let (m, q, g, w, ltm) = find_insert_location_from_index_arr-Within c j is vc in
    (
      m,
      q,
      descend a cs (pos i) (pos j) (as_ints is) c (rw e f) ∙ g,
      below (Within-child w child),
      ltm,
    )

-- A negative index is counted past the end instead of from it. At the end of the array it gives an
-- index behind the last child, and above that the search throws.
pub negative_index :
    (a : Attrs) (cs : Nodes) (i : ℕ) (j : ℤ) (rest : List ℤ)
    → (k : ℕ) × (find_insert_location_from_index_arr (branch a cs) (negsuc i ∷ [])
        ≡ located (branch a cs) (pos k))
      × (length cs ≤ k)
      × (find_insert_location_from_index_arr (branch a cs) (negsuc i ∷ j ∷ rest) ≡ type_error)
unfolding find_insert_location_from_index_arr
negative_index a cs i j rest =
    let k = length cs + (if leb (suc i) (length cs) then suc i else length cs) in
    (
      k,
      refl,
      omega arith,
      rw (child_missing cs k (omega arith), find_insert_location_from_index_arr) refl,
    )
