-- ===== src/Layout/Locate/Next.antt =====
-- The place that `findNextInsertLocation` finds is one of the least power.
use mathlib.Core.Path.{subst}
use mathlib.Core.Option.{some-injective}
use native.Mathlib.Nat.{le_trans}
use testmerge.Base.{
  ℕ, suc, ◌+◌, ◌≤◌, ◌<◌, ◌≡◌, inl, inr, List, [], ◌∷◌, ◌++◌, some, arith, All, ltb, ◌^◌,
  if◌then◌else◌, Option-cases,
}
use testmerge.Layout.Types.{LayoutNode, Nodes, leaf, branch, nil, cons}
use testmerge.Layout.Locate.{
  InsertLocation, power, halvings, rounded, to_double, weight, own_location, next_location_helper,
  locations_in, find_next_insert_location,
}
use testmerge.Layout.Locate.Room.{
  All-append, All-map, IsPlace, sorted_head-All, sorted_head-Least, helper_IsPlace, helper_some,
}

-- Every place with room in the tree.
unfoldable mutual
  pub places : LayoutNode → ℕ → ℕ → List InsertLocation
  places (leaf a) max_children depth = record { node = leaf a; index = 1; depth = depth } ∷ []
  places (branch a cs) max_children depth =
      own_location max_children (branch a cs) cs depth ++ places_in cs max_children (depth + 1)

  pub places_in : Nodes → ℕ → ℕ → List InsertLocation
  places_in nil max_children depth = []
  places_in (cons c cs) max_children depth =
      places_in cs max_children depth ++ places c max_children depth

All-left {ℓ κ} :
    {A : Type ℓ} (P : A → Type κ) (xs ys : List A) → All P (xs ++ ys) → All P xs × All P ys
All-left P [] ys h = (tt, h)
All-left P (x ∷ xs) ys h = let r = All-left P xs ys h.1 in ((h.0, r.0), r.1)

abbrev pub IsLeast : ℕ → InsertLocation → List InsertLocation → Type 0
IsLeast max_children l ls = All (λ x. weight max_children l ≤ weight max_children x) ls

mutual
  unfolding next_location_helper places

  helper-IsLeast :
      (n : LayoutNode) (k depth : ℕ) (l : InsertLocation)
      → next_location_helper n (suc k) depth ≡ some l
      → IsLeast (suc k) l (places n (suc k) depth)
  helper-IsLeast (leaf a) k depth l e =
      subst (λ x. IsLeast (suc k) x (places (leaf a) (suc k) depth)) (some-injective _ l e)
        (omega arith, tt)
  helper-IsLeast (branch a cs) k depth l e =
      let own = own_location (suc k) (branch a cs) cs depth in
      let h =
        All-left _ own (locations_in cs (suc k) (depth + 1))
          (sorted_head-Least (suc k) (own ++ locations_in cs (suc k) (depth + 1)) l e) in
      All-append _ own _ h.0 (places-IsLeast cs k (depth + 1) l h.1)

  places-IsLeast :
      (cs : Nodes) (k depth : ℕ) (l : InsertLocation)
      → IsLeast (suc k) l (locations_in cs (suc k) depth)
      → IsLeast (suc k) l (places_in cs (suc k) depth)
  places-IsLeast nil k depth l h = tt
  places-IsLeast (cons c cs) k depth l h =
      let parts = All-left _ (locations_in cs (suc k) depth) _ h in
      let (y, e) = helper_some c k depth in
      let le : IsLeast (suc k) l (y ∷ []) = rw e at (parts.1) in
      All-append _ (places_in cs (suc k) depth) _ (places-IsLeast cs k depth l parts.0) (
        All-map _ _ (places c (suc k) depth) (λ x p. le_trans le.0 p)
          (helper-IsLeast c k depth y e))

-- The place that is found is one of those with room.
mutual
  unfolding next_location_helper places

  helper_All :
      (P : InsertLocation → Type 0) (n : LayoutNode) (max_children depth : ℕ) (l : InsertLocation)
      → All P (places n max_children depth)
      → next_location_helper n max_children depth ≡ some l
      → P l
  helper_All P (leaf a) max_children depth l h e = subst P (some-injective _ l e) h.0
  helper_All P (branch a cs) max_children depth l h e =
      let own = own_location max_children (branch a cs) cs depth in
      let (p, q) = All-left P own (places_in cs max_children (depth + 1)) h in
      sorted_head-All max_children P (own ++ locations_in cs max_children (depth + 1)) l
        (All-append P own _ p (locations_All P cs max_children (depth + 1) q)) e

  locations_All :
      (P : InsertLocation → Type 0) (cs : Nodes) (max_children depth : ℕ)
      → All P (places_in cs max_children depth)
      → All P (locations_in cs max_children depth)
  locations_All P nil max_children depth h = tt
  locations_All P (cons c cs) max_children depth h =
      let (p, q) = All-left P (places_in cs max_children depth) _ h in
      All-append P (locations_in cs max_children depth) _ (locations_All P cs max_children depth p)
        (elim (Option-cases (next_location_helper c max_children depth)) [
          | inl e ↦ rw e tt
          | inr (l, e) ↦ rw e (helper_All P c max_children depth l q e, tt)
        ])

abbrev pub IsExact : ℕ → InsertLocation → Type 0
IsExact max_children l = power max_children l < 2 ^ 53

abbrev pub HasLeastPower : ℕ → InsertLocation → List InsertLocation → Type 0
HasLeastPower max_children l ls = All (λ x. power max_children l ≤ power max_children x) ls

taken_below : (x bound y : ℕ) → x < bound → (if ltb x bound then x else y) ≡ x
taken_below x bound y h = ground arith

to_double-exact : (x : ℕ) → x < 2 ^ 53 → to_double x ≡ x
unfolding to_double
to_double-exact x h = taken_below x (2 ^ 53) (rounded x (halvings 971 x)) h

IsLeast-exact :
    (max_children : ℕ) (l : InsertLocation) (ls : List InsertLocation)
    → IsExact max_children l
    → All (IsExact max_children) ls
    → IsLeast max_children l ls
    → HasLeastPower max_children l ls
IsLeast-exact max_children l [] e es h = tt
IsLeast-exact max_children l (x ∷ ls) e es h = (
  rw (to_double-exact _ e, to_double-exact _ es.0) at (h.0),
  IsLeast-exact max_children l ls e es.1 h.1,
)

pub find_next_insert_location-IsPlace :
    (n : LayoutNode) (k : ℕ)
    → All (IsExact (suc k)) (places n (suc k) 1)
    → (l : InsertLocation) × (find_next_insert_location n (suc k) ≡ some l)
      × IsPlace (suc k) n l
      × HasLeastPower (suc k) l (places n (suc k) 1)
unfolding find_next_insert_location
find_next_insert_location-IsPlace n k exact =
    let (l, e) = helper_some n k 1 in
    let own = helper_All (IsExact (suc k)) n (suc k) 1 l exact e in
    (
      l,
      e,
      helper_IsPlace n (suc k) 1 l e,
      IsLeast-exact (suc k) l _ own exact (helper-IsLeast n k 1 l e),
    )
