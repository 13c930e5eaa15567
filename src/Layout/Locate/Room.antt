-- ===== src/Layout/Locate/Room.antt =====
-- `findNextInsertLocation` finds a place with room.
use mathlib.Core.Path.{subst}
use mathlib.Core.Option.{some-injective}
use mathlib.Core.List.{append_assoc}
use testmerge.Base.{
  ℕ, suc, ◌+◌, ◌≤◌, ◌<◌, ◌≡◌, refl, ◌⊎◌, inl, inr, List, [], ◌∷◌, ◌++◌, some, arith, All, leb, ltb,
  Bool-cases, Option-cases,
}
use testmerge.Layout.Types.{Attrs, LayoutNode, Nodes, leaf, branch, nil, cons, length}
use testmerge.Layout.Node.Find.{Within, WithinIn, here, below, first, later}
use testmerge.Layout.Locate.{
  InsertLocation, weight, first_least, sorted_head, own_location, next_location_helper,
  locations_in, find_next_insert_location,
}

-- The place is a leaf of the tree, behind which the node goes, or a branch with fewer children than
-- allowed, at whose end it goes.
abbrev pub HasRoom : ℕ → LayoutNode → ℕ → Type 0
HasRoom max_children (leaf a) index = index ≡ 1
HasRoom max_children (branch a cs) index = (index ≡ length cs) × (length cs < max_children)

abbrev pub IsPlace : ℕ → LayoutNode → InsertLocation → Type 0
IsPlace max_children n l = Within l.node n × HasRoom max_children l.node l.index

abbrev IsPlaceIn : ℕ → Nodes → InsertLocation → Type 0
IsPlaceIn max_children cs l = WithinIn l.node cs × HasRoom max_children l.node l.index

pub All-append {ℓ κ} :
    {A : Type ℓ} (P : A → Type κ) (xs ys : List A) → All P xs → All P ys → All P (xs ++ ys)
All-append P [] ys h k = k
All-append P (x ∷ xs) ys h k = (h.0, All-append P xs ys h.1 k)

pub All-map {ℓ κ μ} :
    {A : Type ℓ} (P : A → Type κ) (Q : A → Type μ) (xs : List A)
    → ((a : A) → P a → Q a)
    → All P xs
    → All Q xs
All-map P Q [] f h = tt
All-map P Q (x ∷ xs) f h = (f x h.0, All-map P Q xs f h.1)

module _ (max_children : ℕ) where
  first_least_either :
      (l m : InsertLocation)
      → (first_least max_children l (some m) ≡ l) ⊎ (first_least max_children l (some m) ≡ m)
  first_least_either l m = elim (Bool-cases (leb (weight max_children l) (weight max_children m))) [
    | inl e ↦ inl (rw e)
    | inr e ↦ inr (rw e)
  ]

  pub sorted_head-All :
      (P : InsertLocation → Type 0) (ls : List InsertLocation) (l : InsertLocation)
      → All P ls
      → sorted_head max_children ls ≡ some l
      → P l
  unfolding sorted_head
  sorted_head-All P [] l h e = absurd (cc e)
  sorted_head-All P (x ∷ xs) l h e = elim (Option-cases (sorted_head max_children xs)) [
    | inl f ↦ subst P (ground arith) h.0
    | inr (y, f) ↦ elim (first_least_either x y) [
      | inl g ↦ subst P (let p : x ≡ l = cc (e, f, g) in p) h.0
      | inr g ↦ subst P (let p : y ≡ l = cc (e, f, g) in p) (sorted_head-All P xs y h.1 f)
    ]
  ]

  abbrev pub Least : InsertLocation → List InsertLocation → Type 0
  Least l ls = All (λ x. weight max_children l ≤ weight max_children x) ls

  Least-cons :
      (x m l : InsertLocation) (ls : List InsertLocation)
      → first_least max_children x (some m) ≡ l
      → Least m ls
      → Least l (x ∷ ls)
  Least-cons x m l ls p h =
      elim (Bool-cases (leb (weight max_children x) (weight max_children m))) [
        | inl e ↦
            subst (λ k. Least k (x ∷ ls)) (let q : x ≡ l = cc (p, e) in q)
              (omega arith, All-map _ _ ls (λ y k. ground arith) h)
        | inr e ↦ subst (λ k. Least k (x ∷ ls)) (let q : m ≡ l = cc (p, e) in q) (ground arith, h)
      ]

  -- The head of the sorted list has the least weight of all.
  pub sorted_head-Least :
      (ls : List InsertLocation) (l : InsertLocation)
      → sorted_head max_children ls ≡ some l
      → Least l ls
  unfolding sorted_head
  sorted_head-Least [] l e = tt
  sorted_head-Least (x ∷ []) l e =
      subst (λ k. Least k (x ∷ [])) (let q : x ≡ l = cc e in q) (omega arith, tt)
  sorted_head-Least (x ∷ (y ∷ ys)) l e =
      Least-cons x (first_least max_children y (sorted_head max_children ys)) l (y ∷ ys) (cc e)
        (sorted_head-Least (y ∷ ys) (first_least max_children y (sorted_head max_children ys)) refl)

  some_head :
      (x : InsertLocation) (xs ys : List InsertLocation)
      → (l : InsertLocation) × (sorted_head max_children (xs ++ (x ∷ ys)) ≡ some l)
  unfolding sorted_head
  some_head x [] ys = (_, refl)
  some_head x (y ∷ xs) ys = (_, refl)

own_IsPlace :
    (a : Attrs) (cs : Nodes) (max_children depth : ℕ)
    → All (IsPlace max_children (branch a cs)) (own_location max_children (branch a cs) cs depth)
own_IsPlace a cs max_children depth = elim (Bool-cases (ltb (length cs) max_children)) [
  | inl e ↦ rw e ((here refl, (refl, ground arith)), tt)
  | inr e ↦ rw e tt
]

mutual
  unfolding next_location_helper

  pub helper_IsPlace :
      (n : LayoutNode) (max_children depth : ℕ) (l : InsertLocation)
      → next_location_helper n max_children depth ≡ some l
      → IsPlace max_children n l
  helper_IsPlace (leaf a) max_children depth l e =
      subst (IsPlace max_children (leaf a)) (some-injective _ l e) (here refl, refl)
  helper_IsPlace (branch a cs) max_children depth l e =
      sorted_head-All max_children (IsPlace max_children (branch a cs)) _ l
        (All-append (IsPlace max_children (branch a cs)) _ _ (own_IsPlace a cs max_children depth) (
          All-map (IsPlaceIn max_children cs) (IsPlace max_children (branch a cs)) _
            (λ x h. (below h.0, h.1)) (locations_IsPlace cs max_children (depth + 1))))
        e

  locations_IsPlace :
      (cs : Nodes) (max_children depth : ℕ)
      → All (IsPlaceIn max_children cs) (locations_in cs max_children depth)
  locations_IsPlace nil max_children depth = tt
  locations_IsPlace (cons c cs) max_children depth =
      All-append (IsPlaceIn max_children (cons c cs)) (locations_in cs max_children depth) _
        (All-map (IsPlaceIn max_children cs) (IsPlaceIn max_children (cons c cs)) _
          (λ x h. (later h.0, h.1)) (locations_IsPlace cs max_children depth))
        (elim (Option-cases (next_location_helper c max_children depth)) [
          | inl e ↦ rw e tt
          | inr (l, e) ↦
              let h = helper_IsPlace c max_children depth l e in rw e ((first h.0, h.1), tt)
        ])

pub helper_some :
    (n : LayoutNode) (k depth : ℕ)
    → (l : InsertLocation) × (next_location_helper n (suc k) depth ≡ some l)
unfolding next_location_helper
helper_some (leaf a) k depth = (_, refl)
helper_some (branch a nil) k depth =
    (record { node = branch a nil; index = 0; depth = depth }, ground arith)
helper_some (branch a (cons c cs)) k depth =
    let (x, e) = helper_some c k (depth + 1) in
    let own = own_location (suc k) (branch a (cons c cs)) (cons c cs) depth in
    let (l, f) = some_head (suc k) x (own ++ locations_in cs (suc k) (depth + 1)) [] in
    (l, rw (e, ← append_assoc own (locations_in cs (suc k) (depth + 1)) (x ∷ [])) f)

-- A node always finds a place: a leaf of the tree, or a branch with room for one more child.
pub find_next_insert_location-IsPlace :
    (n : LayoutNode) (k : ℕ)
    → (l : InsertLocation) × (find_next_insert_location n (suc k) ≡ some l) × IsPlace (suc k) n l
unfolding find_next_insert_location
find_next_insert_location-IsPlace n k =
    let (l, e) = helper_some n k 1 in (l, e, helper_IsPlace n (suc k) 1 l e)
