-- ===== src/Layout/Node/Arrays.antt =====
-- Facts about arrays of nodes that the proofs about layoutNode.ts and layoutTree.ts share.
use mathlib.Core.List.{append-nil, append_assoc}
use testmerge.Base.{ℕ, zero, suc, ◌≡◌, refl, ◌++◌, arith, leb, true, Bool-cases, inl, inr}
use testmerge.Base.Int.{pos}
use testmerge.Layout.Types.{
  FlexDirection, LayoutNode, Nodes, leaf, branch, nil, cons, ◌+++◌, length, flex_eq, blocks,
  blocks_in,
}
use testmerge.Layout.Node.{flatten_children, flatten_child, splice_in, insert_at}

abbrev pub take : ℕ → Nodes → Nodes
take zero cs = nil
take (suc i) nil = nil
take (suc i) (cons c cs) = cons c (take i cs)

abbrev pub drop : ℕ → Nodes → Nodes
drop zero cs = cs
drop (suc i) nil = nil
drop (suc i) (cons c cs) = drop i cs

pub blocks_in-append : (xs ys : Nodes) → blocks_in (xs +++ ys) ≡ blocks_in xs ++ blocks_in ys
blocks_in-append nil ys = refl
blocks_in-append (cons x xs) ys = simp (blocks_in-append xs ys, append_assoc)

pub take-append-drop : (i : ℕ) (cs : Nodes) → take i cs +++ drop i cs ≡ cs
take-append-drop zero cs = refl
take-append-drop (suc i) nil = refl
take-append-drop (suc i) (cons c cs) = rw (take-append-drop i cs)

append-nil_nodes : (cs : Nodes) → cs +++ nil ≡ cs
append-nil_nodes nil = refl
append-nil_nodes (cons c cs) = rw (append-nil_nodes cs)

splice_in_lem : (i : ℕ) (xs cs : Nodes) → splice_in i xs cs ≡ take i cs +++ xs +++ drop i cs
splice_in_lem zero xs cs = refl
splice_in_lem (suc i) xs nil = rw append-nil_nodes
splice_in_lem (suc i) xs (cons c cs) = rw (splice_in_lem i xs cs)

push_lem :
    (i : ℕ) (xs cs : Nodes) → leb (length cs) i ≡ true → cs +++ xs ≡ take i cs +++ xs +++ drop i cs
push_lem zero xs nil h = rw append-nil_nodes
push_lem zero xs (cons c cs) h = absurd (ground arith)
push_lem (suc i) xs nil h = rw append-nil_nodes
push_lem (suc i) xs (cons c cs) h = rw (push_lem i xs cs (ground arith))

-- At an index that is not negative the code inserts there, or at the end.
pub insert_at_lem :
    (i : ℕ) (xs cs : Nodes) → insert_at (pos i) xs cs ≡ take i cs +++ xs +++ drop i cs
insert_at_lem i xs cs = elim (Bool-cases (leb (length cs) i)) [
  | inl e ↦ rw e (push_lem i xs cs e)
  | inr e ↦ rw e (splice_in_lem i xs cs)
]

blocks-flatten_child :
    (f : FlexDirection) (c : LayoutNode) → blocks_in (flatten_child f c) ≡ blocks c
unfolding flatten_child
blocks-flatten_child f (leaf a) = ground arith
blocks-flatten_child f (branch a cs) = elim (Bool-cases (flex_eq a.flex_direction f)) [
  | inl e ↦ rw e
  | inr e ↦ rw e (append-nil _)
]

pub blocks-flatten_children :
    (f : FlexDirection) (cs : Nodes) → blocks_in (flatten_children f cs) ≡ blocks_in cs
unfolding flatten_children
blocks-flatten_children f nil = refl
blocks-flatten_children f (cons c cs) =
    rw (blocks_in-append, blocks-flatten_child f c, blocks-flatten_children f cs)
