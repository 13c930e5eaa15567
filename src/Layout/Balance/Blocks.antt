-- ===== src/Layout/Balance/Blocks.antt =====
-- `balanceNode` keeps what a walk of the tree meets.
use mathlib.Core.List.{append-nil}
use testmerge.Base.{ℕ, zero, suc, ◌≡◌, refl, sym, Bool, true, false, if◌then◌else◌}
use testmerge.Layout.Types.{
  FlexDirection, Attrs, LayoutNode, Nodes, leaf, branch, nil, cons, blocks, blocks_in,
}
use testmerge.Layout.Node.{validate_node}
use testmerge.Layout.Node.Arrays.{blocks_in-append}
use testmerge.Layout.Balance.{
  Walk, walked, invalid, out_of_fuel, before_child, before_children, after_children, walk_each,
  ◌>>=◌, balance_fuel, balance_node, node_count,
}

blocks-before_child : (f : FlexDirection) (c : LayoutNode) → blocks_in (before_child f c) ≡ blocks c
blocks-before_child f (leaf a) = refl
blocks-before_child f (branch a nil) = refl
blocks-before_child f (branch a (cons (branch b inner) nil)) = sym (append-nil _)
blocks-before_child f (branch a (cons (leaf b) nil)) = refl
blocks-before_child f (branch a (cons c (cons d cs))) = append-nil _

blocks-before_children :
    (f : FlexDirection) (cs : Nodes) → blocks_in (before_children f cs) ≡ blocks_in cs
unfolding before_children
blocks-before_children f nil = refl
blocks-before_children f (cons c cs) =
    rw (blocks_in-append, blocks-before_child f c, blocks-before_children f cs)

blocks-after_children : (a : Attrs) (cs : Nodes) → blocks (after_children a cs) ≡ blocks_in cs
blocks-after_children a nil = refl
blocks-after_children a (cons (leaf b) nil) = refl
blocks-after_children a (cons (branch b ks) nil) = refl
blocks-after_children a (cons (leaf b) (cons d cs)) = refl
blocks-after_children a (cons (branch b ks) (cons d cs)) = refl

-- What a bind that returns has done.
pub >>=-walked {ℓ κ} :
    {A : Type ℓ} {B : Type κ} (w : Walk A) (f : A → Walk B) {b : B}
    → (w >>= f) ≡ walked b
    → (a : A) × (w ≡ walked a) × (f a ≡ walked b)
>>=-walked (walked a) f h = (a, refl, h)
>>=-walked invalid f h = cc
>>=-walked out_of_fuel f h = cc

-- What a visit that returns has checked.
pub guard-walked {ℓ} :
    {A : Type ℓ} (b : Bool) (w : Walk A) {a : A}
    → (if b then w else invalid) ≡ walked a
    → (b ≡ true) × (w ≡ walked a)
guard-walked true w h = (refl, h)
guard-walked false w h = cc

abbrev KeepsBlocks : (LayoutNode → Walk LayoutNode) → Type 0
KeepsBlocks visit = (n m : LayoutNode) → visit n ≡ walked m → blocks m ≡ blocks n

blocks-walk_each :
    (visit : LayoutNode → Walk LayoutNode) (cs cs' : Nodes)
    → KeepsBlocks visit
    → walk_each visit cs ≡ walked cs'
    → blocks_in cs' ≡ blocks_in cs
unfolding walk_each
blocks-walk_each visit nil cs' keeps h = cc h
blocks-walk_each visit (cons c cs) cs' keeps h =
    let (c', e, h') = >>=-walked (visit c) _ h in
    let (ds, e', h'') = >>=-walked (walk_each visit cs) _ h' in
    cc (h'', keeps c c' e, blocks-walk_each visit cs ds keeps e')

blocks-balance_fuel : (fuel : ℕ) → KeepsBlocks (balance_fuel fuel)
unfolding balance_fuel
blocks-balance_fuel zero n m h = cc h
blocks-balance_fuel (suc fuel) (leaf a) m h =
    cc ((guard-walked (validate_node (leaf a)) (walked (leaf a)) h).1)
blocks-balance_fuel (suc fuel) (branch a cs) m h =
    let before = before_children a.flex_direction cs in
    let visited = guard-walked (validate_node (branch a cs)) _ h in
    let (cs', e, h') =
      >>=-walked (walk_each (balance_fuel fuel) before) (λ x. walked (after_children a x))
        visited.1 in
    cc (
      h',
      blocks-after_children a cs',
      blocks-walk_each (balance_fuel fuel) before cs' (blocks-balance_fuel fuel) e,
      blocks-before_children a.flex_direction cs,
    )

-- Where balancing returns, the walk of the tree meets the same blocks in the same order.
pub blocks-balance_node : (n m : LayoutNode) → balance_node n ≡ walked m → blocks m ≡ blocks n
unfolding balance_node
blocks-balance_node n m h = blocks-balance_fuel (node_count n) n m h
