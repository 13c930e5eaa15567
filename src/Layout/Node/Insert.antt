-- ===== src/Layout/Node/Insert.antt =====
-- `addIntermediateNode`, `addChildAt` and `removeChild` against the walk of a tree's blocks.
use mathlib.Core.List.{append-nil}
use testmerge.Base.{
  ℕ, zero, suc, ◌≤◌, ◌≡◌, refl, ap, sym, ◌∙◌, List, ◌++◌, Option, none, some, arith, true, ◌≢◌,
}
use testmerge.Base.Int.{ℤ, pos, negsuc}
use testmerge.Layout.Types.{
  NodeId, LayoutNode, Nodes, Attrs, leaf, branch, nil, cons, attrs, ◌+++◌, length, blocks,
  blocks_in, default_node_size, FlexDirection, TabLayoutData,
}
use testmerge.Layout.Node.{
  reverse_flex_direction, validate_node, add_intermediate_node, add_child_at, flatten_children,
  remove_from, remove_child, insert_at,
}
use testmerge.Layout.Node.Arrays.{
  take, drop, take-append-drop, blocks_in-append, insert_at_lem, blocks-flatten_children,
}

-- The places below a node, once it has an array: a leaf becomes its own only child.
abbrev pub slots : LayoutNode → Nodes
slots (leaf a) = cons (leaf a) nil
slots (branch a cs) = cs

-- Of a valid node the blocks stay as they are: the result is a valid branch with one valid child,
-- which has the node's old id.
pub record IsLowered (n : LayoutNode) (a : Attrs) (c : LayoutNode) : Type 0 where
  pub keeps_blocks : blocks c ≡ blocks n
  pub keeps_id : (attrs c).id ≡ (attrs n).id
  pub same_direction : a.flex_direction ≡ (attrs n).flex_direction
  pub valid_above : validate_node (branch a (cons c nil)) ≡ true
  pub valid_below : validate_node c ≡ true

pub add_intermediate_node_lem :
    (u v : NodeId) (n : LayoutNode)
    → validate_node n ≡ true
    → (a : Attrs) × (c : LayoutNode) × (add_intermediate_node u v n ≡ some (branch a (cons c nil)))
      × IsLowered n a c
unfolding add_intermediate_node validate_node
add_intermediate_node_lem u v (leaf a) h = (
  record a { id = u; tab_data = none },
  leaf (record {
    id = a.id;
    tab_data = a.tab_data;
    flex_direction = reverse_flex_direction a.flex_direction;
    size = default_node_size;
  }),
  ground arith,
  record {
    keeps_blocks = refl;
    keeps_id = refl;
    same_direction = refl;
    valid_above = refl;
    valid_below = h;
  },
)
add_intermediate_node_lem u v (branch a nil) h = absurd (ground arith)
add_intermediate_node_lem u v (branch a (cons k ks)) h = (
  record a { id = v },
  branch
      (record {
        id = a.id;
        tab_data = none;
        flex_direction = reverse_flex_direction a.flex_direction;
        size = default_node_size;
      })
      (cons
        (branch
          (record {
            id = u;
            tab_data = none;
            flex_direction = a.flex_direction;
            size = default_node_size;
          })
          (cons k ks))
        nil),
  ground arith,
  record {
    keeps_blocks = append-nil _;
    keeps_id = refl;
    same_direction = refl;
    valid_above = ground arith;
    valid_below = refl;
  },
)

-- What a walk of an array meets once nodes are added at the index.
abbrev pub inserted_blocks : Nodes → ℤ → Nodes → List (Option TabLayoutData)
inserted_blocks cs (pos i) xs = blocks_in (take i cs) ++ (blocks_in xs ++ blocks_in (drop i cs))
inserted_blocks cs (negsuc i) xs = blocks_in cs

blocks-insert_at :
    (f : FlexDirection) (idx : ℤ) (xs cs : Nodes)
    → blocks_in (insert_at idx (flatten_children f xs) cs) ≡ inserted_blocks cs idx xs
blocks-insert_at f (pos i) xs cs = simp (insert_at_lem, blocks_in-append, blocks-flatten_children)
blocks-insert_at f (negsuc i) xs cs = refl

-- An only child may be replaced by one of the same blocks.
inserted_blocks-only :
    (c d : LayoutNode) (idx : ℤ) (xs : Nodes)
    → blocks c ≡ blocks d
    → inserted_blocks (cons c nil) idx xs ≡ inserted_blocks (cons d nil) idx xs
inserted_blocks-only c d (pos zero) xs h = rw h
inserted_blocks-only c d (pos (suc i)) xs h = rw h
inserted_blocks-only c d (negsuc i) xs h = rw h

inserted_blocks-nil : (cs : Nodes) (idx : ℤ) → inserted_blocks cs idx nil ≡ blocks_in cs
inserted_blocks-nil cs (pos i) =
    sym (blocks_in-append (take i cs) (drop i cs)) ∙ ap blocks_in (take-append-drop i cs)
inserted_blocks-nil cs (negsuc i) = refl

-- Adding nodes to a valid node at an index that is not negative succeeds, and their blocks come
-- between those of the first children, as many as the index says, and those of the rest. At a
-- negative index the given nodes are lost and the blocks stay.
pub blocks-add_child_at :
    (u v : NodeId) (n : LayoutNode) (idx : ℤ) (xs : Nodes)
    → validate_node n ≡ true
    → (m : LayoutNode) × (add_child_at u v n idx xs ≡ some m)
      × (blocks m ≡ inserted_blocks (slots n) idx xs)
unfolding add_child_at
blocks-add_child_at u v (leaf a) idx nil h =
    (leaf a, refl, sym (inserted_blocks-nil (cons (leaf a) nil) idx))
blocks-add_child_at u v (branch a cs) idx nil h =
    (branch a cs, refl, sym (inserted_blocks-nil cs idx))
blocks-add_child_at u v (branch a cs) idx (cons x xs) h = (
  branch a (insert_at idx (flatten_children a.flex_direction (cons x xs)) cs),
  refl,
  blocks-insert_at a.flex_direction idx (cons x xs) cs,
)
blocks-add_child_at u v (leaf a) idx (cons x xs) h =
    let (b, c, e, low) = add_intermediate_node_lem u v (leaf a) h in
    (
      branch b (insert_at idx (flatten_children b.flex_direction (cons x xs)) (cons c nil)),
      rw e refl,
      blocks-insert_at b.flex_direction idx (cons x xs) (cons c nil)
          ∙ inserted_blocks-only c (leaf a) idx (cons x xs) low.keeps_blocks,
    )

-- No node of the array has the id.
abbrev pub Lacks : NodeId → Nodes → Type 0
Lacks id nil = Unit
Lacks id (cons c cs) = ((attrs c).id ≢ id) × Lacks id cs

remove_from-first :
    (id : NodeId) (from : ℕ) (before : Nodes) (c : LayoutNode) (after : Nodes)
    → from ≤ length before
    → Lacks id (drop from before)
    → (attrs c).id ≡ id
    → remove_from id from (before +++ cons c after) ≡ before +++ after
unfolding remove_from
remove_from-first id zero nil c after le lacks e = ground arith
remove_from-first id (suc from) nil c after le lacks e = absurd (omega arith)
remove_from-first id zero (cons b before) c after le lacks e =
    ground (arith, remove_from-first id zero before c after)
remove_from-first id (suc from) (cons b before) c after le lacks e =
    rw (remove_from-first id from before c after (omega arith) lacks e)

-- `removeChild` takes away the first child of the id at or behind the start, and nothing else:
-- neither one of the id in front of the start, nor a second one behind the first.
pub remove_child-first :
    (a : Attrs) (id : NodeId) (from : ℕ) (before : Nodes) (c : LayoutNode) (after : Nodes)
    → from ≤ length before
    → Lacks id (drop from before)
    → (attrs c).id ≡ id
    → remove_child (branch a (before +++ cons c after)) id (pos from) ≡ branch a (before +++ after)
unfolding remove_child
remove_child-first a id from before c after le lacks e =
    ap (branch a) (remove_from-first id from before c after le lacks e)
