-- ===== src/Layout/Model/Focus.antt =====
-- Where the focus goes: `validateFocusedNode`.
use testmerge.Base.{
  ◌≡◌, refl, sym, ap, ◌∙◌, true, not, ◌&&◌, Option, none, some, List, [], ◌∷◌, ◌++◌, if◌then◌else◌,
  if-true, if-false, Bool-cases, ◌==◌, ◌⊎◌, inl, inr,
}
use testmerge.Layout.Types.{NodeId, LayoutNode, LeafOrderEntry}
use testmerge.Layout.Balance.{Walk, walked, invalid, out_of_fuel}
use testmerge.Layout.Leafs.{KeyedLeaf, get_leaf_order, balance_with_leafs}
use testmerge.Layout.Tree.{same_id}
use testmerge.Layout.Model.Binds.{>>=-some}
use testmerge.Layout.Model.{
  LayoutModel, head?, focused_node_id, is_leaf, includes, clean_stack, with_focus, next_focus,
  push_focus, validate_focused_node, with_leaf_order, with_root, close_update, finish_update,
  update_walked, update_root, update_tree,
}

-- The first one of the ids that is a leaf.
abbrev pub first_leaf : List LeafOrderEntry → List NodeId → Option NodeId
first_leaf order [] = none
first_leaf order (id ∷ ids) = if is_leaf order id then some id else first_leaf order ids

abbrev first_entry : List LeafOrderEntry → Option NodeId
first_entry [] = none
first_entry (e ∷ es) = some e.node_id

abbrev or_first : Option NodeId → List LeafOrderEntry → Option NodeId
or_first none order = first_entry order
or_first (some id) order = some id

-- The last one focused that is still a leaf, else the first leaf.
abbrev pub last_focused : List LeafOrderEntry → List NodeId → Option NodeId
last_focused order stack = or_first (first_leaf order stack) order

module _ (order : List LeafOrderEntry) where
  head-clean_stack :
      (k : NodeId) (ks ids : List NodeId) → head? (clean_stack order (k ∷ ks) ids) ≡ some k
  unfolding clean_stack
  head-clean_stack k ks [] = refl
  head-clean_stack k ks (id ∷ ids) =
      elim (Bool-cases (is_leaf order id && not (includes (k ∷ ks) id))) [
        | inl e ↦
            ap (λ kept. head? (clean_stack order kept ids)) (if-true _ _ e)
            ∙ head-clean_stack k (ks ++ id ∷ []) ids
        | inr e ↦
            ap (λ kept. head? (clean_stack order kept ids)) (if-false _ _ e)
            ∙ head-clean_stack k ks ids
      ]

  head-clean_stack_nil :
      (ids : List NodeId) → head? (clean_stack order [] ids) ≡ first_leaf order ids
  unfolding clean_stack
  head-clean_stack_nil [] = refl
  head-clean_stack_nil (id ∷ ids) = elim (Bool-cases (is_leaf order id)) [
    | inl e ↦ simp e (head-clean_stack id [] ids)
    | inr e ↦ simp e (head-clean_stack_nil ids)
  ]

-- A model that an update gives: one whose focus has been set, and whose leafs then follow.
pub record FocusSet (m m' : LayoutModel) (order : List LeafOrderEntry) (stack : List NodeId)
    : Type 0 where
  pub id : NodeId
  pub rest : List NodeId
  pub is_set : m' ≡ with_focus m id rest
  pub is_next : m.tree_state.focused_node_id ≡ none → some id ≡ or_first (head? stack) order

next_focus-set :
    (m m' : LayoutModel) (order : List LeafOrderEntry) (stack : List NodeId)
    → next_focus m order stack ≡ some m'
    → FocusSet m m' order stack
next_focus-set m m' order (id ∷ stack) h = record {
  id = id;
  rest = stack;
  is_set = cc;
  is_next = λ e. refl;
}
next_focus-set m m' (e ∷ es) [] h = record {
  id = e.node_id;
  rest = [];
  is_set = cc;
  is_next = λ e. refl;
}
next_focus-set m m' [] [] h = cc h

push_focus-set :
    (m m' : LayoutModel) (o : Option NodeId) (order : List LeafOrderEntry) (stack : List NodeId)
    → m.tree_state.focused_node_id ≡ o
    → push_focus m o order stack ≡ some m'
    → FocusSet m m' order stack
push_focus-set m m' none order stack p h = next_focus-set m m' order stack h
push_focus-set m m' (some id) order stack p h = elim (Bool-cases (id == 0)) [
  | inl e ↦ next_focus-set m m' order stack (sym (if-true _ _ e) ∙ h)
  | inr e ↦ record {
    id = id;
    rest = stack;
    is_set = cc (if-false (next_focus m order stack) (some (with_focus m id stack)) e, h);
    is_next = λ q. cc (p, q);
  }
]

-- Where the focus has changed it is set anew, else nothing happens.
pub validate_focused_node-set :
    (m m' : LayoutModel) (order : List LeafOrderEntry)
    → validate_focused_node m order ≡ some m'
    → ((same_id m.tree_state.focused_node_id (focused_node_id m) ≡ true) × (m' ≡ m))
      ⊎ FocusSet m m' order (clean_stack order [] m.focused_stack)
unfolding validate_focused_node
validate_focused_node-set m m' order h =
    elim (Bool-cases (same_id m.tree_state.focused_node_id (focused_node_id m))) [
      | inl e ↦ inl (
        e,
        cc (
          if-true (some m)
              (push_focus m m.tree_state.focused_node_id order
                (clean_stack order [] m.focused_stack))
              e,
          h,
        ),
      )
      | inr e ↦ inr (
          push_focus-set m m' m.tree_state.focused_node_id order
            (clean_stack order [] m.focused_stack) refl (sym (if-false _ _ e) ∙ h))
    ]

-- What an update that returns has gone through.
pub record Updated (m m' : LayoutModel) : Type 0 where
  pub root : Option LayoutNode
  pub found : List KeyedLeaf
  pub order : List LeafOrderEntry
  pub focused : LayoutModel
  pub is_focused :
      validate_focused_node (with_leaf_order (with_root m root) order) order ≡ some focused
  pub is_closed : m' ≡ close_update focused found order

finish_update-Updated :
    (m m' : LayoutModel) (root : Option LayoutNode) (ls : List KeyedLeaf)
    (order : List LeafOrderEntry)
    → finish_update (with_root m root) ls order ≡ some m'
    → Updated m m'
finish_update-Updated m m' root ls order h =
    let (n, e, p) =
      >>=-some (validate_focused_node (with_leaf_order (with_root m root) order) order) _ h in
    record { root = root; found = ls; order = order; focused = n; is_focused = e; is_closed = cc p }

update_root-Updated :
    (m m' : LayoutModel) (root : Option LayoutNode) → update_root m root ≡ some m' → Updated m m'
update_root-Updated m m' none h = finish_update-Updated m m' none [] [] h
update_root-Updated m m' (some root) h = of_walk (balance_with_leafs root) h
  where
    of_walk : (w : Walk (LayoutNode × List KeyedLeaf)) → update_walked m w ≡ some m' → Updated m m'
    of_walk (walked (r, ls)) p = finish_update-Updated m m' (some r) ls (get_leaf_order ls) p
    of_walk invalid p = cc p
    of_walk out_of_fuel p = cc p

pub update_tree-Updated :
    (m m' : LayoutModel) → m.mounted ≡ true → update_tree m ≡ some m' → Updated m m'
unfolding update_tree
update_tree-Updated m m' mounted h =
    update_root-Updated m m' m.tree_state.root_node (sym (if-true _ _ mounted) ∙ h)

pub focused-close_update :
    (m : LayoutModel) (ls : List KeyedLeaf) (order : List LeafOrderEntry)
    → (close_update m ls order).tree_state.focused_node_id ≡ m.tree_state.focused_node_id
focused-close_update m ls [] = refl
focused-close_update m ls (e ∷ []) = refl
focused-close_update m ls (e ∷ f ∷ es) = refl

refocused :
    (m n : LayoutModel) (order : List LeafOrderEntry) (id : NodeId) (stack : List NodeId)
    → m.focused_stack ≡ id ∷ stack
    → m.tree_state.focused_node_id ≡ none
    → validate_focused_node m order ≡ some n
    → n.tree_state.focused_node_id ≡ last_focused order (id ∷ stack)
refocused m n order id stack on_stack unfocused h = elim (validate_focused_node-set m n order h) [
  | inl (e, p) ↦ cc (e, ap (λ o. same_id o (focused_node_id m)) unfocused, on_stack)
  | inr f ↦
      ap (λ k. k.tree_state.focused_node_id) f.is_set
      ∙ f.is_next unfocused
      ∙ ap (λ o. or_first o order)
          (ap (λ s. head? (clean_stack order [] s)) on_stack
            ∙ head-clean_stack_nil order (id ∷ stack))
]

-- With the layout on screen, no focused node in the tree state and a focus stack that is not empty:
-- an update that returns leaves the focus on the last node of the stack that is still a leaf, else on
-- the first leaf of the new order.
pub update_tree-refocus :
    (m m' : LayoutModel) (id : NodeId) (stack : List NodeId)
    → m.mounted ≡ true
    → m.focused_stack ≡ id ∷ stack
    → m.tree_state.focused_node_id ≡ none
    → update_tree m ≡ some m'
    → m'.tree_state.focused_node_id ≡ last_focused m'.leaf_order (id ∷ stack)
update_tree-refocus m m' id stack mounted on_stack unfocused h =
    let u = update_tree-Updated m m' mounted h in
    ap (λ k. k.tree_state.focused_node_id) u.is_closed
    ∙ focused-close_update u.focused u.found u.order
    ∙ refocused (with_leaf_order (with_root m u.root) u.order) u.focused u.order id stack on_stack
        unfocused u.is_focused
    ∙ ap (λ order. last_focused order (id ∷ stack)) (sym (ap (λ k. k.leaf_order) u.is_closed))
