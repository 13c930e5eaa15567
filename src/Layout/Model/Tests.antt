-- ===== src/Layout/Model/Tests.antt =====
-- The theorems on the layout model at concrete calls.
use testmerge.Base.{ℕ, ◌≡◌, refl, true, false, Option, none, some, List, [], ◌∷◌}
use testmerge.Base.Int.{pos}
use testmerge.Layout.Types.{
  NodeId, FlexDirection, row, column, Attrs, LayoutNode, leaf, branch, nil, cons, LayoutTreeState,
  LeafOrderEntry,
}
use mathlib.Core.List.{Permᴰ}
use testmerge.Layout.Node.{validate_node}
use testmerge.Layout.Balance.{walked, balance_node}
use testmerge.Layout.Balance.Total.{IsValidTree}
use testmerge.Layout.Leafs.Order.{leaf_entries}
use testmerge.Layout.Leafs.Total.{leaf_order-Perm}
use testmerge.Layout.Leafs.{KeyedLeaf, digits, get_leaf_order, balance_with_leafs}
use testmerge.Layout.Locate.{to_double}
use testmerge.Layout.Reducer.{clear}
use testmerge.Layout.Model.{LayoutModel, act, update_tree}
use testmerge.Layout.Model.Backend.{
  FreshIds, LayoutAction, insert_node, layout_actions, on_tree_state_atom_updated,
}
use testmerge.Layout.Model.Backend
use testmerge.Layout.Model.Focus.{last_focused, update_tree-refocus}
use testmerge.Layout.Model.Cleared.{clear_throws}
use testmerge.Layout.Model.Updates.{IsSynced}
use testmerge.Layout.Model.Traces.{
  Call, focuses, magnifies, closes, closes_focused, shows, takes_over, run,
}
use testmerge.Layout.Model.Synced.{run-IsSynced}

abbrev leaf_of : NodeId → FlexDirection → ℕ → LayoutNode
leaf_of id flex block = leaf (record {
  id = id;
  tab_data = some (record { block_id = block });
  flex_direction = flex;
  size = pos 10;
})

abbrev inner : NodeId → FlexDirection → Attrs
inner id flex = record { id = id; tab_data = none; flex_direction = flex; size = pos 10 }

abbrev three : LayoutNode
three =
    branch (inner 1 row)
      (cons (leaf_of 4 column 40) (cons (leaf_of 3 column 30) (cons (leaf_of 2 column 20) nil)))

abbrev state : LayoutTreeState
state = record {
  root_node = some three;
  focused_node_id = some 2;
  magnified_node_id = none;
  leaf_order = none;
  generation = 5;
}

-- The nodes 2, 3 and 2 again have had the focus.
abbrev model : LayoutModel
model = record {
  tree_state = state;
  mounted = true;
  last_generation = some 5;
  focused_stack = 2 ∷ 3 ∷ 2 ∷ [];
  magnified_id = none;
  last_magnified_id = none;
  node_models = [];
  leafs = [];
  leaf_order = [];
  pending_tree_action = none;
}

abbrev unfocused : LayoutModel
unfocused = record model {
  tree_state = record state {
    root_node =
        some (branch (inner 1 row) (cons (leaf_of 4 column 40) (cons (leaf_of 3 column 30) nil)));
    focused_node_id = none;
  };
}

abbrev found_order : List LeafOrderEntry
found_order = record { node_id = 4; block_id = 40 } ∷ record { node_id = 3; block_id = 30 } ∷ []

-- The node 2 is gone, and the focus goes to 3, which had it before.
abbrev refocused : LayoutModel
refocused = record unfocused {
  tree_state = record (unfocused.tree_state) {
    focused_node_id = some 3;
    leaf_order = some found_order;
  };
  focused_stack = 3 ∷ [];
  leafs = record { node_id = 3; block_id = 30 } ∷ record { node_id = 4; block_id = 40 } ∷ [];
  leaf_order = found_order;
}

updated : update_tree unfocused ≡ some refocused
unfolding update_tree
updated = refl

update_tree-refocus_example :
    refocused.tree_state.focused_node_id ≡ last_focused refocused.leaf_order (2 ∷ 3 ∷ 2 ∷ [])
update_tree-refocus_example =
    update_tree-refocus unfocused refocused 2 (3 ∷ 2 ∷ []) refl refl refl updated

abbrev fresh : FreshIds
fresh = record { node = 10; first = 11; second = 12 }

clear_throws_example :
    (act 8 9 true model clear ≡ none)
    × (layout_actions ((fresh, Backend.clear_tree) ∷ (fresh, insert_node 60 false true) ∷ []) model
        ≡ none)
clear_throws_example =
    clear_throws 8 9 true model 2 (3 ∷ 2 ∷ []) fresh ((fresh, insert_node 60 false true) ∷ []) refl
      refl refl

model-IsSynced : IsSynced true model
model-IsSynced = record {
  in_step = record { is_mounted = refl; has_focus = refl; is_magnified = refl };
  is_saved = refl;
}

abbrev calls : List Call
calls = magnifies 3 ∷ shows 3 ∷ focuses 4 ∷ closes 3 ∷ closes_focused ∷ []

-- What is left is the node 2 alone, at the root.
abbrev last_model : LayoutModel
last_model = record model {
  tree_state = record {
    root_node = some (leaf_of 2 row 20);
    focused_node_id = some 2;
    magnified_node_id = none;
    leaf_order = some (record { node_id = 2; block_id = 20 } ∷ []);
    generation = 13;
  };
  last_generation = some 13;
  focused_stack = 2 ∷ [];
  leafs = record { node_id = 2; block_id = 20 } ∷ [];
  leaf_order = record { node_id = 2; block_id = 20 } ∷ [];
}

called : run calls model ≡ some last_model
unfolding run
called = refl

run-IsSynced_example : IsSynced true last_model
run-IsSynced_example = run-IsSynced true calls model last_model refl model-IsSynced called

abbrev magnified_of : Option LayoutModel → Option (Option NodeId × Option NodeId)
magnified_of none = none
magnified_of (some m) = some (m.magnified_id, m.tree_state.magnified_node_id)

-- A state from upstream in which the node 3 is magnified.
abbrev upstream : LayoutTreeState
upstream = record state { magnified_node_id = some 3; generation = 6 }

magnified_upstream : magnified_of (run (takes_over false upstream ∷ []) model) ≡ some (none, some 3)
unfolding run
magnified_upstream = refl

three-IsValidTree : IsValidTree three
unfolding validate_node
three-IsValidTree = (refl, (refl, (refl, (refl, tt))))

leaf_order-Perm_example :
    (m : LayoutNode) × (ls : List KeyedLeaf) × (balance_node three ≡ walked m)
    × (balance_with_leafs three ≡ walked (m, ls))
    × Permᴰ (get_leaf_order ls) (leaf_entries m)
leaf_order-Perm_example = leaf_order-Perm three three-IsValidTree

-- The keys are texts: with eleven children the last comes before the third.
abbrev keyed : List ℕ → NodeId → KeyedLeaf
keyed key id = (0 ∷ key, record { node_id = id; block_id = id })

text_order :
    get_leaf_order (keyed (digits 1) 1 ∷ keyed (digits 2) 2 ∷ keyed (digits 10) 10 ∷ [])
    ≡ record { node_id = 1; block_id = 1 }
      ∷ record { node_id = 10; block_id = 10 }
      ∷ record { node_id = 2; block_id = 2 }
      ∷ []
unfolding get_leaf_order digits
text_order = refl

-- The server inserts a block at the end and focuses it.
inserted :
    elim (on_tree_state_atom_updated false state ((fresh, insert_node 60 false true) ∷ []) model) [
      | none ↦ []
      | some m ↦ m.focused_stack
    ]
    ≡ 10 ∷ 2 ∷ 3 ∷ []
unfolding on_tree_state_atom_updated to_double
inserted = refl
