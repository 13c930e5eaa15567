-- ===== src/Layout/Model.antt =====
-- LayoutModel of frontend/layout/lib/layoutModel.ts: what it keeps besides the tree state, and its
-- operations. Rectangles, transforms, atoms and the drag of a resize handle are left out, and what
-- a call that throws leaves behind. `u` and `v` are the fresh ids that an action may draw.
pub mod Calls
pub mod Backend
pub mod Binds
pub mod Focus
pub mod Cleared
pub mod Updates
pub mod Acts
pub mod Synced
pub mod Traces
mod Tests
use testmerge.Base.{
  ℕ, suc, ◌+◌, Bool, true, false, not, ◌&&◌, ◌||◌, Option, none, some, List, [], ◌∷◌, ◌++◌, ltb,
  ◌==◌, if◌then◌else◌,
}
use testmerge.Layout.Types.{
  NodeId, BlockId, DropDirection, LayoutNode, attrs, LeafOrderEntry, LayoutTreeState,
}
use testmerge.Layout.Node.{◌>>=◌}
use testmerge.Layout.Balance.{Walk, walked, invalid, out_of_fuel}
use testmerge.Layout.Leafs.{KeyedLeaf, entries, balance_with_leafs, get_leaf_order, sorted_leafs}
use testmerge.Layout.Tree.{Outcome, done, threw, same_id}
use testmerge.Layout.Reducer.{LayoutTreeAction, tree_reducer}

-- `mounted` is whether the ref of the display container is set, `last_generation` none for -1,
-- `node_models` the keys of the map, `pending_tree_action` the current value of its atom.
pub record LayoutModel : Type 0 where
  pub tree_state : LayoutTreeState
  pub mounted : Bool
  pub last_generation : Option ℕ
  pub focused_stack : List NodeId
  pub magnified_id : Option NodeId
  pub last_magnified_id : Option NodeId
  pub node_models : List NodeId
  pub leafs : List LeafOrderEntry
  pub leaf_order : List LeafOrderEntry
  pub pending_tree_action : Option LayoutTreeAction

abbrev pub head? : List NodeId → Option NodeId
head? [] = none
head? (id ∷ ids) = some id

abbrev pub focused_node_id : LayoutModel → Option NodeId
focused_node_id m = head? m.focused_stack

-- leafOrder.find((leafEntry) => leafEntry.nodeid === id), as a test
abbrev pub is_leaf : List LeafOrderEntry → NodeId → Bool
is_leaf [] id = false
is_leaf (e ∷ es) id = e.node_id == id || is_leaf es id

abbrev pub includes : List NodeId → NodeId → Bool
includes [] id = false
includes (j ∷ js) id = j == id || includes js id

-- The loop that removes duplicates and stale entries; `kept` is the new stack so far.
unfoldable pub clean_stack : List LeafOrderEntry → List NodeId → List NodeId → List NodeId
clean_stack order kept [] = kept
clean_stack order kept (id ∷ ids) =
    let kept' = if is_leaf order id && not (includes kept id) then kept ++ id ∷ [] else kept in
    clean_stack order kept' ids

abbrev pub is_unset : Option NodeId → Bool
is_unset none = true
is_unset (some id) = id == 0

abbrev pub with_focus : LayoutModel → NodeId → List NodeId → LayoutModel
with_focus m id stack = record m {
  tree_state = record (m.tree_state) { focused_node_id = some id };
  focused_stack = id ∷ stack;
}

-- Where nothing has the focus: the top of the stack, else the first leaf; `leafOrder[0].nodeid`
-- throws where there is none.
abbrev pub next_focus : LayoutModel → List LeafOrderEntry → List NodeId → Option LayoutModel
next_focus m order (id ∷ stack) = some (with_focus m id stack)
next_focus m (e ∷ es) [] = some (with_focus m e.node_id [])
next_focus m [] [] = none

abbrev pub push_focus :
    LayoutModel → Option NodeId → List LeafOrderEntry → List NodeId → Option LayoutModel
push_focus m none order stack = next_focus m order stack
push_focus m (some id) order stack =
    if id == 0 then next_focus m order stack else some (with_focus m id stack)

unfoldable pub validate_focused_node : LayoutModel → List LeafOrderEntry → Option LayoutModel
unfolding clean_stack
validate_focused_node m order =
    if same_id m.tree_state.focused_node_id (focused_node_id m)
    then some m
    else push_focus m m.tree_state.focused_node_id order (clean_stack order [] m.focused_stack)

abbrev pub validate_magnified_node : LayoutModel → List LeafOrderEntry → LayoutModel
validate_magnified_node m (e ∷ []) = record m {
  tree_state = record (m.tree_state) { magnified_node_id = none };
  magnified_id = none;
}
validate_magnified_node m _ = m

unfoldable pub cleanup_node_models : List NodeId → List LeafOrderEntry → List NodeId
cleanup_node_models [] order = []
cleanup_node_models (id ∷ ids) order =
    let rest = cleanup_node_models ids order in if is_leaf order id then id ∷ rest else rest

abbrev pub with_leaf_order : LayoutModel → List LeafOrderEntry → LayoutModel
with_leaf_order m order = record m {
  tree_state = record (m.tree_state) { leaf_order = some order };
}

abbrev pub close_update : LayoutModel → List KeyedLeaf → List LeafOrderEntry → LayoutModel
close_update m ls order = record (validate_magnified_node m order) {
  node_models = cleanup_node_models m.node_models order;
  leafs = sorted_leafs (entries ls);
  leaf_order = order;
}

abbrev pub finish_update : LayoutModel → List KeyedLeaf → List LeafOrderEntry → Option LayoutModel
finish_update m ls order = do
  m' ← validate_focused_node (with_leaf_order m order) order
  some (close_update m' ls order)

abbrev pub with_root : LayoutModel → Option LayoutNode → LayoutModel
with_root m root = record m { tree_state = record (m.tree_state) { root_node = root } }

abbrev pub update_walked : LayoutModel → Walk (LayoutNode × List KeyedLeaf) → Option LayoutModel
update_walked m (walked (root, ls)) = finish_update (with_root m (some root)) ls (get_leaf_order ls)
update_walked m _ = none

-- The walk does nothing without a root.
abbrev pub update_root : LayoutModel → Option LayoutNode → Option LayoutModel
update_root m none = finish_update (with_root m none) [] []
update_root m (some root) = update_walked m (balance_with_leafs root)

-- updateTree(), balancing; `none` is a throw.
unfoldable pub update_tree : LayoutModel → Option LayoutModel
unfolding validate_focused_node cleanup_node_models balance_with_leafs get_leaf_order sorted_leafs
update_tree m = if m.mounted then update_root m m.tree_state.root_node else some m

abbrev pub is_behind : Option ℕ → ℕ → Bool
is_behind none n = true
is_behind (some last) n = ltb last n

-- What is set upstream is the tree state itself.
abbrev pub set_tree_state_atom : Bool → LayoutModel → LayoutModel
set_tree_state_atom bump_generation m =
    let g = if bump_generation then m.tree_state.generation + 1 else m.tree_state.generation in
    record m { tree_state = record (m.tree_state) { generation = g }; last_generation = some g }

abbrev pub sync_magnified : LayoutModel → LayoutModel
sync_magnified m = if same_id m.magnified_id m.tree_state.magnified_node_id then m else record m {
  last_magnified_id = m.magnified_id;
  magnified_id = m.tree_state.magnified_node_id;
}

abbrev pub set_if : Bool → LayoutModel → LayoutModel
set_if set_state m = if set_state then set_tree_state_atom true m else m

-- The end of treeReducer, after an action that changed the tree state.
abbrev pub after_action : Bool → LayoutModel → Option LayoutModel
after_action set_state m =
    if is_behind m.last_generation m.tree_state.generation
    then (do m' ← update_tree (sync_magnified m); some (set_if set_state m'))
    else some m

abbrev pub act_done : Bool → LayoutModel → Outcome → Option LayoutModel
act_done set_state m (done s) = after_action set_state (record m { tree_state = s })
act_done set_state m (threw s) = none

-- treeReducer with an action on the tree state.
unfoldable pub act : NodeId → NodeId → Bool → LayoutModel → LayoutTreeAction → Option LayoutModel
unfolding update_tree tree_reducer
act u v set_state m a = act_done set_state m (tree_reducer u v m.tree_state a)
