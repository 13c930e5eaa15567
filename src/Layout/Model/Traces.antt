-- ===== src/Layout/Model/Traces.antt =====
-- Sequences of calls on a layout model: its methods, and a new tree state from upstream without actions of
-- the server. The server's actions are in Backend: they may leave out the update of the tree.
use testmerge.Base.{ℕ, Bool, false, ◌&&◌, true, Option, some, List, [], ◌∷◌}
use testmerge.Layout.Types.{NodeId, DropDirection, LayoutTreeState}
use testmerge.Layout.Node.{◌>>=◌}
use testmerge.Layout.Reducer.{LayoutTreeAction}
use testmerge.Layout.Model.{LayoutModel, act, update_tree}
use testmerge.Layout.Model.Backend.{on_tree_state_atom_updated}
use testmerge.Layout.Model.Calls.{
  set_pending_action, clear_pending_action, compute_move, commit_pending_action, on_drop,
  focus_node, focus_first_node, switch_node_focus_by_block_num, magnify_node_toggle, close_node,
  close_focused_node, get_node_model,
}

pub data Call : Type 0 where
  acts : NodeId → NodeId → LayoutTreeAction → Call
  computes_move : NodeId → NodeId → Option DropDirection → Call
  sets_pending : Option LayoutTreeAction → Call
  clears_pending : Call
  commits : NodeId → NodeId → Call
  drops : NodeId → NodeId → Call
  focuses : NodeId → Call
  focuses_first : Call
  focuses_block : ℕ → Call
  magnifies : NodeId → Call
  closes : NodeId → Call
  closes_focused : Call
  shows : NodeId → Call
  resizes_container : Call
  takes_over : Bool → LayoutTreeState → Call

-- `none` is a call that throws.
unfoldable pub step : Call → LayoutModel → Option LayoutModel
unfolding act set_pending_action clear_pending_action compute_move commit_pending_action on_drop
    focus_node focus_first_node switch_node_focus_by_block_num magnify_node_toggle close_node
    close_focused_node get_node_model update_tree on_tree_state_atom_updated
step (acts u v a) m = act u v true m a
step (computes_move a b direction) m = compute_move a b direction m
step (sets_pending a) m = set_pending_action a m
step clears_pending m = clear_pending_action m
step (commits u v) m = commit_pending_action u v m
step (drops u v) m = on_drop u v m
step (focuses id) m = focus_node id m
step focuses_first m = focus_first_node m
step (focuses_block n) m = switch_node_focus_by_block_num n m
step (magnifies id) m = magnify_node_toggle id m
step (closes id) m = close_node id m
step closes_focused m = close_focused_node m
step (shows id) m = some (get_node_model id m)
step resizes_container m = update_tree m
step (takes_over force new) m = on_tree_state_atom_updated force new [] m

-- A sequence stops at a call that throws.
unfoldable pub run : List Call → LayoutModel → Option LayoutModel
unfolding step
run [] m = some m
run (c ∷ cs) m = do m' ← step c m; run cs m'

-- A call of the window itself.
abbrev pub is_own : Call → Bool
is_own (takes_over force new) = false
is_own _ = true

abbrev pub all_own : List Call → Bool
all_own [] = true
all_own (c ∷ cs) = is_own c && all_own cs
