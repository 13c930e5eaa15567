-- ===== src/Layout/Model/Synced.antt =====
-- What a layout model keeps in step with its tree state, over calls of its methods.
use testmerge.Base.{
  suc, zero, ◌≡◌, refl, sym, Bool, false, not, ◌||◌, arith, ◌∙◌, true, Option, none, some, List, [],
  ◌∷◌, if-true, if-false, Bool-cases, inl, inr,
}
use testmerge.Layout.Types.{NodeId, DropDirection, LayoutNode, LeafOrderEntry, LayoutTreeState}
use testmerge.Layout.Tree.{same_id}
use testmerge.Layout.Reducer.{LayoutTreeAction, move, swap, delete, focus, magnify}
use testmerge.Layout.Model.{
  LayoutModel, focused_node_id, includes, after_action, act, update_tree, set_tree_state_atom,
}
use testmerge.Layout.Model.Backend.{is_due, on_tree_state_atom_updated}
use testmerge.Layout.Model.Binds.{>>=-some, some-subst}
use testmerge.Layout.Model.Calls.{
  set_pending, set_pending_action, pending_of, compute_move, clear_pending_action, drop_of,
  commit_of, commit_pending_action, on_drop, find_in, act_found, focus_node, entry_at, focus_entry,
  focus_first_node, switch_node_focus_by_block_num, magnify_node_toggle, close_focused, close_node,
  close_focused_node, get_node_model,
}
use testmerge.Layout.Model.Updates.{Magnified, IsSynced, update_tree-IsInStep, update_tree-IsSynced}
use testmerge.Layout.Model.Traces.{
  Call, acts, computes_move, sets_pending, clears_pending, commits, drops, focuses, focuses_first,
  focuses_block, magnifies, closes, closes_focused, shows, resizes_container, takes_over, step, run,
  is_own, all_own,
}
use testmerge.Layout.Move.{Computed, nothing, type_error, compute_move_node}
use testmerge.Layout.Move
use testmerge.Layout.Model.Acts.{KeepsSync, act-KeepsSync, after_action-KeepsSync}

module _ (own : Bool) where
  -- What differs in the pending action only.
  set_pending-IsSynced :
      (m : LayoutModel) (a : Option LayoutTreeAction)
      → IsSynced own m
      → IsSynced own (set_pending a m)
  set_pending-IsSynced m a h = record {
    in_step = record {
      is_mounted = h.in_step.is_mounted;
      has_focus = h.in_step.has_focus;
      is_magnified = h.in_step.is_magnified;
    };
    is_saved = h.is_saved;
  }

  pending-IsSynced :
      (m m' : LayoutModel) (a : Option LayoutTreeAction)
      → IsSynced own m
      → after_action true (set_pending a m) ≡ some m'
      → IsSynced own m'
  unfolding KeepsSync
  pending-IsSynced m m' a h e =
      after_action-KeepsSync own (set_pending a m) m' (set_pending-IsSynced m a h) e

  set_pending_action-KeepsSync :
      (a : Option LayoutTreeAction) → KeepsSync own (set_pending_action a)
  unfolding KeepsSync set_pending_action
  set_pending_action-KeepsSync none m m' h e = after_action-KeepsSync own m m' h e
  set_pending_action-KeepsSync (some a) m m' h e = pending-IsSynced m m' (some a) h e

  stays-IsSynced : (m m' : LayoutModel) → IsSynced own m → some m ≡ some m' → IsSynced own m'
  stays-IsSynced m m' h e = some-subst (IsSynced own) m m' e h

  compute_move-KeepsSync :
      (a b : NodeId) (direction : Option DropDirection) → KeepsSync own (compute_move a b direction)
  unfolding KeepsSync compute_move
  compute_move-KeepsSync a b direction m m' h e =
      of_computed (compute_move_node m.tree_state a b direction) e
    where
      of_computed : (c : Computed) → pending_of c m ≡ some m' → IsSynced own m'
      of_computed nothing p = pending-IsSynced m m' none h p
      of_computed (Move.swap i j) p = pending-IsSynced m m' (some (swap i j)) h p
      of_computed (Move.move op) p = pending-IsSynced m m' (some (move op)) h p
      of_computed type_error p = cc p

  commit-KeepsSync : (u v : NodeId) → KeepsSync own (commit_pending_action u v)
  unfolding KeepsSync commit_pending_action
  commit-KeepsSync u v m m' h e = of_pending m.pending_tree_action e
    where
      of_pending : (o : Option LayoutTreeAction) → commit_of u v o m ≡ some m' → IsSynced own m'
      of_pending none p = after_action-KeepsSync own m m' h p
      of_pending (some a) p =
          let (n, q, r) =
            >>=-some (act u v true m a) (λ k. after_action true (set_pending none k)) p in
          pending-IsSynced n m' none (act-KeepsSync own u v a m n h q) r

  act_found-KeepsSync :
      (o : Option LayoutNode) (a : LayoutTreeAction) → KeepsSync own (act_found o a)
  unfolding KeepsSync
  act_found-KeepsSync none a m m' h e = stays-IsSynced m m' h e
  act_found-KeepsSync (some n) a m m' h e = act-KeepsSync own 0 0 a m m' h e

  on_drop-KeepsSync : (u v : NodeId) → KeepsSync own (on_drop u v)
  unfolding KeepsSync on_drop
  on_drop-KeepsSync u v m m' h e = of_pending m.pending_tree_action e
    where
      of_pending : (o : Option LayoutTreeAction) → drop_of u v o m ≡ some m' → IsSynced own m'
      of_pending none p = stays-IsSynced m m' h p
      of_pending (some a) p = commit-KeepsSync u v m m' h p

  focus_node-KeepsSync : (id : NodeId) → KeepsSync own (focus_node id)
  unfolding KeepsSync focus_node
  focus_node-KeepsSync id m m' h e = elim (Bool-cases (same_id (focused_node_id m) (some id))) [
    | inl p ↦ stays-IsSynced m m' h (sym (if-true _ _ p) ∙ e)
    | inr p ↦
        act_found-KeepsSync (find_in m.tree_state.root_node id) (focus id) m m' h
          (sym (if-false _ _ p) ∙ e)
  ]

  focus_entry-KeepsSync : (o : Option LeafOrderEntry) → KeepsSync own (focus_entry o)
  unfolding KeepsSync
  focus_entry-KeepsSync none m m' h e = stays-IsSynced m m' h e
  focus_entry-KeepsSync (some entry) m m' h e = focus_node-KeepsSync entry.node_id m m' h e

  close_node-KeepsSync : (id : NodeId) → KeepsSync own (close_node id)
  unfolding KeepsSync close_node
  close_node-KeepsSync id m m' h e =
      act_found-KeepsSync (find_in m.tree_state.root_node id) (delete id) m m' h e

  close_focused-KeepsSync : (o : Option NodeId) → KeepsSync own (close_focused o)
  unfolding KeepsSync
  close_focused-KeepsSync none m m' h e = stays-IsSynced m m' h e
  close_focused-KeepsSync (some id) m m' h e = close_node-KeepsSync id m m' h e

  get_node_model-IsSynced :
      (id : NodeId) (m : LayoutModel) → IsSynced own m → IsSynced own (get_node_model id m)
  unfolding get_node_model
  get_node_model-IsSynced id m h = elim (Bool-cases (includes m.node_models id)) [
    | inl e ↦ simp e h
    | inr e ↦ simp e (record {
      in_step = record {
        is_mounted = h.in_step.is_mounted;
        has_focus = h.in_step.has_focus;
        is_magnified = h.in_step.is_magnified;
      };
      is_saved = h.is_saved;
    })
  ]

  -- What a state from upstream leaves open.
  Magnified-free : (a b : Option NodeId) → not own || false ≡ true → Magnified own a b
  Magnified-free a b h = of_own own h
    where
      of_own : (o : Bool) → not o || false ≡ true → Magnified o a b
      of_own true p = absurd (ground arith)
      of_own false p = tt

  takes_over-KeepsSync :
      (force : Bool) (new : LayoutTreeState)
      → not own || false ≡ true
      → KeepsSync own (on_tree_state_atom_updated force new [])
  unfolding KeepsSync on_tree_state_atom_updated
  takes_over-KeepsSync force new fits m m' h e = elim (Bool-cases (is_due force new [] m)) [
    | inr p ↦ stays-IsSynced m m' h (sym (if-false _ _ p) ∙ e)
    | inl p ↦
        let (n, q, r) =
          >>=-some (update_tree (record m { tree_state = new }))
            (λ k. some (set_tree_state_atom force k)) (sym (if-true _ _ p) ∙ e) in
        let (step, _, _) =
          update_tree-IsInStep own (record m { tree_state = new }) n h.in_step.is_mounted
            (Magnified-free _ _ fits) q in
        some-subst (IsSynced own) (set_tree_state_atom force n) m' r (record {
          in_step = record {
            is_mounted = step.is_mounted;
            has_focus = step.has_focus;
            is_magnified = step.is_magnified;
          };
          is_saved = refl;
        })
  ]

  step-KeepsSync : (c : Call) → not own || is_own c ≡ true → KeepsSync own (step c)
  unfolding KeepsSync step clear_pending_action focus_first_node switch_node_focus_by_block_num
      magnify_node_toggle close_focused_node
  step-KeepsSync (acts u v a) fits m m' h e = act-KeepsSync own u v a m m' h e
  step-KeepsSync (computes_move a b direction) fits m m' h e =
      compute_move-KeepsSync a b direction m m' h e
  step-KeepsSync (sets_pending a) fits m m' h e = set_pending_action-KeepsSync a m m' h e
  step-KeepsSync clears_pending fits m m' h e = pending-IsSynced m m' none h e
  step-KeepsSync (commits u v) fits m m' h e = commit-KeepsSync u v m m' h e
  step-KeepsSync (drops u v) fits m m' h e = on_drop-KeepsSync u v m m' h e
  step-KeepsSync (focuses id) fits m m' h e = focus_node-KeepsSync id m m' h e
  step-KeepsSync focuses_first fits m m' h e =
      focus_entry-KeepsSync (entry_at m.leaf_order 0) m m' h e
  step-KeepsSync (focuses_block zero) fits m m' h e = stays-IsSynced m m' h e
  step-KeepsSync (focuses_block (suc i)) fits m m' h e =
      focus_entry-KeepsSync (entry_at m.leaf_order i) m m' h e
  step-KeepsSync (magnifies id) fits m m' h e = act-KeepsSync own 0 0 (magnify id) m m' h e
  step-KeepsSync (closes id) fits m m' h e = close_node-KeepsSync id m m' h e
  step-KeepsSync closes_focused fits m m' h e = close_focused-KeepsSync (focused_node_id m) m m' h e
  step-KeepsSync (shows id) fits m m' h e =
      some-subst (IsSynced own) (get_node_model id m) m' e (get_node_model-IsSynced id m h)
  step-KeepsSync resizes_container fits m m' h e = update_tree-IsSynced own m m' h e
  step-KeepsSync (takes_over force new) fits m m' h e = takes_over-KeepsSync force new fits m m' h e

-- On screen and in step at first, a layout model stays so over any calls none of which throws: the
-- focused node of the tree state is the top of the focus stack, and the last generation that was
-- set upstream is that of the tree state. With `own`, over calls none of which takes over a state from
-- upstream, this holds also of the magnified node, which is the one that the model knows.
pub run-IsSynced :
    (own : Bool) (cs : List Call) (m m' : LayoutModel)
    → not own || all_own cs ≡ true
    → IsSynced own m
    → run cs m ≡ some m'
    → IsSynced own m'
unfolding KeepsSync run
run-IsSynced own [] m m' fits h e = stays-IsSynced own m m' h e
run-IsSynced own (c ∷ cs) m m' fits h e =
    let (n, p, q) = >>=-some (step c m) (run cs) e in
    run-IsSynced own cs n m' (ground arith) (step-KeepsSync own c (ground arith) m n h p) q
