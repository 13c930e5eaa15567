-- ===== src/Layout/Model/Acts.antt =====
-- What treeReducer keeps in step with the tree state.
use testmerge.Base.{
  ℕ, Bool, ◌+◌, ◌≡◌, ◌⊎◌, refl, sym, ap, ◌∙◌, true, false, Option, some, if-true, if-false,
  Bool-cases, inl, inr, arith,
}
use testmerge.Layout.Types.{NodeId, LayoutTreeState}
use testmerge.Layout.Node.{◌>>=◌}
use testmerge.Layout.Tree.{Outcome, done, threw, same_id}
use testmerge.Layout.Tree.Counts.{Counts, unchanged, counted, thrown}
use testmerge.Layout.Move.Counts.{CountsResize, counts, resized}
use testmerge.Layout.Reducer.{
  LayoutTreeAction, tree_reducer, move, swap, insert, insert_at_index, delete, resize, focus,
  magnify, clear,
}
use testmerge.Layout.Reducer.Counts.{CountsAs, tree_reducer-CountsAs}
use testmerge.Layout.Model.{
  LayoutModel, update_tree, sync_magnified, is_behind, set_if, after_action, act_done, act,
}
use testmerge.Layout.Model.Binds.{>>=-some, some-subst}
use testmerge.Layout.Model.Updates.{
  IsSynced, Magnified-eq, Magnified-trans, same_id-eq, update_tree-IsInStep,
}
use testmerge.Layout.Model.Traces.{step}

-- What an action that returns may do to the tree state.
record IsSame (s s' : LayoutTreeState) : Type 0 where
  same_focus : s'.focused_node_id ≡ s.focused_node_id
  same_magnified : s'.magnified_node_id ≡ s.magnified_node_id
  same_generation : s'.generation ≡ s.generation

abbrev IsChanged : LayoutTreeState → LayoutTreeState → Type 0
IsChanged s s' = IsSame s s' ⊎ (s'.generation ≡ s.generation + 1)

abbrev IsFair : LayoutTreeState → Outcome → Type 0
IsFair s (done s') = IsChanged s s'
IsFair s (threw s') = Unit

Counts-IsFair : (s : LayoutTreeState) (o : Outcome) → Counts s o → IsFair s o
Counts-IsFair s o unchanged =
    inl (record { same_focus = refl; same_magnified = refl; same_generation = refl })
Counts-IsFair s o (counted e) = inr e
Counts-IsFair s o (thrown e) = tt

CountsResize-IsFair : (s : LayoutTreeState) (o : Outcome) → CountsResize s o → IsFair s o
CountsResize-IsFair s o (counts c) = Counts-IsFair s o c
CountsResize-IsFair s o resized =
    inl (record { same_focus = refl; same_magnified = refl; same_generation = refl })

CountsAs-IsFair :
    (s : LayoutTreeState) (a : LayoutTreeAction) (o : Outcome) → CountsAs s a o → IsFair s o
CountsAs-IsFair s (resize ops) o c = CountsResize-IsFair s o c
CountsAs-IsFair s (move op) o c = Counts-IsFair s o c
CountsAs-IsFair s (insert op) o c = Counts-IsFair s o c
CountsAs-IsFair s (insert_at_index op is) o c = Counts-IsFair s o c
CountsAs-IsFair s (delete id) o c = Counts-IsFair s o c
CountsAs-IsFair s (swap a b) o c = Counts-IsFair s o c
CountsAs-IsFair s (focus id) o c = Counts-IsFair s o c
CountsAs-IsFair s (magnify id) o c = Counts-IsFair s o c
CountsAs-IsFair s clear o c = Counts-IsFair s o c

sync_magnified-lem :
    (m : LayoutModel)
    → ((sync_magnified m).mounted ≡ m.mounted)
      × ((sync_magnified m).magnified_id ≡ (sync_magnified m).tree_state.magnified_node_id)
sync_magnified-lem m = elim (Bool-cases (same_id m.magnified_id m.tree_state.magnified_node_id)) [
  | inl e ↦ simp e (refl, same_id-eq m.magnified_id m.tree_state.magnified_node_id e)
  | inr e ↦ simp e (refl, refl)
]

is_behind-same : (last : Option ℕ) (a b : ℕ) → last ≡ some a → b ≡ a → is_behind last b ≡ false
is_behind-same last a b h e = ap (λ o. is_behind o b) h ∙ ground (arith, e)

is_behind-next : (last : Option ℕ) (a b : ℕ) → last ≡ some a → b ≡ a + 1 → is_behind last b ≡ true
is_behind-next last a b h e = ap (λ o. is_behind o b) h ∙ ground (arith, e)

module _ (own : Bool) where
  updated_and_saved :
      (m m' : LayoutModel)
      → m.mounted ≡ true
      → (do n ← update_tree (sync_magnified m); some (set_if true n)) ≡ some m'
      → IsSynced own m'
  updated_and_saved m m' mounted h =
      let (n, e, p) = >>=-some (update_tree (sync_magnified m)) (λ k. some (set_if true k)) h in
      let (kept, magnified) = sync_magnified-lem m in
      let (step, _, _) =
        update_tree-IsInStep own (sync_magnified m) n (kept ∙ mounted)
          (Magnified-eq own _ _ magnified) e in
      some-subst (IsSynced own) (set_if true n) m' p (record {
        in_step = record {
          is_mounted = step.is_mounted;
          has_focus = step.has_focus;
          is_magnified = step.is_magnified;
        };
        is_saved = refl;
      })

  after_action-IsSynced :
      (m m' : LayoutModel) (s : LayoutTreeState)
      → IsSynced own m
      → IsChanged m.tree_state s
      → after_action true (record m { tree_state = s }) ≡ some m'
      → IsSynced own m'
  after_action-IsSynced m m' s h (inl same) e =
      let stays = if-false _ (some (record m { tree_state = s })) (
        is_behind-same m.last_generation m.tree_state.generation s.generation h.is_saved
          same.same_generation) in
      some-subst (IsSynced own) (record m { tree_state = s }) m' (sym stays ∙ e)
        (record {
          in_step = record {
            is_mounted = h.in_step.is_mounted;
            has_focus = h.in_step.has_focus ∙ sym same.same_focus;
            is_magnified =
                Magnified-trans own _ _ _ h.in_step.is_magnified (sym same.same_magnified);
          };
          is_saved = h.is_saved ∙ ap some (sym same.same_generation);
        })
  after_action-IsSynced m m' s h (inr count) e =
      updated_and_saved (record m { tree_state = s }) m' h.in_step.is_mounted
        (sym (
            if-true _ _ (
              is_behind-next m.last_generation m.tree_state.generation s.generation h.is_saved
                count))
          ∙ e)

  act_done-IsSynced :
      (m m' : LayoutModel) (o : Outcome)
      → IsSynced own m
      → IsFair m.tree_state o
      → act_done true m o ≡ some m'
      → IsSynced own m'
  act_done-IsSynced m m' (done s) h fair e = after_action-IsSynced m m' s h fair e
  act_done-IsSynced m m' (threw s) h fair e = cc e

  unfoldable pub KeepsSync : (LayoutModel → Option LayoutModel) → Type 0
  KeepsSync f = (m m' : LayoutModel) → IsSynced own m → f m ≡ some m' → IsSynced own m'

  pub act-KeepsSync : (u v : NodeId) (a : LayoutTreeAction) → KeepsSync (λ m. act u v true m a)
  unfolding KeepsSync act
  act-KeepsSync u v a m m' h e =
      act_done-IsSynced m m' (tree_reducer u v m.tree_state a) h
        (CountsAs-IsFair m.tree_state a (tree_reducer u v m.tree_state a)
          (tree_reducer-CountsAs u v m.tree_state a))
        e

  -- What treeReducer does at its end for the actions that leave the tree state alone.
  pub after_action-KeepsSync : KeepsSync (after_action true)
  unfolding KeepsSync
  after_action-KeepsSync m m' h e =
      after_action-IsSynced m m' m.tree_state h
        (inl (record { same_focus = refl; same_magnified = refl; same_generation = refl })) e
