-- ===== src/Layout/Model/Updates.antt =====
-- What an update of a layout model brings in step with its tree state.
use mathlib.Core.Path.{subst}
use testmerge.Base.{
  ◌≡◌, refl, sym, ap, ◌∙◌, Bool, true, false, Option, none, some, List, [], ◌∷◌, ==_iff, inl, inr,
}
use testmerge.Layout.Types.{NodeId, LeafOrderEntry}
use testmerge.Layout.Leafs.{KeyedLeaf}
use testmerge.Layout.Tree.{same_id}
use testmerge.Layout.Model.{
  LayoutModel, focused_node_id, validate_focused_node, with_leaf_order, with_root, close_update,
  update_tree,
}
use testmerge.Layout.Model.Focus.{validate_focused_node-set, update_tree-Updated}

-- Asked for with `own` only: the magnified node that is known is that of the tree state.
abbrev pub Magnified : Bool → Option NodeId → Option NodeId → Type 0
Magnified true known set = known ≡ set
Magnified false known set = Unit

pub Magnified-eq : (own : Bool) (a b : Option NodeId) → a ≡ b → Magnified own a b
Magnified-eq true a b h = h
Magnified-eq false a b h = tt

pub Magnified-trans :
    (own : Bool) (a b c : Option NodeId) → Magnified own a b → b ≡ c → Magnified own a c
Magnified-trans true a b c h e = h ∙ e
Magnified-trans false a b c h e = tt

-- On screen, the focus on top of the stack, and, with `own`, the magnified node known.
pub record IsInStep (own : Bool) (m : LayoutModel) : Type 0 where
  pub is_mounted : m.mounted ≡ true
  pub has_focus : focused_node_id m ≡ m.tree_state.focused_node_id
  pub is_magnified : Magnified own m.magnified_id m.tree_state.magnified_node_id

-- Besides, the generation is the last one that was set upstream.
pub record IsSynced (own : Bool) (m : LayoutModel) : Type 0 where
  pub in_step : IsInStep own m
  pub is_saved : m.last_generation ≡ some m.tree_state.generation

pub same_id-eq : (a b : Option NodeId) → same_id a b ≡ true → a ≡ b
same_id-eq none none h = refl
same_id-eq (some a) (some b) h = ap some ((==_iff a b).0 h)
same_id-eq none (some b) h = cc h
same_id-eq (some a) none h = cc h

-- What an update needs and keeps.
record Keeps (m m' : LayoutModel) : Type 0 where
  mounted_kept : m'.mounted ≡ m.mounted
  last_kept : m'.last_generation ≡ m.last_generation
  generation_kept : m'.tree_state.generation ≡ m.tree_state.generation

module _ (own : Bool) where
  validated :
      (m n : LayoutModel) (order : List LeafOrderEntry)
      → m.mounted ≡ true
      → Magnified own m.magnified_id m.tree_state.magnified_node_id
      → validate_focused_node m order ≡ some n
      → IsInStep own n × Keeps m n
  validated m n order mounted magnified h = elim (validate_focused_node-set m n order h) [
    | inl (e, p) ↦
        subst (λ k. IsInStep own k × Keeps m k) (sym p)
          (
            record {
              is_mounted = mounted;
              has_focus = sym (same_id-eq m.tree_state.focused_node_id (focused_node_id m) e);
              is_magnified = magnified;
            },
            record { mounted_kept = refl; last_kept = refl; generation_kept = refl },
          )
    | inr f ↦
        subst (λ k. IsInStep own k × Keeps m k) (sym f.is_set)
          (
            record { is_mounted = mounted; has_focus = refl; is_magnified = magnified },
            record { mounted_kept = refl; last_kept = refl; generation_kept = refl },
          )
  ]

  closed :
      (n : LayoutModel) (ls : List KeyedLeaf) (order : List LeafOrderEntry)
      → IsInStep own n
      → IsInStep own (close_update n ls order) × Keeps n (close_update n ls order)
  closed n ls [] h = (
    record { is_mounted = h.is_mounted; has_focus = h.has_focus; is_magnified = h.is_magnified },
    record { mounted_kept = refl; last_kept = refl; generation_kept = refl },
  )
  closed n ls (e ∷ []) h = (
    record {
      is_mounted = h.is_mounted;
      has_focus = h.has_focus;
      is_magnified = Magnified-eq own none none refl;
    },
    record { mounted_kept = refl; last_kept = refl; generation_kept = refl },
  )
  closed n ls (e ∷ f ∷ es) h = (
    record { is_mounted = h.is_mounted; has_focus = h.has_focus; is_magnified = h.is_magnified },
    record { mounted_kept = refl; last_kept = refl; generation_kept = refl },
  )

  -- An update brings the stack in step with the focus, whatever it was.
  pub update_tree-IsInStep :
      (m m' : LayoutModel)
      → m.mounted ≡ true
      → Magnified own m.magnified_id m.tree_state.magnified_node_id
      → update_tree m ≡ some m'
      → IsInStep own m'
        × (m'.last_generation ≡ m.last_generation)
        × (m'.tree_state.generation ≡ m.tree_state.generation)
  update_tree-IsInStep m m' mounted magnified h =
      let u = update_tree-Updated m m' mounted h in
      let before =
        validated (with_leaf_order (with_root m u.root) u.order) u.focused u.order mounted magnified
          u.is_focused in
      let after = closed u.focused u.found u.order before.0 in
      (
        subst (IsInStep own) (sym u.is_closed) after.0,
        ap (λ k. k.last_generation) u.is_closed ∙ after.1.last_kept ∙ before.1.last_kept,
        ap (λ k. k.tree_state.generation) u.is_closed
            ∙ after.1.generation_kept
            ∙ before.1.generation_kept,
      )

  pub update_tree-IsSynced :
      (m m' : LayoutModel) → IsSynced own m → update_tree m ≡ some m' → IsSynced own m'
  update_tree-IsSynced m m' h e =
      let (step, last, generation) =
        update_tree-IsInStep m m' h.in_step.is_mounted h.in_step.is_magnified e in
      record { in_step = step; is_saved = last ∙ h.is_saved ∙ ap some (sym generation) }
