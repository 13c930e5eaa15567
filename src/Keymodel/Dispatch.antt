-- ===== src/Keymodel/Dispatch.antt =====
-- Where key events go: a block gets none that a global binding takes.
use testmerge.Base.{
  ℕ, ◌-◌, ◌≡◌, refl, ap, ◌∙◌, arith, Bool, true, false, ◌&&◌, ◌||◌, Option, none, some, List, [],
  ◌∷◌, ◌==◌, if◌then◌else◌, ◌⊎◌, inl, inr, Bool-cases, Option-cases, length, leb,
}
use testmerge.Base.Int.{ℤ}
use testmerge.Base.Texts.{Text, text}
use testmerge.Layout.Types.{BlockId}
use testmerge.Keys.{WaveKeyboardEvent, check_key_pressed}
use testmerge.Keys.Input.{is_input_event}
use testmerge.Keymodel.{
  Effect, set_active_tab, get_elem?, open_switch_connection, key_down_handler, App, FocusedNode,
  switch_tab, tab_at, close_in, handle_cmd_i, refocus, magnify_focused, is_empty_array,
}
use testmerge.Keymodel.Global.{
  Action, tab_by, cmd_n, cmd_i, new_tab, close_current, magnify, focus_towards, tab_number,
  block_number, perform, ActiveElement, Screen, BlockModel, dispatch_to,
  handle_global_wave_keyboard_events, should_dispatch_to_block, handle_by, handle_in, handle_block,
  focused_block, app_handle_key_down,
}

-- The call is one of the block's own.
abbrev pub is_block_call : BlockId → Effect → Bool
is_block_call id (open_switch_connection block_id) = block_id == id
is_block_call id (key_down_handler block_id) = block_id == id
is_block_call id _ = false

abbrev pub calls_block : BlockId → List Effect → Bool
calls_block id [] = false
calls_block id (e ∷ es) = is_block_call id e || calls_block id es

calls-if :
    (id : BlockId) (b : Bool) (xs ys : List Effect)
    → calls_block id xs ≡ false
    → calls_block id ys ≡ false
    → calls_block id (if b then xs else ys) ≡ false
calls-if id true xs ys p q = p
calls-if id false xs ys p q = q

calls-tab_at :
    (id : BlockId) (ids : List ℕ) (offset : ℤ) (o : Option ℕ)
    → calls_block id (tab_at ids offset o) ≡ false
calls-tab_at id ids offset none = refl
calls-tab_at id ids offset (some i) = refl

calls-close_in :
    (id : BlockId) (tab : ℕ) (o : Option (Option (List BlockId)))
    → calls_block id (close_in tab o) ≡ false
calls-close_in id tab none = refl
calls-close_in id tab (some blockids) = calls-if id (is_empty_array blockids) _ _ refl refl

calls-cmd_i : (id : BlockId) (o : Option FocusedNode) → calls_block id (handle_cmd_i o) ≡ false
calls-cmd_i id none = refl
calls-cmd_i id (some node) = go node.block_id
  where
    go : (o : Option BlockId) → calls_block id (refocus o) ≡ false
    go none = refl
    go (some b) = refl

calls-magnify : (id : BlockId) (o : Option FocusedNode) → calls_block id (magnify_focused o) ≡ false
calls-magnify id none = refl
calls-magnify id (some node) = refl

calls-perform :
    (id : BlockId) (app : App) (action : Action) → calls_block id (perform app action) ≡ false
unfolding perform switch_tab
calls-perform id app (tab_by offset) = calls-tab_at id app.tabids offset _
calls-perform id app cmd_n = refl
calls-perform id app cmd_i = calls-cmd_i id app.focused_node
calls-perform id app new_tab = refl
calls-perform id app close_current = calls-close_in id app.active_tab_id _
calls-perform id app magnify = calls-magnify id app.focused_node
calls-perform id app (focus_towards direction) = refl
calls-perform id app (tab_number index) =
    calls-if id (index == 0 || leb (length app.tabids) (index - 1)) []
      (set_active_tab (get_elem? app.tabids (index - 1)) ∷ []) refl refl
calls-perform id app (block_number index) = refl

handle_by-calls :
    (block_id id : BlockId) (ev : WaveKeyboardEvent) (o : Option (WaveKeyboardEvent → Bool))
    → calls_block id (handle_by block_id ev o).1 ≡ true
    → block_id ≡ id
handle_by-calls block_id id ev none c = absurd (ground arith)
handle_by-calls block_id id ev (some handler) c = ground arith

same_result : {r r' : Bool × List Effect} → some r ≡ some r' → r ≡ r'
same_result e = ground arith

if-calls :
    (b : Bool) (block_id id : BlockId) (ev : WaveKeyboardEvent)
    (o : Option (WaveKeyboardEvent → Bool)) (r : Bool × List Effect)
    → (if b
        then some (true, open_switch_connection block_id ∷ [])
        else some (handle_by block_id ev o))
      ≡ some r
    → calls_block id r.1 ≡ true
    → block_id ≡ id
if-calls true block_id id ev o r h c =
    let q : block_id == id || false ≡ true = ap (λ x. calls_block id x.1) (same_result h) ∙ c in
    ground arith
if-calls false block_id id ev o r h c =
    handle_by-calls block_id id ev o (ap (λ x. calls_block id x.1) (same_result h) ∙ c)

module _ (to_lower : Text → Text) (count_graphemes : Text → ℕ) where
  -- No text field has the focus, or it is a block's own dummy field, or the event is no input for it.
  abbrev pub IsNoInput : WaveKeyboardEvent → Option ActiveElement → Type 0
  IsNoInput ev none = Unit
  IsNoInput ev (some e) =
      ((e.is_input || e.is_editable) ≡ false)
      ⊎ (e.is_dummy_focus ≡ true)
      ⊎ (is_input_event to_lower count_graphemes ev ≡ false)

  -- What must hold for a block to see an event.
  pub record MaySee (app : App) (screen : Screen) (ev : WaveKeyboardEvent) (id : BlockId)
      : Type 0 where
    pub unbound : handle_global_wave_keyboard_events to_lower ev ≡ none
    pub focused : focused_block app.focused_node ≡ some id
    pub no_input : IsNoInput ev screen.active_element
    pub no_modal : screen.modal_open ≡ false

  handle_in-calls :
      (block_id id : BlockId) (ev : WaveKeyboardEvent) (o : Option BlockModel)
      (r : Bool × List Effect)
      → handle_in to_lower count_graphemes block_id ev o ≡ some r
      → calls_block id r.1 ≡ true
      → block_id ≡ id
  handle_in-calls block_id id ev none r h c = absurd (ground arith)
  handle_in-calls block_id id ev (some bcm) r h c =
      if-calls (bcm.can_switch_connection && check_key_pressed to_lower ev (text "Cmd:g")) block_id
        id ev bcm.handler r h c

  handle_block-calls :
      (screen : Screen) (ev : WaveKeyboardEvent) (o : Option BlockId) (id : BlockId)
      (r : Bool × List Effect)
      → handle_block to_lower count_graphemes screen ev o ≡ some r
      → calls_block id r.1 ≡ true
      → (o ≡ some id) × (should_dispatch_to_block to_lower count_graphemes screen ev ≡ true)
  handle_block-calls screen ev none id r h c =
      let q : false ≡ true = ap (λ x. calls_block id x.1) (same_result h) ∙ c in
      absurd (ground arith)
  handle_block-calls screen ev (some b) id r h c =
      elim (Bool-cases (should_dispatch_to_block to_lower count_graphemes screen ev)) [
        | inl e ↦ (ap some (handle_in-calls b id ev _ r (rw e at h) c), e)
        | inr e ↦
            let q : false ≡ true = ap (λ x. calls_block id x.1) (same_result (rw e at h)) ∙ c in
            absurd (ground arith)
      ]

  no_modal_when :
      (screen : Screen) (ev : WaveKeyboardEvent)
      → should_dispatch_to_block to_lower count_graphemes screen ev ≡ true
      → screen.modal_open ≡ false
  unfolding should_dispatch_to_block
  no_modal_when screen ev d = ground arith

  IsNoInput-when :
      (ev : WaveKeyboardEvent) (o : Option ActiveElement)
      → dispatch_to to_lower count_graphemes ev o ≡ true
      → IsNoInput ev o
  IsNoInput-when ev none d = tt
  IsNoInput-when ev (some e) d = elim (Bool-cases (e.is_input || e.is_editable)) [
    | inr p ↦ inl p
    | inl p ↦ elim (Bool-cases e.is_dummy_focus) [
      | inl q ↦ inr (inl q)
      | inr q ↦ inr (inr (ground arith))
    ]
  ]

  dispatched_when :
      (screen : Screen) (ev : WaveKeyboardEvent)
      → should_dispatch_to_block to_lower count_graphemes screen ev ≡ true
      → dispatch_to to_lower count_graphemes ev screen.active_element ≡ true
  unfolding should_dispatch_to_block
  dispatched_when screen ev d = ground arith

  -- A block's keyDownHandler or openSwitchConnection is called for an event only where no global
  -- binding takes the event, the block is the focused one, no modal is open, and the event is
  -- not input, or the focused element is no text field, or it is a dummy focus element.
  pub app_handle_key_down-MaySee :
      (app : App) (screen : Screen) (ev : WaveKeyboardEvent) (id : BlockId) (r : Bool × List Effect)
      → app_handle_key_down to_lower count_graphemes app screen ev ≡ some r
      → calls_block id r.1 ≡ true
      → MaySee app screen ev id
  unfolding app_handle_key_down
  app_handle_key_down-MaySee app screen ev id r h c =
      elim (Option-cases (handle_global_wave_keyboard_events to_lower ev)) [
        | inr (action, e) ↦
            let q : calls_block id (perform app action) ≡ true =
              ap (λ x. calls_block id x.1) (same_result (rw e at h)) ∙ c in
            absurd (ground (arith, calls-perform id app action))
        | inl e ↦
            let (f, d) =
              handle_block-calls screen ev (focused_block app.focused_node) id r (rw e at h) c in
            record {
              unbound = e;
              focused = f;
              no_input = IsNoInput-when ev screen.active_element (dispatched_when screen ev d);
              no_modal = no_modal_when screen ev d;
            }
      ]
