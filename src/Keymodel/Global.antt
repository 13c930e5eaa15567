-- ===== src/Keymodel/Global.antt =====
-- registerGlobalKeys of frontend/app/store/keymodel.ts, the search for a binding, and where an event
-- goes. toLocaleLowerCase and countGraphemes are parameters.
use testmerge.Base.{
  ℕ, Bool, true, false, not, ◌&&◌, ◌||◌, Option, none, some, List, [], ◌∷◌, ◌++◌, if◌then◌else◌,
  length, suc, String,
}
use testmerge.Base.Int.{ℤ, pos, negsuc}
use testmerge.Base.Texts.{Text, text}
use testmerge.Layout.Types.{BlockId}
use testmerge.Layout.Navigate.{NavigateDirection, up, right, down, left}
use testmerge.Keys.{WaveKeyboardEvent, check_key_pressed}
use testmerge.Keys.Input.{is_input_event}
use testmerge.Keymodel.{
  Effect, add_tab_to_workspace, switch_node_focus_in_direction, switch_node_focus_by_block_num,
  open_switch_connection, key_down_handler, App, FocusedNode, generic_close, switch_tab_abs,
  switch_tab, handle_cmd_i, handle_cmd_n, magnify_focused,
}

-- The handlers of the table, each of which returns true.
pub data Action : Type 0 where
  tab_by : ℤ → Action
  cmd_n cmd_i new_tab close_current magnify : Action
  focus_towards : NavigateDirection → Action
  tab_number block_number : ℕ → Action

unfoldable pub perform : App → Action → List Effect
unfolding switch_tab
perform app (tab_by offset) = switch_tab app offset
perform app cmd_n = handle_cmd_n app
perform app cmd_i = handle_cmd_i app.focused_node
perform app new_tab = add_tab_to_workspace (suc (length app.tabids)) ∷ []
perform app close_current = generic_close app app.active_tab_id
perform app magnify = magnify_focused app.focused_node
perform app (focus_towards direction) =
    switch_node_focus_in_direction app.active_tab_id direction ∷ []
perform app (tab_number index) = switch_tab_abs app index
perform app (block_number index) = switch_node_focus_by_block_num index ∷ []

-- A `Map`, in the order of insertion.
abbrev pub Bindings : Type 0
Bindings = List (Text × Action)

-- One round of the loop over the digits.
unfoldable pub digit_keys : ℕ → String → Bindings → Bindings
unfolding text
digit_keys idx digit rest =
    (text "Cmd:" ++ text digit, tab_number idx)
    ∷ (text "Ctrl:Shift:c{Digit" ++ text digit ++ text "}", block_number idx)
    ∷ (text "Ctrl:Shift:c{Numpad" ++ text digit ++ text "}", block_number idx)
    ∷ rest

unfoldable pub global_key_map : Bindings
unfolding digit_keys
global_key_map =
    (text "Cmd:]", tab_by (pos 1))
    ∷ (text "Shift:Cmd:]", tab_by (pos 1))
    ∷ (text "Cmd:[", tab_by (negsuc 0))
    ∷ (text "Shift:Cmd:[", tab_by (negsuc 0))
    ∷ (text "Cmd:n", cmd_n)
    ∷ (text "Cmd:i", cmd_i)
    ∷ (text "Cmd:t", new_tab)
    ∷ (text "Cmd:w", close_current)
    ∷ (text "Cmd:m", magnify)
    ∷ (text "Ctrl:Shift:ArrowUp", focus_towards up)
    ∷ (text "Ctrl:Shift:ArrowDown", focus_towards down)
    ∷ (text "Ctrl:Shift:ArrowLeft", focus_towards left)
    ∷ (text "Ctrl:Shift:ArrowRight", focus_towards right)
    ∷ digit_keys 1 "1" (
        digit_keys 2 "2" (
          digit_keys 3 "3" (
            digit_keys 4 "4" (
              digit_keys 5 "5"
                (digit_keys 6 "6" (digit_keys 7 "7" (digit_keys 8 "8" (digit_keys 9 "9" []))))))))

abbrev pub key_texts : Bindings → List Text
key_texts [] = []
key_texts ((key, action) ∷ rest) = key ∷ key_texts rest

-- The argument of registerGlobalWebviewKeys.
unfoldable pub all_keys : List Text
unfolding global_key_map
all_keys =
    key_texts global_key_map
    ++ text "Cmd:l" ∷ text "Cmd:r" ∷ text "Cmd:ArrowRight" ∷ text "Cmd:ArrowLeft" ∷ []

-- What shouldDispatchToBlock reads of the document: the focused element, if it is an HTMLElement.
pub record ActiveElement : Type 0 where
  pub is_input : Bool
  pub is_editable : Bool
  pub is_dummy_focus : Bool

-- What appHandleKeyDown reads of a block's component model.
pub record BlockModel : Type 0 where
  pub can_switch_connection : Bool
  pub handler : Option (WaveKeyboardEvent → Bool)

-- The document, the atom modalOpen, and getBlockComponentModel.
pub record Screen : Type 0 where
  pub modal_open : Bool
  pub active_element : Option ActiveElement
  pub block_model : BlockId → Option BlockModel

abbrev pub handle_by :
    BlockId → WaveKeyboardEvent → Option (WaveKeyboardEvent → Bool) → Bool × List Effect
handle_by block_id ev none = (false, [])
handle_by block_id ev (some handler) = (handler ev, key_down_handler block_id ∷ [])

abbrev pub focused_block : Option FocusedNode → Option BlockId
focused_block none = none
focused_block (some node) = node.block_id

module _ (to_lower : Text → Text) where
  -- The loop of handleGlobalWaveKeyboardEvents.
  unfoldable pub find_binding : WaveKeyboardEvent → Bindings → Option Action
  unfolding check_key_pressed
  find_binding ev [] = none
  find_binding ev ((key, action) ∷ rest) =
      let later = find_binding ev rest in
      if check_key_pressed to_lower ev key then some action else later

  unfoldable pub handle_global_wave_keyboard_events : WaveKeyboardEvent → Option Action
  unfolding find_binding global_key_map
  handle_global_wave_keyboard_events ev = find_binding ev global_key_map

module _ (to_lower : Text → Text) (count_graphemes : Text → ℕ) where
  abbrev pub dispatch_to : WaveKeyboardEvent → Option ActiveElement → Bool
  dispatch_to ev none = true
  dispatch_to ev (some e) =
      if e.is_input || e.is_editable
      then e.is_dummy_focus || not (is_input_event to_lower count_graphemes ev)
      else true

  unfoldable pub should_dispatch_to_block : Screen → WaveKeyboardEvent → Bool
  unfolding is_input_event
  should_dispatch_to_block screen ev =
      if screen.modal_open then false else dispatch_to ev screen.active_element

  -- `none` is the TypeError at a block without a component model.
  abbrev pub handle_in :
      BlockId → WaveKeyboardEvent → Option BlockModel → Option (Bool × List Effect)
  handle_in block_id ev none = none
  handle_in block_id ev (some bcm) =
      if bcm.can_switch_connection && check_key_pressed to_lower ev (text "Cmd:g")
      then some (true, open_switch_connection block_id ∷ [])
      else some (handle_by block_id ev bcm.handler)

  abbrev pub handle_block :
      Screen → WaveKeyboardEvent → Option BlockId → Option (Bool × List Effect)
  handle_block screen ev none = some (false, [])
  handle_block screen ev (some block_id) =
      if should_dispatch_to_block screen ev
      then handle_in block_id ev (screen.block_model block_id)
      else some (false, [])

  abbrev pub handle_found :
      App → Screen → WaveKeyboardEvent → Option Action → Option (Bool × List Effect)
  handle_found app screen ev (some action) = some (true, perform app action)
  handle_found app screen ev none = handle_block screen ev (focused_block app.focused_node)

  -- Whether the event is handled, and the calls that are made.
  unfoldable pub app_handle_key_down :
      App → Screen → WaveKeyboardEvent → Option (Bool × List Effect)
  unfolding handle_global_wave_keyboard_events should_dispatch_to_block perform check_key_pressed
      text
  app_handle_key_down app screen ev =
      handle_found app screen ev (handle_global_wave_keyboard_events to_lower ev)
