-- ===== src/Keymodel/Tests.antt =====
-- The theorems on the global keys at concrete tabs and events.
use testmerge.Base.{zero, suc, ◌≡◌, refl, true, false, none, some, [], ◌∷◌, ◌++◌, arith}
use testmerge.Base.Texts.{Text, text}
use testmerge.Keys.{
  WaveKeyboardEvent, keydown, check_key_pressed, parse_key_description, parse_from, strip_parens,
  split_keys, match_group, match_code, read_part, read_parts,
}
use testmerge.Keys.Input.{is_input_event, is_one_of}
use testmerge.Keymodel.{App, key_down_handler, get_elem?}
use testmerge.Keymodel.Global.{
  ActiveElement, Screen, BlockModel, block_number, digit_keys, global_key_map, find_binding,
  handle_global_wave_keyboard_events, should_dispatch_to_block, app_handle_key_down,
}
use testmerge.Keymodel.Tabs.{next, previous, IsUnique, press_all, undo, press_all-undo}
use testmerge.Keymodel.Bindings.{Rest, event_for, handle_global-binding}
use testmerge.Keymodel.Dispatch.{MaySee, app_handle_key_down-MaySee}

abbrev three_tabs : App
three_tabs = record {
  tabids = 10 ∷ 20 ∷ 30 ∷ [];
  tab_atom = 20;
  active_tab_id = 20;
  focused_node = some (record { id = 5; block_id = some 6 });
  tab_data = λ id. none;
  block_data = λ id. none;
}

three_tabs-IsUnique : IsUnique three_tabs.tabids
unfolding get_elem?
three_tabs-IsUnique zero zero t p q = refl
three_tabs-IsUnique zero (suc zero) t p q = absurd (ground arith)
three_tabs-IsUnique zero (suc (suc zero)) t p q = absurd (ground arith)
three_tabs-IsUnique zero (suc (suc (suc j))) t p q = absurd (ground arith)
three_tabs-IsUnique (suc zero) zero t p q = absurd (ground arith)
three_tabs-IsUnique (suc zero) (suc zero) t p q = refl
three_tabs-IsUnique (suc zero) (suc (suc zero)) t p q = absurd (ground arith)
three_tabs-IsUnique (suc zero) (suc (suc (suc j))) t p q = absurd (ground arith)
three_tabs-IsUnique (suc (suc zero)) zero t p q = absurd (ground arith)
three_tabs-IsUnique (suc (suc zero)) (suc zero) t p q = absurd (ground arith)
three_tabs-IsUnique (suc (suc zero)) (suc (suc zero)) t p q = refl
three_tabs-IsUnique (suc (suc zero)) (suc (suc (suc j))) t p q = absurd (ground arith)
three_tabs-IsUnique (suc (suc (suc i))) j t p q = absurd (ground arith)

second_active : get_elem? three_tabs.tabids 1 ≡ some three_tabs.tab_atom
unfolding get_elem?
second_active = refl

press_all-undo_example :
    (press_all three_tabs
      ((next ∷ next ∷ previous ∷ []) ++ undo (next ∷ next ∷ previous ∷ []))).tab_atom
    ≡ 20
press_all-undo_example =
    press_all-undo three_tabs (next ∷ next ∷ previous ∷ []) 1 three_tabs-IsUnique second_active

abbrev rest : Rest
rest = record {
  key = text "!";
  code = text "KeyM";
  repeat = false;
  location = 0;
  alt = true;
  meta = false;
}

abbrev same_text : Text → Text
same_text s = s

digit_bound : get_elem? global_key_map 14 ≡ some (text "Ctrl:Shift:c{Digit1}", block_number 1)
unfolding get_elem? global_key_map digit_keys text
digit_bound = refl

handle_global-binding_example :
    handle_global_wave_keyboard_events same_text (event_for rest (text "Ctrl:Shift:c{Digit1}"))
    ≡ some (block_number 1)
unfolding text
handle_global-binding_example =
    handle_global-binding same_text rest 14 _ (block_number 1)
      (record { no_up = refl; no_down = refl; no_left = refl; no_right = refl }) digit_bound

abbrev ctrl_q : WaveKeyboardEvent
ctrl_q = record {
  event_type = keydown;
  key = b'q' ∷ [];
  code = [];
  repeat = false;
  location = 0;
  shift = false;
  control = true;
  alt = false;
  meta = false;
  cmd = false;
  option = false;
}

abbrev terminal : BlockModel
terminal = record { can_switch_connection = true; handler = some (λ ev. true) }

abbrev text_field : ActiveElement
text_field = record { is_input = true; is_editable = false; is_dummy_focus = false }

abbrev screen : Screen
screen = record {
  modal_open = false;
  active_element = some text_field;
  block_model = λ id. some terminal;
}

ctrl_q_handled :
    app_handle_key_down same_text (λ s. 1) three_tabs screen ctrl_q
    ≡ some (true, key_down_handler 6 ∷ [])
unfolding app_handle_key_down handle_global_wave_keyboard_events find_binding global_key_map
    digit_keys text check_key_pressed parse_key_description parse_from strip_parens split_keys
    match_group match_code read_part read_parts should_dispatch_to_block is_input_event is_one_of
ctrl_q_handled = refl

app_handle_key_down-MaySee_example : MaySee same_text (λ s. 1) three_tabs screen ctrl_q 6
app_handle_key_down-MaySee_example =
    app_handle_key_down-MaySee same_text (λ s. 1) three_tabs screen ctrl_q 6 _ ctrl_q_handled refl
