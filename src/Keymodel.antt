-- ===== src/Keymodel.antt =====
-- frontend/app/store/keymodel.ts: the global key bindings and what they do. The calls of the layout
-- models, the services and the server are results, in order. The ids of tabs and blocks are numbers.
pub mod Tabs
pub mod Global
pub mod Bindings
pub mod Dispatch
pub mod Delay
mod Tests
use Prim.Native.Nat.{◌%◌}
use testmerge.Base.{
  ℕ, zero, suc, ◌+◌, ◌-◌, String, Bool, true, false, not, ◌&&◌, ◌||◌, Option, none, some, List, [],
  ◌∷◌, ◌++◌, length, ◌==◌, str_eq, ltb, leb, if◌then◌else◌,
}
use testmerge.Base.Int.{ℤ, pos, negsuc, ◌+ℤ◌, ◌-ℤ◌}
use testmerge.Base.Texts.{Text, text}
use testmerge.Layout.Types.{NodeId, BlockId}
use testmerge.Layout.Navigate.{NavigateDirection}

abbrev pub TabId : Type 0
TabId = ℕ

-- JavaScript's remainder, which has the sign of its first operand.
abbrev pub rem_ℤ : ℤ → ℕ → ℤ
rem_ℤ (pos a) n = pos (a % n)
rem_ℤ (negsuc a) n = pos 0 -ℤ pos (suc a % n)

unfoldable pub get_elem? {ℓ} : {A : Type ℓ} → List A → ℕ → Option A
get_elem? [] n = none
get_elem? (x ∷ xs) zero = some x
get_elem? (x ∷ xs) (suc n) = get_elem? xs n

-- An index of an array; `undefined` out of its range.
abbrev pub at_index : List TabId → ℤ → Option TabId
at_index ids (pos n) = get_elem? ids n
at_index ids (negsuc n) = none

-- The loop of switchTab, from an index on.
unfoldable pub index_of : ℕ → List TabId → TabId → Option ℕ
index_of i [] id = none
index_of i (x ∷ xs) id = let rest = index_of (suc i) xs id in if x == id then some i else rest

-- The blocks' meta data that handleCmdN reads and writes.
pub record BlockMeta : Type 0 where
  pub view : Option String
  pub controller : Option String
  pub cmd_cwd : Option String
  pub connection : Option String

pub data Effect : Type 0 where
  set_active_tab : Option TabId → Effect
  add_tab_to_workspace : ℕ → Effect
  close_tab delete_layout_model close_focused_node : TabId → Effect
  focus_first_node : Effect
  refocus_node : BlockId → Effect
  create_block : BlockMeta → Effect
  magnify_node_toggle : NodeId → Effect
  switch_node_focus_in_direction : TabId → NavigateDirection → Effect
  switch_node_focus_by_block_num : ℕ → Effect
  open_switch_connection key_down_handler : BlockId → Effect

-- The focused node, with the block id of its data.
pub record FocusedNode : Type 0 where
  pub id : NodeId
  pub block_id : Option BlockId

-- What the handlers read: the workspace's tabs, the tab of tabAtom, activeTabId, the focused node of
-- its layout, the blocks of a tab and the meta data of a block, where the cache has them.
pub record App : Type 0 where
  pub tabids : List TabId
  pub tab_atom : TabId
  pub active_tab_id : TabId
  pub focused_node : Option FocusedNode
  pub tab_data : TabId → Option (Option (List BlockId))
  pub block_data : Option BlockId → Option (Option BlockMeta)

abbrev pub is_empty_array : Option (List BlockId) → Bool
is_empty_array none = true
is_empty_array (some []) = true
is_empty_array (some (b ∷ bs)) = false

abbrev pub close_in : TabId → Option (Option (List BlockId)) → List Effect
close_in tab_id none = []
close_in tab_id (some blockids) =
    if is_empty_array blockids
    then close_tab tab_id ∷ delete_layout_model tab_id ∷ []
    else close_focused_node tab_id ∷ []

abbrev pub generic_close : App → TabId → List Effect
generic_close app tab_id = close_in tab_id (app.tab_data tab_id)

abbrev pub switch_tab_abs : App → ℕ → List Effect
switch_tab_abs app index =
    if index == 0 || leb (length app.tabids) (index - 1)
    then []
    else set_active_tab (get_elem? app.tabids (index - 1)) ∷ []

abbrev pub tab_at : List TabId → ℤ → Option ℕ → List Effect
tab_at ids offset none = []
tab_at ids offset (some tab_idx) =
    let n = length ids in
    set_active_tab (at_index ids (rem_ℤ ((pos tab_idx +ℤ offset) +ℤ pos n) n)) ∷ []

unfoldable pub switch_tab : App → ℤ → List Effect
unfolding index_of get_elem?
switch_tab app offset = tab_at app.tabids offset (index_of 0 app.tabids app.tab_atom)

abbrev pub refocus : Option BlockId → List Effect
refocus none = []
refocus (some block_id) = refocus_node block_id ∷ []

abbrev pub handle_cmd_i : Option FocusedNode → List Effect
handle_cmd_i none = focus_first_node ∷ []
handle_cmd_i (some node) = refocus node.block_id

abbrev term_block : BlockMeta
term_block = record {
  view = some "term";
  controller = some "shell";
  cmd_cwd = none;
  connection = none;
}

abbrev term_cwd : BlockMeta → Option String → Option String
term_cwd m none = none
term_cwd m (some view) = if str_eq view "term" then m.cmd_cwd else none

abbrev block_like : Option (Option BlockMeta) → BlockMeta
block_like none = term_block
block_like (some none) = term_block
block_like (some (some m)) = record term_block {
  cmd_cwd = term_cwd m m.view;
  connection = m.connection;
}

abbrev new_block : App → Option FocusedNode → BlockMeta
new_block app none = term_block
new_block app (some node) = block_like (app.block_data node.block_id)

abbrev pub handle_cmd_n : App → List Effect
handle_cmd_n app = create_block (new_block app app.focused_node) ∷ []

abbrev pub magnify_focused : Option FocusedNode → List Effect
magnify_focused none = []
magnify_focused (some node) = magnify_node_toggle node.id ∷ []
