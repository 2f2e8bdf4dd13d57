-- ===== src/Engine/InputState.antt =====
-- What input the engine takes, and its codes: `Engine::setInputState`, `getInputState`,
-- `setInputActive`, `inputSilentOff`, `setInputVerbs` and `setInputHUD` (src/Engine/Engine.cpp), with
-- the constants of include/engge/Engine/InputStateConstants.hpp.
pub mod Codes
use Prim.Native.Nat.{bit_and, bit_or}
use engge.Base.{ℕ, Bool, true, false, ◌==◌, if◌then◌else◌}

-- The four flags among the members of `Engine::Impl`.
pub record InputState : Type 0 where
  pub input_active : Bool
  pub input_verbs_active : Bool
  pub show_cursor : Bool
  pub input_hud : Bool

abbrev pub ui_input_on : ℕ
ui_input_on = 1

abbrev pub ui_input_off : ℕ
ui_input_off = 2

abbrev pub ui_verbs_on : ℕ
ui_verbs_on = 4

abbrev pub ui_verbs_off : ℕ
ui_verbs_off = 8

abbrev pub ui_cursor_on : ℕ
ui_cursor_on = 0x40

abbrev pub ui_cursor_off : ℕ
ui_cursor_off = 0x80

abbrev pub ui_hudobjects_on : ℕ
ui_hudobjects_on = 0x10

abbrev pub ui_hudobjects_off : ℕ
ui_hudobjects_off = 0x20

-- `(state & flag) == flag`
abbrev pub has_flag : ℕ → ℕ → Bool
has_flag state flag = bit_and state flag == flag

-- Two `if`s in a row: the flag that turns off has the last word.
abbrev pub switch : ℕ → ℕ → ℕ → Bool → Bool
switch state on off old =
    let turned = if has_flag state on then true else old in
    if has_flag state off then false else turned

unfoldable pub set_input_state : ℕ → InputState → InputState
set_input_state state i = record {
  input_active = switch state ui_input_on ui_input_off i.input_active;
  input_verbs_active = switch state ui_verbs_on ui_verbs_off i.input_verbs_active;
  show_cursor = switch state ui_cursor_on ui_cursor_off i.show_cursor;
  input_hud = switch state ui_hudobjects_on ui_hudobjects_off i.input_hud;
}

unfoldable pub get_input_state : InputState → ℕ
get_input_state i =
    let input = if i.input_active then ui_input_on else ui_input_off in
    let verbs = if i.input_verbs_active then ui_verbs_on else ui_verbs_off in
    let cursor = if i.show_cursor then ui_cursor_on else ui_cursor_off in
    let hud = if i.input_hud then ui_hudobjects_on else ui_hudobjects_off in
    bit_or (bit_or (bit_or (bit_or 0 input) verbs) cursor) hud

-- `setInputActive`, which does nothing in a cutscene.
unfoldable pub set_input_active : Bool → Bool → InputState → InputState
set_input_active in_cutscene active i =
    if in_cutscene then i else record i { input_active = active; show_cursor = active }

unfoldable pub input_silent_off : InputState → InputState
input_silent_off i = record i { input_active = false }

unfoldable pub set_input_verbs : Bool → InputState → InputState
set_input_verbs on i = record i { input_verbs_active = on }

unfoldable pub set_input_hud : Bool → InputState → InputState
set_input_hud on i = record i { input_hud = on }
