-- ===== src/Dialog/States.antt =====
-- The enums and the memory of conditions of include/engge/Dialog/DialogPlayer.hpp, and the select
-- mode of src/Dialog/DialogPlayer.cpp. The enumerator `None` is `inactive`.
use engge.Base.{ℕ, Bool, Bytes, ◌==◌}

pub data DialogManagerState : Type 0 where
  inactive active waiting_for_choice : DialogManagerState

pub data DialogPlayerState : Type 0 where
  inactive start running waiting_for_choice : DialogPlayerState
  waiting_end_animation waiting_for_saying_choice : DialogPlayerState

pub data DialogConditionMode : Type 0 where
  once show_once once_ever show_once_ever temp_once : DialogConditionMode

pub data DialogSelectMode : Type 0 where
  show choose : DialogSelectMode

pub record DialogConditionState : Type 0 where
  pub mode : DialogConditionMode
  pub actor_key : Bytes
  pub dialog : Bytes
  pub line : ℕ

-- The enumerators' values, by which `==` compares them.
abbrev pub mode_value : DialogConditionMode → ℕ
mode_value once = 0
mode_value show_once = 1
mode_value once_ever = 2
mode_value show_once_ever = 3
mode_value temp_once = 4

abbrev pub state_value : DialogPlayerState → ℕ
state_value inactive = 0
state_value start = 1
state_value running = 2
state_value waiting_for_choice = 3
state_value waiting_end_animation = 4
state_value waiting_for_saying_choice = 5

abbrev pub state_is : DialogPlayerState → DialogPlayerState → Bool
state_is a b = state_value a == state_value b

abbrev pub mode_is : DialogConditionMode → DialogConditionMode → Bool
mode_is a b = mode_value a == mode_value b
