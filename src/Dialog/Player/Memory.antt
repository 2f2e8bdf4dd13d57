-- ===== src/Dialog/Player/Memory.antt =====
-- Conditions: the memory of `DialogPlayer` (`isOnce` and the like, `resetState`), `ConditionVisitor`
-- and `ConditionStateVisitor`, and `acceptConditions`.
use engge.Base.{
  ℕ, Bool, true, false, not, ◌&&◌, Option, none, some, List, [], ◌∷◌, ◌++◌, bytes_eq, ◌==◌,
  if◌then◌else◌, any,
}
use engge.Dialog.Ast.{
  pos, Condition, code_condition, once_condition, show_once_condition, once_ever_condition,
  temp_once_condition, Statement,
}
use engge.Dialog.Script.{DialogScript}
use engge.Dialog.States.{
  DialogConditionMode, DialogSelectMode, DialogConditionState, once, show_once, once_ever,
  temp_once, mode_is,
}
use engge.Dialog.Player.State.{Player}

-- The states that `resetState` keeps.
unfoldable pub drop_temp_once : List DialogConditionState → List DialogConditionState
drop_temp_once [] = []
drop_temp_once (s ∷ ss) =
    if mode_is s.mode temp_once then drop_temp_once ss else s ∷ drop_temp_once ss

module _ {script : DialogScript} where
  open script use {execute_condition}

  -- The predicates that `isOnce`, `isShowOnce` and `isTempOnce` search `_states` with.
  unfoldable pub for_actor : DialogConditionMode → Player script → ℕ → DialogConditionState → Bool
  for_actor mode p line s =
      mode_is s.mode mode
      && bytes_eq s.actor_key p.actor
      && bytes_eq s.dialog p.dialog_name
      && s.line == line

  -- The predicate of `isOnceEver`, for every actor.
  unfoldable pub for_dialog : DialogConditionMode → Player script → ℕ → DialogConditionState → Bool
  for_dialog mode p line s =
      mode_is s.mode mode && bytes_eq s.dialog p.dialog_name && s.line == line

  unfoldable pub is_once : Player script → ℕ → Bool
  is_once p line = not (any (for_actor once p line) p.states)

  unfoldable pub is_show_once : Player script → ℕ → Bool
  is_show_once p line = not (any (for_actor show_once p line) p.states)

  unfoldable pub is_once_ever : Player script → ℕ → Bool
  is_once_ever p line = not (any (for_dialog once_ever p line) p.states)

  unfoldable pub is_temp_once : Player script → ℕ → Bool
  is_temp_once p line = not (any (for_actor temp_once p line) p.states)

  -- `ConditionVisitor`: is the condition accepted? Script code may change the world.
  unfoldable pub visit_condition : Condition → Player script → Bool × Player script
  visit_condition (code_condition line code) p =
      let (accepted, w) = execute_condition code p.world in (accepted, record p { world = w })
  visit_condition (once_condition line) p = (is_once p line, p)
  visit_condition (show_once_condition line) p = (is_show_once p line, p)
  visit_condition (once_ever_condition line) p = (is_once_ever p line, p)
  visit_condition (temp_once_condition line) p = (is_temp_once p line, p)

  -- `ConditionStateVisitor::setState`.
  unfoldable pub set_state : Player script → ℕ → DialogConditionMode → Option DialogConditionState
  set_state p line mode =
      some (record { mode = mode; actor_key = p.actor; dialog = p.dialog_name; line = line })

  -- `ConditionStateVisitor`: what to remember of a condition, if anything.
  unfoldable pub condition_state :
      DialogSelectMode → Player script → Condition → Option DialogConditionState
  unfolding set_state
  condition_state DialogSelectMode.choose p (once_condition line) = set_state p line once
  condition_state DialogSelectMode.show p (show_once_condition line) = set_state p line show_once
  condition_state DialogSelectMode.choose p (once_ever_condition line) = set_state p line once_ever
  condition_state DialogSelectMode.show p (temp_once_condition line) = set_state p line temp_once
  condition_state mode p c = none

  -- `if (state.has_value()) _states.push_back(state.value())`
  unfoldable pub push_state : Option DialogConditionState → Player script → Player script
  push_state none p = p
  push_state (some s) p = record p { states = p.states ++ s ∷ [] }

  unfoldable pub record_states : DialogSelectMode → List Condition → Player script → Player script
  unfolding condition_state push_state
  record_states mode [] p = p
  record_states mode (c ∷ cs) p = record_states mode cs (push_state (condition_state mode p c) p)

  -- The first loop of `acceptConditions`, up to the first condition that is refused.
  unfoldable pub all_accepted : List Condition → Player script → Bool × Player script
  unfolding visit_condition
  all_accepted [] p = (true, p)
  all_accepted (c ∷ cs) p =
      let (accepted, q) = visit_condition c p in
      let rest = all_accepted cs q in if accepted then rest else (false, q)

  unfoldable pub accept_conditions : Statement → Player script → Bool × Player script
  unfolding all_accepted record_states
  accept_conditions st p =
      let (accepted, q) = all_accepted st.conditions p in
      if accepted then (true, record_states DialogSelectMode.show st.conditions q) else (false, q)

  unfoldable pub reset_state : Player script → Player script
  unfolding drop_temp_once
  reset_state p = record p {
    parrot_on = true;
    choice_limit = pos 6;
    override_label = [];
    states = drop_temp_once p.states;
  }
