-- ===== src/Dialog/Player/Frame.antt =====
-- The members of the player that `acceptConditions` may touch: its memory of conditions and the world.
use engge.Base.{◌≡◌, inl, inr, Option, none, some, List, [], ◌∷◌, arith, Bool-cases}
use engge.Dialog.Ast.{Condition, code_condition, Statement}
use engge.Dialog.Script.{DialogScript}
use engge.Dialog.States.{DialogSelectMode, DialogConditionState}
use engge.Dialog.Player.State.{Player}
use engge.Dialog.Player.Memory.{
  visit_condition, all_accepted, condition_state, push_state, record_states, accept_conditions,
}

-- The second player differs from the first in its memory of conditions and its world at most.
pub record SameButMemory {script : DialogScript} (p q : Player script) : Type 0 where
  pub compilation_unit : q.compilation_unit ≡ p.compilation_unit
  pub choices : q.choices ≡ p.choices
  pub label : q.label ≡ p.label
  pub current_statement : q.current_statement ≡ p.current_statement
  pub state : q.state ≡ p.state
  pub wait_action : q.wait_action ≡ p.wait_action
  pub actor : q.actor ≡ p.actor
  pub dialog_name : q.dialog_name ≡ p.dialog_name
  pub choice_limit : q.choice_limit ≡ p.choice_limit
  pub parrot_on : q.parrot_on ≡ p.parrot_on

module _ {script : DialogScript} where
  pub SameButMemory-refl : (p : Player script) → SameButMemory p p
  SameButMemory-refl p = ground arith

  pub SameButMemory-trans :
      {p q r : Player script} → SameButMemory p q → SameButMemory q r → SameButMemory p r
  SameButMemory-trans h k = ground arith

  push_state-SameButMemory :
      (s : Option DialogConditionState) (p : Player script) → SameButMemory p (push_state s p)
  unfolding push_state
  push_state-SameButMemory none p = SameButMemory-refl p
  push_state-SameButMemory (some s) p = ground arith

  pub record_states-SameButMemory :
      (mode : DialogSelectMode) (cs : List Condition) (p : Player script)
      → SameButMemory p (record_states mode cs p)
  unfolding record_states
  record_states-SameButMemory mode [] p = SameButMemory-refl p
  record_states-SameButMemory mode (c ∷ cs) p =
      SameButMemory-trans (push_state-SameButMemory (condition_state mode p c) p)
        (record_states-SameButMemory mode cs (push_state (condition_state mode p c) p))

  pub visit_condition-SameButMemory :
      (c : Condition) (p : Player script) → SameButMemory p (visit_condition c p).1
  unfolding visit_condition
  visit_condition-SameButMemory (code_condition line code) p = ground arith
  visit_condition-SameButMemory _ p = SameButMemory-refl p

  pub all_accepted-SameButMemory :
      (cs : List Condition) (p : Player script) → SameButMemory p (all_accepted cs p).1
  unfolding all_accepted
  all_accepted-SameButMemory [] p = SameButMemory-refl p
  all_accepted-SameButMemory (c ∷ cs) p = elim (Bool-cases (visit_condition c p).0) [
    | inl e ↦ rw e (
        SameButMemory-trans (visit_condition-SameButMemory c p)
          (all_accepted-SameButMemory cs (visit_condition c p).1))
    | inr e ↦ rw e (visit_condition-SameButMemory c p)
  ]

  pub accept_conditions-SameButMemory :
      (st : Statement) (p : Player script) → SameButMemory p (accept_conditions st p).1
  unfolding accept_conditions
  accept_conditions-SameButMemory st p = elim (Bool-cases (all_accepted st.conditions p).0) [
    | inl e ↦ rw e (
        SameButMemory-trans (all_accepted-SameButMemory st.conditions p)
          (record_states-SameButMemory DialogSelectMode.show st.conditions _))
    | inr e ↦ rw e (all_accepted-SameButMemory st.conditions p)
  ]
