-- ===== src/Dialog/Player/Conditions.antt =====
-- The memory that `acceptConditions` and `choose` write and the conditions read.
use engge.Base.{
  ℕ, ◌≡◌, refl, ◌∙◌, ◌⊎◌, inl, inr, Bool, true, false, ◌||◌, Option, none, some, List, [], ◌∷◌,
  ◌++◌, bytes_eq_refl, any, arith, Bool-cases, Option-cases,
}
use mathlib.Core.Path.{fun_ext}
use engge.Base.Outcome.{done}
use engge.Dialog.Ast.{
  Condition, code_condition, once_condition, show_once_condition, temp_once_condition, Statement,
}
use engge.Dialog.Script.{DialogScript}
use engge.Dialog.States.{
  DialogConditionMode, DialogSelectMode, DialogConditionState, once, show_once, temp_once, mode_is,
}
use engge.Dialog.Player.State.{Player}
use engge.Dialog.Player.Memory.{
  for_actor, is_once, is_show_once, is_temp_once, visit_condition, condition_state, set_state,
  push_state, record_states, all_accepted, accept_conditions,
}
use engge.Dialog.Player.Frame.{
  SameButMemory, SameButMemory-trans, SameButMemory-refl, record_states-SameButMemory,
  visit_condition-SameButMemory,
}
use engge.Dialog.Player.Visit.{Go, run}
use engge.Dialog.Player.Loop.{as_choice, after_run, play, round}
use engge.Dialog.Player.Flow.{choose_statement}
use engge.Dialog.Player.Choices.{choices_ready}

-- The condition is one of the list.
abbrev pub Has : Condition → List Condition → Type 0
Has c [] = ⊥
Has c (d ∷ ds) = (d ≡ c) ⊎ Has c ds

any-append {ℓ} :
    {A : Type ℓ} (p : A → Bool) (xs ys : List A) → any p (xs ++ ys) ≡ (any p xs || any p ys)
any-append p [] ys = refl
any-append p (x ∷ xs) ys = ground (arith, any-append p xs ys)

mode_is_refl : (m : DialogConditionMode) → mode_is m m ≡ true
mode_is_refl once = refl
mode_is_refl _ = refl

-- The condition is of the kind that is remembered under `mode` when `select` asks.
abbrev pub Records : DialogScript → DialogSelectMode → DialogConditionMode → ℕ → Condition → Type 0
Records script select mode line c =
    (p : Player script)
    → condition_state select p c
      ≡ some (record { mode = mode; actor_key = p.actor; dialog = p.dialog_name; line = line })

module _ {script : DialogScript} where
  -- The player remembers the mode at the line, for its actor and its dialog.
  abbrev pub Remembers : DialogConditionMode → ℕ → Player script → Type 0
  Remembers mode line p = any (for_actor mode p line) p.states ≡ true

  push_state-Remembers :
      (mode : DialogConditionMode) (line : ℕ) (s : Option DialogConditionState) (p : Player script)
      → Remembers mode line p
      → Remembers mode line (push_state s p)
  unfolding push_state for_actor
  push_state-Remembers mode line none p h = h
  push_state-Remembers mode line (some s) p h = any-append _ p.states (s ∷ []) ∙ ground arith

  record_states-Remembers :
      (select : DialogSelectMode) (mode : DialogConditionMode) (line : ℕ) (cs : List Condition)
      (p : Player script)
      → Remembers mode line p
      → Remembers mode line (record_states select cs p)
  unfolding record_states
  record_states-Remembers select mode line [] p h = h
  record_states-Remembers select mode line (c ∷ cs) p h =
      record_states-Remembers select mode line cs _ (push_state-Remembers mode line _ p h)

  push_state-Records :
      (mode : DialogConditionMode) (line : ℕ) (p : Player script)
      → Remembers mode line (
          push_state
            (some
              (record { mode = mode; actor_key = p.actor; dialog = p.dialog_name; line = line }))
            p)
  unfolding push_state for_actor
  push_state-Records mode line p =
      any-append _ p.states _
      ∙ ground (arith, mode_is_refl mode, bytes_eq_refl p.actor, bytes_eq_refl p.dialog_name)

  record_states-Records :
      (select : DialogSelectMode) (mode : DialogConditionMode) (line : ℕ) (c : Condition)
      (cs : List Condition) (p : Player script)
      → Records script select mode line c
      → Has c cs
      → Remembers mode line (record_states select cs p)
  unfolding record_states
  record_states-Records select mode line c [] p r h = absurd h
  record_states-Records select mode line c (d ∷ cs) p r (inl e) =
      record_states-Remembers select mode line cs _ (rw (e, r p) (push_state-Records mode line p))
  record_states-Records select mode line c (d ∷ cs) p r (inr h) =
      record_states-Records select mode line c cs _ r h

  -- A condition that is refused whatever the world is.
  abbrev Refuses : Condition → Player script → Type 0
  Refuses c p =
      (q : Player script)
      → SameButMemory p q
      → q.states ≡ p.states
      → (visit_condition c q).0 ≡ false

  visit_condition-states :
      (c : Condition) (p : Player script) → (visit_condition c p).1.states ≡ p.states
  unfolding visit_condition
  visit_condition-states (code_condition line code) p = refl
  visit_condition-states _ p = refl

  all_accepted-refused :
      (c : Condition) (cs : List Condition) (p q : Player script)
      → Refuses c p
      → Has c cs
      → SameButMemory p q
      → q.states ≡ p.states
      → (all_accepted cs q).0 ≡ false
  unfolding all_accepted
  all_accepted-refused c [] p q r h same st = absurd h
  all_accepted-refused c (d ∷ cs) p q r (inl e) same st = rw e (rw (r q same st))
  all_accepted-refused c (d ∷ cs) p q r (inr h) same st =
      elim (Bool-cases (visit_condition d q).0) [
        | inr refused ↦ rw refused
        | inl accepted ↦ rw accepted (
            all_accepted-refused c cs p (visit_condition d q).1 r h
              (SameButMemory-trans same (visit_condition-SameButMemory d q))
              (visit_condition-states d q ∙ st))
      ]

  for_actor-same :
      (mode : DialogConditionMode) (line : ℕ) (p q : Player script)
      → q.actor ≡ p.actor
      → q.dialog_name ≡ p.dialog_name
      → for_actor mode q line ≡ for_actor mode p line
  unfolding for_actor
  for_actor-same mode line p q a d = fun_ext λ s. cc

  Remembers-same :
      (mode : DialogConditionMode) (line : ℕ) (p q : Player script)
      → q.actor ≡ p.actor
      → q.dialog_name ≡ p.dialog_name
      → q.states ≡ p.states
      → Remembers mode line p
      → Remembers mode line q
  Remembers-same mode line p q a d st h = simp (for_actor-same mode line p q a d, st) h

  show_once-Refuses :
      (line : ℕ) (p : Player script)
      → Remembers show_once line p
      → Refuses (show_once_condition line) p
  unfolding visit_condition is_show_once
  show_once-Refuses line p h q same st =
      rw (Remembers-same show_once line p q same.actor same.dialog_name st h)

  temp_once-Refuses :
      (line : ℕ) (p : Player script)
      → Remembers temp_once line p
      → Refuses (temp_once_condition line) p
  unfolding visit_condition is_temp_once
  temp_once-Refuses line p h q same st =
      rw (Remembers-same temp_once line p q same.actor same.dialog_name st h)

  once-Refuses :
      (line : ℕ) (p : Player script) → Remembers once line p → Refuses (once_condition line) p
  unfolding visit_condition is_once
  once-Refuses line p h q same st =
      rw (Remembers-same once line p q same.actor same.dialog_name st h)

  accept_conditions-refused :
      (c : Condition) (st : Statement) (p : Player script)
      → Refuses c p
      → Has c st.conditions
      → (accept_conditions st p).0 ≡ false
  unfolding accept_conditions
  accept_conditions-refused c st p r h =
      rw (all_accepted-refused c st.conditions p p r h (SameButMemory-refl p) refl)

  accept_conditions-Records :
      (mode : DialogConditionMode) (line : ℕ) (c : Condition) (st : Statement) (p : Player script)
      → Records script DialogSelectMode.show mode line c
      → Has c st.conditions
      → (accept_conditions st p).0 ≡ true
      → Remembers mode line (accept_conditions st p).1
  unfolding accept_conditions
  accept_conditions-Records mode line c st p r h e =
      elim (Bool-cases (all_accepted st.conditions p).0) [
        | inl accepted ↦
            rw accepted
              (record_states-Records DialogSelectMode.show mode line c st.conditions _ r h)
        | inr refused ↦ cc (rw refused at e)
      ]

  -- A statement with a condition `showonce` or `temponce` that is accepted is refused the next time.
  pub accept_conditions_twice :
      (line : ℕ) (st : Statement) (p : Player script)
      → Has (show_once_condition line) st.conditions ⊎ Has (temp_once_condition line) st.conditions
      → (accept_conditions st p).0 ≡ true
      → (accept_conditions st (accept_conditions st p).1).0 ≡ false
  unfolding condition_state set_state
  accept_conditions_twice line st p (inl h) e =
      accept_conditions-refused (show_once_condition line) st _
        (show_once-Refuses line _ (
          accept_conditions-Records show_once line (show_once_condition line) st p (λ q. refl) h e))
        h
  accept_conditions_twice line st p (inr h) e =
      accept_conditions-refused (temp_once_condition line) st _
        (temp_once-Refuses line _ (
          accept_conditions-Records temp_once line (temp_once_condition line) st p (λ q. refl) h e))
        h

  -- A statement other than a choice that has a condition `showonce` or `temponce` is never run: where
  -- the loop accepts it, `run` checks the conditions again and refuses it, so the round ends with the
  -- player as the two checks left it, whatever the statement is.
  pub round_shown_once :
      (go : Go script) (count line : ℕ) (st : Statement) (p : Player script)
      → Has (show_once_condition line) st.conditions ⊎ Has (temp_once_condition line) st.conditions
      → (accept_conditions st p).0 ≡ true
      → as_choice st.expression ≡ none
      → choices_ready (accept_conditions st p).1 ≡ false
      → round go count st p ≡ after_run (accept_conditions st (accept_conditions st p).1).1
  unfolding round play run
  round_shown_once go count line st p h e c r =
      rw (round, e, c, r) (rw (run, accept_conditions_twice line st p h e) refl)

  -- Once a choice with a condition `once` is chosen and said, every statement with a condition `once`
  -- on that line is refused.
  pub choose_statement_once :
      (fuel line : ℕ) (st st' : Statement) (p : Player script) {q : Player script}
      → p.parrot_on ≡ true
      → Has (once_condition line) st.conditions
      → Has (once_condition line) st'.conditions
      → choose_statement fuel st p ≡ done q
      → (accept_conditions st' q).0 ≡ false
  unfolding choose_statement
  choose_statement_once fuel line st st' p {q} on h h' e =
      let r = record_states DialogSelectMode.choose st.conditions p in
      let same = record_states-SameButMemory DialogSelectMode.choose st.conditions p in
      let kept =
        record_states-Records DialogSelectMode.choose once line (once_condition line) st.conditions
          p (λ _. unfold condition_state set_state in refl) h in
      elim (Option-cases (as_choice st.expression)) [
        | inl a ↦ cc (rw (a, choose_statement) at e)
        | inr (c, a) ↦
            let e' = rw (a, choose_statement, same.parrot_on ∙ on) at e in
            accept_conditions-refused (once_condition line) st' q
              (once-Refuses line q
                (Remembers-same once line r q (ground arith) (ground arith) (ground arith) kept))
              h'
      ]
