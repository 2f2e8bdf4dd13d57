-- ===== src/Dialog/Player/Loop.antt =====
-- `DialogPlayer::running`, with its loop cut into rounds, and `gotoNextLabel`.
use engge.Base.{
  ℕ, zero, suc, true, false, ◌&&◌, Option, none, some, List, Bytes, ltb, ◌==◌, if◌then◌else◌,
  length, get_elem?,
}
use engge.Base.Outcome.{Outcome, done, fault, unfinished, ◌>>=◌}
use engge.Dialog.Ast.{ℤ, Expression, choice, Statement, CompilationUnit}
use engge.Dialog.Script.{DialogScript}
use engge.Dialog.States.{DialogPlayerState, state_is}
use engge.Dialog.Player.State.{Player}
use engge.Dialog.Player.Memory.{accept_conditions}
use engge.Dialog.Player.Visit.{Go, run}
use engge.Dialog.Player.Choices.{choices_ready, add_choice}

-- `dynamic_cast<Ast::Choice *>`: the number, text and label of a choice.
unfoldable pub as_choice : Option Expression → Option (ℤ × Bytes × Bytes)
as_choice (some (choice number text name)) = some (number, text, name)
as_choice e = none

-- What a round of the loop in `running` does: go on with a new `count`, or return.
pub data Round (script : DialogScript) : Type 0 where
  again : ℕ → Player script → Round script
  leave : Player script → Round script

module _ {script : DialogScript} where
  unfoldable pub end_dialog : Player script → Player script
  end_dialog p = record p { state = DialogPlayerState.inactive; label = none }

  -- The label behind the one at `i`.
  unfoldable pub goto_label_after :
      Go script → ℕ → CompilationUnit → Player script → Outcome (Player script)
  unfolding end_dialog
  goto_label_after go i u p = elim (get_elem? u.labels (suc i)) [
    | none ↦ done (end_dialog p)
    | some l ↦ go l.name p
  ]

  unfoldable pub goto_next_label : Go script → Player script → Outcome (Player script)
  unfolding end_dialog
  goto_next_label go p = elim p.compilation_unit [
    | none ↦ done (end_dialog p)
    | some u ↦ elim p.label [ none ↦ done (end_dialog p) | some i ↦ goto_label_after go i u p ]
  ]

  -- The statements of `_pLabel`; `none` is a pointer to no label of the unit.
  unfoldable pub statements_of : Player script → Option (List Statement)
  statements_of p = elim p.compilation_unit [
    | none ↦ none
    | some u ↦ elim p.label [
      | none ↦ none
      | some i ↦ elim (get_elem? u.labels i) [ none ↦ none | some l ↦ some l.statements ]
    ]
  ]

  abbrev pub next_statement : Player script → Player script
  next_statement p = record p { current_statement = suc p.current_statement }

  -- `_pLabel ? static_cast<int>(_pLabel->statements.size()) : 0`
  unfoldable pub statement_count : Player script → Outcome ℕ
  statement_count p = elim p.label [
    | none ↦ done 0
    | some i ↦ elim (statements_of p) [ none ↦ fault | some ss ↦ done (length ss) ]
  ]

  -- The end of a round, behind the call of `run`.
  unfoldable pub end_round : ℕ → Player script → Round script
  end_round count p =
      if state_is p.state DialogPlayerState.waiting_end_animation
      then again count p
      else again count (next_statement p)

  unfoldable pub after_run : Player script → Outcome (Round script)
  unfolding end_round
  after_run p = statement_count p >>= λ count. done (end_round count p)

  -- The statement is no choice.
  unfoldable pub play : Go script → Statement → Player script → Outcome (Round script)
  play go st p =
      if choices_ready p
      then done (leave (record p { state = DialogPlayerState.waiting_for_choice }))
      else run go st p >>= after_run

  -- The body of the loop in `running`, at the statement `st`.
  unfoldable pub round : Go script → ℕ → Statement → Player script → Outcome (Round script)
  round go count st p =
      let (accepted, q) = accept_conditions st p in
      elim accepted [
        | false ↦ done (again count (next_statement q))
        | true ↦ elim (as_choice st.expression) [
          | some (number, _, _) ↦
              add_choice st number q >>= λ r. done (again count (next_statement r))
          | none ↦ play go st q
        ]
      ]

  -- `_pLabel->statements.at(_currentStatement)`
  unfoldable pub statement_at : Player script → Option Statement
  statement_at p = elim (statements_of p) [
    | none ↦ none
    | some ss ↦ get_elem? ss p.current_statement
  ]

  -- Behind the loop.
  unfoldable pub after_loop : Go script → Player script → Outcome (Player script)
  after_loop go p =
      if choices_ready p
      then done (record p { state = DialogPlayerState.waiting_for_choice })
      else if state_is p.state DialogPlayerState.running
      then goto_next_label go p
      else done p

  -- The next round, or the return.
  unfoldable pub follow :
      (ℕ → Player script → Outcome (Player script)) → Round script → Outcome (Player script)
  follow next (again count p) = next count p
  follow next (leave p) = done p

  unfoldable pub loop : Go script → ℕ → ℕ → Player script → Outcome (Player script)
  loop go zero count p = unfinished
  loop go (suc fuel) count p =
      elim (ltb p.current_statement count && state_is p.state DialogPlayerState.running) [
        | false ↦ after_loop go p
        | true ↦ elim (statement_at p) [
          | none ↦ fault
          | some st ↦ round go count st p >>= follow (loop go fuel)
        ]
      ]

  -- The fuel of the loop is a round for each statement, one for the test that ends it, and one more.
  unfoldable pub running_label :
      Go script → List Statement → Player script → Outcome (Player script)
  running_label go ss p =
      if p.current_statement == length ss
      then goto_next_label go p
      else loop go (suc (suc (length ss))) (length ss)
          (record p { state = DialogPlayerState.running })

  unfoldable pub running : Go script → Player script → Outcome (Player script)
  running go p = elim p.label [
    | none ↦ done (record p { state = DialogPlayerState.inactive })
    | some i ↦ elim (statements_of p) [ none ↦ fault | some ss ↦ running_label go ss p ]
  ]
