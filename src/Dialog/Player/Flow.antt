-- ===== src/Dialog/Player/Flow.antt =====
-- `DialogPlayer::selectLabel`, `update`, `start`, `choose` and `getState`. `select_label` calls
-- itself through `running` and the visitor of `Goto`: its fuel bounds how deep, and what stands
-- between takes the inner call as `go`.
use engge.Base.{
  ℕ, zero, suc, Bool, true, not, Option, none, some, List, [], ◌∷◌, ◌++◌, Bytes, bytes_eq, ◌==◌,
  if◌then◌else◌, codes,
}
use engge.Base.Outcome.{Outcome, done, fault, unfinished, ◌>>=◌}
use engge.Dialog.Ast.{Statement, Label, CompilationUnit}
use engge.Dialog.Script.{DialogScript}
use engge.Dialog.States.{DialogManagerState, DialogPlayerState, DialogSelectMode, state_is}
use engge.Dialog.Player.State.{Player}
use engge.Dialog.Player.Memory.{record_states, reset_state}
use engge.Dialog.Player.Visit.{Go}
use engge.Dialog.Player.Loop.{as_choice, running}
use engge.Dialog.Player.Choices.{clear_choices}

-- `find_if` from the back of the labels.
unfoldable pub find_last : Bytes → List Label → Option ℕ
find_last name [] = none
find_last name (l ∷ ls) = elim (find_last name ls) [
  | some i ↦ some (suc i)
  | none ↦ if bytes_eq l.name name then some 0 else none
]

-- The statement of the `n`-th slot that is set, counted from 1 as `choose` does; `i` is the count.
unfoldable pub nth_choice : ℕ → ℕ → List (Option Statement) → Option Statement
nth_choice n i [] = none
nth_choice n i (none ∷ cs) = nth_choice n i cs
nth_choice n i (some st ∷ cs) = if i == n then some st else nth_choice n (suc i) cs

module _ {script : DialogScript} where
  open script use {World, Action, call}

  -- `!_pWaitAction || _pWaitAction()`
  unfoldable pub poll : Player script → Bool × Player script
  poll p = elim p.wait_action [
    | none ↦ (true, p)
    | some a ↦ let (over, w) = call a p.world in (over, record p { world = w })
  ]

  unfoldable pub update_in : Go script → DialogPlayerState → Player script → Outcome (Player script)
  unfolding poll
  update_in go DialogPlayerState.inactive p = done p
  update_in go DialogPlayerState.start p = running go p
  update_in go DialogPlayerState.running p = running go p
  update_in go DialogPlayerState.waiting_for_choice p = done p
  update_in go DialogPlayerState.waiting_for_saying_choice p =
      let (over, q) = poll p in
      if over then go q.next_label (record q { wait_action = none }) else done q
  update_in go DialogPlayerState.waiting_end_animation p =
      let (over, q) = poll p in
      if over
      then done (record q {
        wait_action = none;
        current_statement = suc q.current_statement;
        state = DialogPlayerState.running;
      })
      else done q

  -- `selectLabel`, once the label was looked for.
  unfoldable pub select_found : Go script → Option ℕ → Player script → Outcome (Player script)
  select_found go none p = done (record (clear_choices p) {
    label = none;
    current_statement = 0;
    state = DialogPlayerState.inactive;
  })
  select_found go (some i) p = update_in go DialogPlayerState.start (record (clear_choices p) {
    label = some i;
    current_statement = 0;
    state = DialogPlayerState.start;
  })

  unfoldable pub select_label : ℕ → Go script
  select_label zero name p = unfinished
  select_label (suc fuel) name p = elim p.compilation_unit [
    | none ↦ fault
    | some u ↦ select_found (select_label fuel) (find_last name u.labels) p
  ]

  unfoldable pub update : ℕ → Player script → Outcome (Player script)
  update fuel p = update_in (select_label fuel) p.state p

  -- `start`. What the parser makes of the file is `load`.
  unfoldable pub start :
      ℕ
      → (Bytes → Outcome CompilationUnit)
      → Bytes
      → Bytes
      → Bytes
      → Player script
      → Outcome (Player script)
  start fuel load actor name node p = load (name ++ codes ".byack") >>= λ u.
      select_label fuel node
        (record (reset_state p) { actor = actor; dialog_name = name; compilation_unit = some u })

  -- The choice is found: its conditions are remembered, and its label or its text comes next.
  unfoldable pub choose_statement : ℕ → Statement → Player script → Outcome (Player script)
  choose_statement fuel st p =
      let q = record_states DialogSelectMode.choose st.conditions p in
      elim (as_choice st.expression) [
        | none ↦ fault
        | some (number, text, name) ↦
            let (a, w) = DialogScript.say script q.actor text q.world in
            let said = record q {
              state = DialogPlayerState.waiting_for_saying_choice;
              wait_action = some a;
              next_label = name;
              world = w;
            } in
            let gone = select_label fuel name q in if q.parrot_on then done said else gone
      ]

  unfoldable pub choose : ℕ → ℕ → Player script → Outcome (Player script)
  unfolding nth_choice
  choose fuel choice_id p =
      if not (state_is p.state DialogPlayerState.waiting_for_choice)
      then done p
      else elim (nth_choice choice_id 1 p.choices) [
        | none ↦ done p
        | some st ↦ choose_statement fuel st p
      ]

  unfoldable pub get_state : Player script → DialogManagerState
  get_state p = elim p.state [
    | DialogPlayerState.inactive ↦ DialogManagerState.inactive
    | DialogPlayerState.waiting_for_choice ↦ DialogManagerState.waiting_for_choice
    | _ ↦ DialogManagerState.active
  ]
