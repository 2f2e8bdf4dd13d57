-- ===== src/Dialog/Manager.antt =====
-- `DialogManager` (src/Dialog/DialogManager.cpp): the slots that show the choices of the player, and
-- the click on one of them. Texts on the screen, positions and the mouse are parameters.
pub mod Click
pub mod Slots
use engge.Base.{
  ℕ, zero, suc, Bool, true, false, not, ◌||◌, Option, none, some, List, [], ◌∷◌, Bytes, ltb, ◌==◌,
  if◌then◌else◌, length,
}
use engge.Base.Outcome.{Outcome, done, fault, ◌>>=◌}
use engge.Dialog.Ast.{Statement, CompilationUnit}
use engge.Dialog.Script.{DialogScript}
use engge.Dialog.States.{DialogManagerState}
use engge.Dialog.Player.State.{Player}
use engge.Dialog.Player.Loop.{as_choice}
-- The functions of the player keep their names behind the module's.
use engge.Dialog.Player.Flow.{get_state}
use engge.Dialog.Player.Flow

-- What the manager asks of the engine, of ngf and of the standard library: `executeDollar`,
-- `Engine::getText`, the text behind the first braces that the expression finds, the two calls of the
-- script, `float` numbers, and the bounds of a text at a position on a line. `sliding` is the speed
-- times the seconds, and `below` goes on by half of the height.
pub record DialogUi (script : DialogScript) : Type 1 where
  pub Text : Type 0
  pub Float : Type 0
  pub Line : Type 0
  pub Mouse : Type 0
  pub TimeSpan : Type 0
  pub execute_dollar : Bytes → DialogScript.World script → Bytes × DialogScript.World script
  pub get_text : Bytes → Text
  pub past_braces : Text → Text
  pub empty : Text
  pub on_dialog_ended : DialogScript.World script → DialogScript.World script
  pub on_choice_click : DialogScript.World script → DialogScript.World script
  pub zero_float : Float
  pub plus : Float → Float → Float
  pub minus : Float → Float → Float
  pub less : Float → Float → Bool
  pub screen_width : Float
  pub sliding : TimeSpan → Float
  pub width : Text → Float
  pub top : Line
  pub below : Text → Float × Float → Line → Line
  pub contains : Text → Float × Float → Line → Mouse → Bool

-- The enumerators' values, by which `==` compares them.
abbrev manager_state_value : DialogManagerState → ℕ
manager_state_value DialogManagerState.inactive = 0
manager_state_value DialogManagerState.active = 1
manager_state_value DialogManagerState.waiting_for_choice = 2

abbrev pub manager_state_is : DialogManagerState → DialogManagerState → Bool
manager_state_is a b = manager_state_value a == manager_state_value b

pub record DialogSlot {script : DialogScript} (ui : DialogUi script) : Type 0 where
  pub text : DialogUi.Text ui
  pub choice : Option Statement
  pub pos : DialogUi.Float ui × DialogUi.Float ui

pub record DialogManager {script : DialogScript} (ui : DialogUi script) : Type 0 where
  pub player : Player script
  pub state : DialogManagerState
  pub mouse_pos : DialogUi.Mouse ui
  pub slots : List (DialogSlot ui)

-- `!text.empty() && text[0] == '$'`
unfoldable pub dollar_text :
    {script : DialogScript}
    → DialogUi script
    → Bytes
    → DialogScript.World script
    → Bytes × DialogScript.World script
dollar_text ui [] w = ([], w)
dollar_text ui (c ∷ cs) w = if c == 36 then DialogUi.execute_dollar ui cs w else (c ∷ cs, w)

module _ {script : DialogScript} {ui : DialogUi script} where
  open script use {World}
  open ui use {
    Text, Float, Line, Mouse, TimeSpan, get_text, past_braces, on_dialog_ended, on_choice_click,
    zero_float, plus, minus, less, screen_width, sliding, width, top, below, contains,
  }

  -- A slot that shows the choice; one without a choice keeps its text.
  unfoldable pub fill_slot :
      Option Statement → DialogSlot ui → World → Outcome (DialogSlot ui × World)
  unfolding dollar_text
  fill_slot none slot w = done (record slot { choice = none }, w)
  fill_slot (some st) slot w = elim (as_choice st.expression) [
    | none ↦ fault
    | some (number, text, name) ↦
        let (plain, v) = dollar_text ui text w in
        done (
          record {
            text = past_braces (get_text plain);
            choice = some st;
            pos = (zero_float, zero_float);
          },
          v,
        )
  ]

  -- The loop of `updateDialogSlots`.
  unfoldable pub fill_slots :
      List (Option Statement)
      → List (DialogSlot ui)
      → World
      → Outcome (List (DialogSlot ui) × World)
  unfolding fill_slot
  fill_slots [] slots w = done (slots, w)
  fill_slots (c ∷ cs) [] w = fault
  fill_slots (c ∷ cs) (slot ∷ slots) w = fill_slot c slot w >>= λ (filled, v).
      fill_slots cs slots v >>= λ (rest, u). done (filled ∷ rest, u)

  unfoldable pub update_dialog_slots : DialogManager ui → Outcome (DialogManager ui)
  unfolding fill_slots
  update_dialog_slots m = fill_slots m.player.choices m.slots m.player.world >>= λ (slots, w).
      done (record m { slots = slots; player = record m.player { world = w } })

  unfoldable pub on_ended : DialogManager ui → DialogManager ui
  on_ended m = record m { player = record m.player { world = on_dialog_ended m.player.world } }

  -- `start`, once the player has started.
  unfoldable pub after_start : DialogManager ui → DialogManagerState → Outcome (DialogManager ui)
  unfolding update_dialog_slots on_ended
  after_start m old = if manager_state_is old m.state then done m else elim m.state [
    | DialogManagerState.waiting_for_choice ↦ update_dialog_slots m
    | DialogManagerState.inactive ↦ done (on_ended m)
    | DialogManagerState.active ↦ done m
  ]

  unfoldable pub start :
      ℕ
      → (Bytes → Outcome CompilationUnit)
      → Bytes
      → Bytes
      → Bytes
      → DialogManager ui
      → Outcome (DialogManager ui)
  unfolding after_start
  start fuel load actor name node m = Flow.start fuel load actor name node m.player >>= λ p.
      after_start (record m { player = p; state = get_state p }) m.state

  -- How a text wider than the screen slides: on while the mouse is on it, until its end shows, and
  -- back to its start when it is not.
  unfoldable pub slide : Mouse → TimeSpan → Line → DialogSlot ui → Float × Float
  slide mouse elapsed y slot =
      let (x, dy) = slot.pos in
      let left = minus x (sliding elapsed) in
      let right = plus x (sliding elapsed) in
      if not (less screen_width (width slot.text))
      then (x, dy)
      else if contains slot.text slot.pos y mouse
      then if less screen_width (plus (width slot.text) x)
        then (
          if less (plus (width slot.text) left) screen_width
              then minus screen_width (width slot.text)
              else left,
          dy,
        )
        else (x, dy)
      else if less x zero_float
      then (if less zero_float right then zero_float else right, dy)
      else (x, dy)

  -- The first loop of `updateChoices`: the texts that are shown slide.
  unfoldable pub slide_slots : Mouse → TimeSpan → Line → List (DialogSlot ui) → List (DialogSlot ui)
  unfolding slide
  slide_slots mouse elapsed y [] = []
  slide_slots mouse elapsed y (slot ∷ slots) = elim slot.choice [
    | none ↦ slot ∷ slide_slots mouse elapsed y slots
    | some st ↦
        record slot { pos = slide mouse elapsed y slot }
        ∷ slide_slots mouse elapsed (below slot.text slot.pos y) slots
  ]

  -- The second: the number of the first text under the mouse, of those that are shown.
  unfoldable pub find_slot : Mouse → ℕ → Line → List (DialogSlot ui) → Option ℕ
  find_slot mouse dialog y [] = none
  find_slot mouse dialog y (slot ∷ slots) = elim slot.choice [
    | none ↦ find_slot mouse dialog y slots
    | some st ↦
        let rest = find_slot mouse (suc dialog) (below slot.text slot.pos y) slots in
        if contains slot.text slot.pos y mouse then some dialog else rest
  ]

  unfoldable pub choose : ℕ → ℕ → DialogManager ui → Outcome (DialogManager ui)
  choose fuel choice m =
      let clicked = record m.player { world = on_choice_click m.player.world } in
      let chosen = Flow.choose fuel choice clicked in
      if ltb choice 1 || ltb (length m.slots) choice
      then done m
      else chosen >>= λ p. done (record m { player = p })

  -- The click of `updateChoices`.
  unfoldable pub click : ℕ → DialogManager ui → Outcome (DialogManager ui)
  unfolding find_slot choose
  click fuel m = elim (find_slot m.mouse_pos 0 top m.slots) [
    | none ↦ done m
    | some dialog ↦ choose fuel (suc dialog) m
  ]

  unfoldable pub update_choices :
      ℕ → TimeSpan → Bool → DialogManager ui → Outcome (DialogManager ui)
  unfolding slide_slots click
  update_choices fuel elapsed pressed m =
      let slid = record m { slots = slide_slots m.mouse_pos elapsed top m.slots } in
      let clicked = click fuel slid in
      if not (manager_state_is m.state DialogManagerState.waiting_for_choice)
      then done m
      else if pressed
      then clicked
      else done slid

  -- `update`, once the player is updated.
  unfoldable pub after_update : DialogManager ui → DialogManagerState → Outcome (DialogManager ui)
  unfolding update_dialog_slots
  after_update m old =
      let filled = update_dialog_slots m in
      if manager_state_is old m.state
      then done m
      else if manager_state_is m.state DialogManagerState.waiting_for_choice
      then filled
      else done m

  unfoldable pub update : ℕ → TimeSpan → Bool → DialogManager ui → Outcome (DialogManager ui)
  unfolding after_update update_choices
  update fuel elapsed pressed m = Flow.update fuel m.player >>= λ p.
      after_update (record m { player = p; state = get_state p }) m.state
      >>= update_choices fuel elapsed pressed
