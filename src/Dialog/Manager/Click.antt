-- ===== src/Dialog/Manager/Click.antt =====
-- A click on the choices that are shown.
use engge.Base.{◌≡◌, true, false, none, some, List, ◌∷◌, map}
use engge.Dialog.Ast.{Statement}
use engge.Dialog.Script.{DialogScript}
use engge.Dialog.Player.Flow
use engge.Dialog.Manager.{DialogUi, DialogSlot, DialogManager}

module _ {script : DialogScript} {ui : DialogUi script} where
  open ui use {Line, Mouse, below, contains, on_choice_click, top}

  -- The statement is that of the first slot, of those that are shown, whose text is under the mouse.
  pub data IsHit (mouse : Mouse) (st : Statement) : Line → List (DialogSlot ui) → Type 0 where
    here :
        {y : Line}
        → (slot : DialogSlot ui) → (slots : List (DialogSlot ui)) → slot.choice ≡ some st
        → contains slot.text slot.pos y mouse ≡ true
        → IsHit mouse st y (slot ∷ slots)
    hidden :
        {y : Line}
        → (slot : DialogSlot ui) → (slots : List (DialogSlot ui)) → slot.choice ≡ none
        → IsHit mouse st y slots
        → IsHit mouse st y (slot ∷ slots)
    lower :
        {y : Line}
        → (slot : DialogSlot ui) → (slots : List (DialogSlot ui)) → (other : Statement)
        → slot.choice ≡ some other
        → contains slot.text slot.pos y mouse ≡ false
        → IsHit mouse st (below slot.text slot.pos y) slots
        → IsHit mouse st y (slot ∷ slots)

  -- The slots show the choices of the player.
  abbrev pub InSync : DialogManager ui → Type 0
  InSync m = map (λ s. s.choice) m.slots ≡ m.player.choices
