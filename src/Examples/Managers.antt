-- ===== src/Examples/Managers.antt =====
-- The theorems on the dialog manager at the small dialog, on a screen of one column of texts.
use engge.Base.{ℕ, suc, ◌+◌, ◌-◌, refl, false, none, some, List, [], ◌∷◌, Bytes, ltb, ◌==◌, arith}
use engge.Base.Outcome.{Returns}
use engge.Dialog.States.{DialogManagerState, DialogPlayerState}
use engge.Dialog.Player.State.{new}
use engge.Dialog.Player.Calls.{IsReady}
use engge.Dialog.Manager.{DialogUi, DialogSlot, DialogManager, update}
use engge.Dialog.Manager.Slots.{IsShown, update-IsShown}
use engge.Examples.Scripts.{clock, answer, talk, fresh, loaded, waiting}
use engge.Examples.Witnesses.{talk-IsPlayable, talk-IsForward}

-- A text takes ten units of its line, and is as wide as it has letters.
abbrev column : DialogUi clock
column = record {
  Text = Bytes;
  Float = ℕ;
  Line = ℕ;
  Mouse = ℕ;
  TimeSpan = ℕ;
  execute_dollar = λ text w. (text, suc w);
  get_text = λ text. text;
  past_braces = λ text. text;
  empty = [];
  on_dialog_ended = λ w. suc w;
  on_choice_click = λ w. suc w;
  zero_float = 0;
  plus = λ a b. a + b;
  minus = λ a b. a - b;
  less = ltb;
  screen_width = 320;
  sliding = λ e. e;
  width = λ text. 2;
  top = 100;
  below = λ text pos line. line + 10;
  contains = λ text pos line mouse. line == mouse;
}

abbrev empty_slot : DialogSlot column
empty_slot = record { text = []; choice = none; pos = (0, 0) }

abbrev nine_slots : List (DialogSlot column)
nine_slots =
    empty_slot ∷ empty_slot ∷ empty_slot ∷ empty_slot ∷ empty_slot ∷ empty_slot ∷ empty_slot
    ∷ empty_slot ∷ empty_slot ∷ []

abbrev resting : DialogManager column
resting = record {
  player = fresh;
  state = DialogManagerState.inactive;
  mouse_pos = 100;
  slots = nine_slots;
}

waiting-IsReady : IsReady talk waiting
unfolding new
waiting-IsReady = record {
  wf = record {
    has_unit = refl;
    nine = refl;
    held = (tt, (tt, (tt, (tt, (tt, (tt, (tt, (tt, (tt, tt)))))))));
    in_range = omega arith;
  };
  offers = λ e. cc;
}

update-IsShown_example :
    Returns
      (IsShown talk)
      (update 9 1 false (record resting { player = waiting; state = DialogManagerState.active }))
update-IsShown_example =
    update-IsShown 9 talk-IsPlayable talk-IsForward (omega arith) 1
      (record resting { player = waiting; state = DialogManagerState.active })
      (record { ready = waiting-IsReady; nine = refl }) (λ e. cc)

-- The second slot shows the choice.
abbrev offering : DialogManager column
offering = record {
  player = record loaded {
    state = DialogPlayerState.waiting_for_choice;
    choices = none ∷ some answer ∷ none ∷ [];
  };
  state = DialogManagerState.waiting_for_choice;
  mouse_pos = 100;
  slots = empty_slot ∷ record empty_slot { choice = some answer } ∷ empty_slot ∷ [];
}
