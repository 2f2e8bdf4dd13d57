-- ===== src/Dialog/Player/Choices.antt =====
-- The nine choice slots of `DialogPlayer`: `addChoice`, `clearChoices`, `choicesReady`.
use engge.Base.{
  ℕ, zero, suc, Bool, true, false, Option, none, some, List, [], ◌∷◌, ltb, leb, if◌then◌else◌,
  get_elem?, set, any,
}
use engge.Base.Outcome.{Outcome, done, fault}
use engge.Dialog.Ast.{ℤ, pos, negsuc, Statement}
use engge.Dialog.Script.{DialogScript}
use engge.Dialog.Player.State.{Player, no_choices}

-- A slot whose pointer is not null.
abbrev pub is_set : Option Statement → Bool
is_set none = false
is_set (some st) = true

-- `for (auto &_choice : _choices) if (_choice) count++;`
unfoldable pub count_set : List (Option Statement) → ℕ
count_set [] = 0
count_set (none ∷ cs) = count_set cs
count_set (some st ∷ cs) = suc (count_set cs)

-- `count >= _limit`
abbrev pub reaches : ℕ → ℤ → Bool
reaches count (pos limit) = leb limit count
reaches count (negsuc n) = true

-- `number - 1` as an index into the array; `none` is out of its bounds.
unfoldable pub slot_of : ℤ → Option ℕ
slot_of (pos zero) = none
slot_of (pos (suc i)) = if ltb i 9 then some i else none
slot_of (negsuc n) = none

module _ {script : DialogScript} where
  abbrev pub choices_ready : Player script → Bool
  choices_ready p = any is_set p.choices

  unfoldable pub clear_choices : Player script → Player script
  clear_choices p = record p { choices = no_choices }

  -- The slot holds `old`.
  unfoldable pub add_choice_at : ℕ → Option Statement → Statement → Player script → Player script
  unfolding count_set
  add_choice_at i (some old) st p = p
  add_choice_at i none st p =
      if reaches (count_set p.choices) p.choice_limit
      then p
      else record p { choices = set p.choices i (some st) }

  unfoldable pub add_choice : Statement → ℤ → Player script → Outcome (Player script)
  unfolding slot_of add_choice_at
  add_choice st number p = elim (slot_of number) [
    | none ↦ fault
    | some i ↦ elim (get_elem? p.choices i) [
      | none ↦ fault
      | some old ↦ done (add_choice_at i old st p)
    ]
  ]
