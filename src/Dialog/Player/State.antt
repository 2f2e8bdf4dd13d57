-- ===== src/Dialog/Player/State.antt =====
-- The members of `DialogPlayer` (include/engge/Dialog/DialogPlayer.hpp). A pointer into the
-- compilation unit is an index (`_pLabel`) or the statement that it points to (`_choices`). The
-- world of the script is one more field.
use engge.Base.{ℕ, zero, Bool, true, false, Option, none, List, [], ◌∷◌, Bytes}
use engge.Dialog.Ast.{ℤ, pos, Statement, CompilationUnit}
use engge.Dialog.Script.{DialogScript}
use engge.Dialog.States.{DialogPlayerState, DialogConditionState}

pub record Player (script : DialogScript) : Type 0 where
  pub dialog_name : Bytes
  pub compilation_unit : Option CompilationUnit
  pub choices : List (Option Statement)
  pub label : Option ℕ
  pub current_statement : ℕ
  pub state : DialogPlayerState
  pub actor : Bytes
  pub parrot_on : Bool
  pub objects_allowed : Bool
  pub choice_limit : ℤ
  pub override_label : Bytes
  pub wait_action : Option (DialogScript.Action script)
  pub states : List DialogConditionState
  pub next_label : Bytes
  pub world : DialogScript.World script

-- `std::array<const Ast::Statement *, 9>`, all null.
abbrev pub no_choices : List (Option Statement)
no_choices = none ∷ none ∷ none ∷ none ∷ none ∷ none ∷ none ∷ none ∷ none ∷ []

-- A player as it is constructed.
unfoldable pub new : (script : DialogScript) → DialogScript.World script → Player script
new script world = record {
  dialog_name = [];
  compilation_unit = none;
  choices = no_choices;
  label = none;
  current_statement = zero;
  state = DialogPlayerState.inactive;
  actor = [];
  parrot_on = true;
  objects_allowed = false;
  choice_limit = pos 6;
  override_label = [];
  wait_action = none;
  states = [];
  next_label = [];
  world = world;
}
