-- ===== src/Examples/Scripts.antt =====
-- A small dialog, the world that it is played in, and the test data of the witnesses.
use engge.Base.{ℕ, suc, ◌+◌, true, none, some, [], ◌∷◌, codes, Bytes, bytes_eq, leb, if◌then◌else◌}
use engge.Base.Outcome.{Outcome, done, fault}
use engge.Dialog.Ast.{
  pos, choice, goto, say, once_condition, show_once_condition, Statement, CompilationUnit,
}
use engge.Dialog.Script.{DialogScript}
use engge.Dialog.States.{DialogPlayerState}
use engge.Dialog.Player.State.{Player, new}
use engge.Parsers.Tokens.{YackTokenReader}

-- The world is a clock, and an action is over from its time on. Each look at it takes a tick.
abbrev pub clock : DialogScript
clock = record {
  World = ℕ;
  Action = ℕ;
  call = λ a w. (leb a w, suc w);
  pause = λ time w. (w + 2, w);
  say = λ actor text w. (w + 3, w);
  shutup = λ w. w;
  wait_for = λ actor w. (w + 1, w);
  wait_while = λ condition w. (w + 1, w);
  execute = λ text w. suc w;
  execute_condition = λ text w. (true, suc w);
}

abbrev pub hello : Statement
hello = record { expression = some (say (codes "ray") (codes "Hi")); conditions = [] }

abbrev pub hello_once : Statement
hello_once = record {
  expression = some (say (codes "ray") (codes "Hi"));
  conditions = show_once_condition 3 ∷ [];
}

abbrev pub answer : Statement
answer = record {
  expression = some (choice (pos 1) (codes "Yes") (codes "bye"));
  conditions = once_condition 4 ∷ [];
}

abbrev pub to_bye : Statement
to_bye = record { expression = some (goto (codes "bye")); conditions = [] }

abbrev pub talk : CompilationUnit
talk = record {
  labels =
      record { name = codes "main"; statements = hello ∷ hello_once ∷ answer ∷ [] }
      ∷ record { name = codes "bye"; statements = to_bye ∷ [] }
      ∷ record { name = codes "bye"; statements = hello ∷ [] }
      ∷ [];
}

-- The file of the dialog.
abbrev pub load_talk : Bytes → Outcome CompilationUnit
load_talk name = if bytes_eq name (codes "talk.byack") then done talk else fault

abbrev pub fresh : Player clock
fresh = new clock 0

abbrev pub loaded : Player clock
loaded = record fresh {
  actor = codes "ray";
  dialog_name = codes "talk";
  compilation_unit = some talk;
}

abbrev pub waiting : Player clock
waiting = record loaded {
  label = some 0;
  state = DialogPlayerState.waiting_end_animation;
  wait_action = some 3;
}

abbrev pub reader_of : Bytes → YackTokenReader
reader_of input = record {
  stream = record { input = input; offset = 0 };
  lines = [];
  offset = none;
}
