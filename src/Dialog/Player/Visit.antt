-- ===== src/Dialog/Player/Visit.antt =====
-- `ExpressionVisitor`, the methods of `DialogPlayer` that it calls, and `DialogPlayer::run`.
use engge.Base.{true, false, Option, none, some, Bytes}
use engge.Base.Outcome.{Outcome, done, fault, ◌>>=◌}
use engge.Dialog.Ast.{
  Expression, goto, code, choice, say, pause, parrot, dialog, override, shutup, allow_objects,
  limit, wait_while, wait_for, Statement,
}
use engge.Dialog.Script.{DialogScript}
use engge.Dialog.States.{DialogPlayerState}
use engge.Dialog.Player.State.{Player}
use engge.Dialog.Player.Memory.{accept_conditions}

-- The call of `selectLabel` that a function further in may make.
abbrev pub Go : DialogScript → Type 0
Go script = Bytes → Player script → Outcome (Player script)

module _ {script : DialogScript} where
  open script use {World, Action, execute}

  -- The action of a statement that is to be waited for, and the world after it was asked for.
  abbrev waiting : Action × World → Player script → Outcome (Option Action × Player script)
  waiting (a, w) p = done (some a, record p { world = w })

  -- `ExpressionVisitor` and the methods of the player that it calls. A choice is not visited.
  unfoldable pub visit :
      Go script → Expression → Player script → Outcome (Option Action × Player script)
  visit go (say actor text) p = waiting (DialogScript.say script actor text p.world) p
  visit go (code text) p = done (none, record p { world = execute text p.world })
  visit go (goto name) p = go name p >>= λ q. done (none, q)
  visit go shutup p = done (none, record p { world = DialogScript.shutup script p.world })
  visit go (pause time) p = waiting (DialogScript.pause script time p.world) p
  visit go (wait_for actor) p = waiting (DialogScript.wait_for script actor p.world) p
  visit go (parrot active) p = done (none, record p { parrot_on = active })
  visit go (dialog actor) p = done (none, record p { actor = actor })
  visit go (override node) p = done (none, record p { override_label = node })
  visit go (allow_objects allow) p = done (none, record p { objects_allowed = allow })
  visit go (wait_while condition) p = waiting (DialogScript.wait_while script condition p.world) p
  visit go (limit max) p = done (none, record p { choice_limit = max })
  visit go (choice number text name) p = done (none, p)

  -- `_pWaitAction = visitor.getWaitAction()`, and the state of the player if there is one.
  unfoldable pub after_visit : Option Action × Player script → Player script
  after_visit (none, p) = record p { wait_action = none }
  after_visit (some a, p) = record p {
    wait_action = some a;
    state = DialogPlayerState.waiting_end_animation;
  }

  -- The statement is accepted; its expression may be missing.
  unfoldable pub run_expression :
      Go script → Option Expression → Player script → Outcome (Player script)
  unfolding after_visit
  run_expression go none p = fault
  run_expression go (some e) p = visit go e p >>= λ r. done (after_visit r)

  unfoldable pub run : Go script → Statement → Player script → Outcome (Player script)
  run go st p =
      let (accepted, q) = accept_conditions st p in
      elim accepted [ false ↦ done q | true ↦ run_expression go st.expression q ]
