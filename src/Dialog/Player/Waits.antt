-- ===== src/Dialog/Player/Waits.antt =====
-- The action that the player waits for: `update`, and `run` of a `Goto`.
use engge.Base.{ℕ, suc, ◌≡◌, refl, true, Option, none, some, Bytes, if◌then◌else◌, arith}
use engge.Base.Outcome.{done}
use engge.Dialog.Ast.{Expression, goto, Statement}
use engge.Dialog.Script.{DialogScript}
use engge.Dialog.States.{DialogPlayerState}
use engge.Dialog.Player.State.{Player}
use engge.Dialog.Player.Memory.{accept_conditions}
use engge.Dialog.Player.Visit.{Go, visit, run_expression, run}
use engge.Dialog.Player.Flow.{poll, update_in, update}

module _ {script : DialogScript} where
  open script use {Action, call}

  -- While the action says that it is not over, an update changes nothing but the world. When it says
  -- so, the player goes on with the next statement.
  pub update_waiting :
      (fuel : ℕ) (p : Player script) (a : Action)
      → p.state ≡ DialogPlayerState.waiting_end_animation
      → p.wait_action ≡ some a
      → update fuel p
        ≡ done (
            if (call a p.world).0
            then record p {
              world = (call a p.world).1;
              wait_action = none;
              current_statement = suc p.current_statement;
              state = DialogPlayerState.running;
            }
            else record p { world = (call a p.world).1 })
  unfolding update update_in poll
  update_waiting fuel p a s e = ground arith

  run_expression-goto :
      (go : Go script) (e : Option Expression) (name : Bytes) (p : Player script)
      {q : Player script}
      → e ≡ some (goto name)
      → go name p ≡ done q
      → run_expression go e p ≡ done (record q { wait_action = none })
  unfolding run_expression visit
  run_expression-goto go e name p k g = rw (k, run_expression, visit, g) refl

  -- A `Goto` that is run drops the action that the label it leads to waits for: whatever the call of
  -- `selectLabel` came back with, `run` clears the action. If the player came back waiting for the end
  -- of an animation, the next update does not wait: it goes on with the next statement at once, and
  -- the world stays as it is.
  pub run_goto_drops_action :
      (go : Go script) (fuel : ℕ) (st : Statement) (name : Bytes) (p q : Player script)
      → st.expression ≡ some (goto name)
      → (accept_conditions st p).0 ≡ true
      → go name (accept_conditions st p).1 ≡ done q
      → q.state ≡ DialogPlayerState.waiting_end_animation
      → (run go st p ≡ done (record q { wait_action = none }))
        × (update fuel (record q { wait_action = none })
            ≡ done (record q {
              wait_action = none;
              current_statement = suc q.current_statement;
              state = DialogPlayerState.running;
            }))
  unfolding run run_expression visit update update_in poll
  run_goto_drops_action go fuel st name p q e a g s =
      (rw (run, a) (run_expression-goto go st.expression name _ e g), ground arith)
