-- ===== src/Engine/Cutscene.antt =====
-- `Cutscene` (include/engge/Engine/Cutscene.hpp, src/Engine/Cutscene.cpp): its state machine. What it
-- asks of the engine, of the scripts and of the threads of others is the list of its events, in order.
pub mod Ends
pub mod Input
use engge.Base.{
  ℕ, zero, suc, ◌+◌, Bool, true, false, ◌&&◌, List, [], ◌∷◌, ◌++◌, ◌==◌, if◌then◌else◌,
}
use engge.Engine.ThreadBase.{
  Squirrel, ThreadBase, new_thread, stop, is_stopped, suspend, pause, resume,
}

pub data Event : Type 0 where
  set_input_active : Bool → Event
  set_input_verbs : Bool → Event
  set_input_state : ℕ → Event
  follow_current_actor call_on_cutscene_ended resume_thread_of_vm stop_thread_of_id : Event

pub record Cutscene (machine : Squirrel) : Type 0 where
  pub thread : ThreadBase machine
  pub state : ℕ
  pub input_state : ℕ
  pub has_cutscene_override : Bool

module _ {machine : Squirrel} where
  -- A cutscene as it is constructed, when the input of the engine is in `input_state`.
  unfoldable pub new_cutscene : Squirrel.Vm machine → ℕ → Bool → Cutscene machine × List Event
  new_cutscene vm input_state has_override = (
    record {
      thread = new_thread vm;
      state = 0;
      input_state = input_state;
      has_cutscene_override = has_override;
    },
    set_input_active false ∷ set_input_verbs false ∷ [],
  )

  unfoldable pub is_elapsed : Cutscene machine → Bool
  is_elapsed c = c.state == 5

  unfoldable pub cutscene_override : Cutscene machine → Cutscene machine
  cutscene_override c =
      if c.has_cutscene_override && c.state == 1 then record c { state = 2 } else c

  unfoldable pub start_cutscene : Cutscene machine → Cutscene machine
  start_cutscene c = record c {
    state = 1;
    thread = record c.thread { vm = Squirrel.call_closure machine c.thread.vm };
  }

  -- `checkEndCutscene` and `checkEndCutsceneOverride`.
  unfoldable pub check_end : Cutscene machine → Cutscene machine
  check_end c = if is_stopped c.thread then record c { state = 4 } else c

  unfoldable pub do_cutscene_override : Cutscene machine → Cutscene machine
  do_cutscene_override c =
      if c.has_cutscene_override
      then record c {
        state = 3;
        thread = record c.thread { vm = Squirrel.call_override machine c.thread.vm };
      }
      else record c { state = 4 }

  unfoldable pub end_events : Cutscene machine → List Event
  end_events c =
      set_input_state c.input_state
      ∷ follow_current_actor
      ∷ call_on_cutscene_ended
      ∷ resume_thread_of_vm
      ∷ stop_thread_of_id
      ∷ []

  -- `operator()`
  unfoldable pub tick : Cutscene machine → Cutscene machine × List Event
  unfolding start_cutscene check_end do_cutscene_override end_events
  tick c =
      if c.state == 0
      then (start_cutscene c, [])
      else if c.state == 1
      then (check_end c, [])
      else if c.state == 2
      then (do_cutscene_override c, [])
      else if c.state == 3
      then (check_end c, [])
      else if c.state == 4
      then (record c { state = 5 }, end_events c)
      else (c, [])
