-- ===== src/Engine/ThreadBase.antt =====
-- `ThreadBase` (include/engge/Engine/ThreadBase.hpp, src/Engine/ThreadBase.cpp). The squirrel machine
-- is a parameter: a state of the thread's machine and the calls on it.
use engge.Base.{Bool, true, false, not, if◌then◌else◌}

-- The states of `sq_getvmstate`.
pub data VmState : Type 0 where
  idle running suspended : VmState

abbrev pub is_idle : VmState → Bool
is_idle VmState.idle = true
is_idle _ = false

abbrev pub is_running : VmState → Bool
is_running VmState.running = true
is_running _ = false

pub record Squirrel : Type 1 where
  pub Vm : Type 0
  pub get_vmstate : Vm → VmState
  pub suspendvm : Vm → Vm
  pub wakeupvm : Vm → Vm
  -- The calls of the closure of a cutscene and of that which overrides it.
  pub call_closure : Vm → Vm
  pub call_override : Vm → Vm

pub record ThreadBase (machine : Squirrel) : Type 0 where
  pub is_suspended_flag : Bool
  pub is_pauseable : Bool
  pub is_stopped_flag : Bool
  pub vm : Squirrel.Vm machine

module _ {machine : Squirrel} where
  open machine use {get_vmstate, suspendvm, wakeupvm}

  unfoldable pub new_thread : Squirrel.Vm machine → ThreadBase machine
  new_thread vm = record {
    is_suspended_flag = false;
    is_pauseable = true;
    is_stopped_flag = false;
    vm = vm;
  }

  unfoldable pub stop : ThreadBase machine → ThreadBase machine
  stop t = record t { is_stopped_flag = true }

  unfoldable pub is_suspended : ThreadBase machine → Bool
  is_suspended t = if t.is_suspended_flag then true else not (is_running (get_vmstate t.vm))

  unfoldable pub is_stopped : ThreadBase machine → Bool
  is_stopped t = if t.is_stopped_flag then true else is_idle (get_vmstate t.vm)

  unfoldable pub suspend : ThreadBase machine → ThreadBase machine
  suspend t =
      if is_suspended t then t else record t { vm = suspendvm t.vm; is_suspended_flag = true }

  unfoldable pub pause : ThreadBase machine → Bool × ThreadBase machine
  pause t = if not t.is_pauseable then (false, t) else (true, suspend t)

  unfoldable pub resume : ThreadBase machine → ThreadBase machine
  resume t =
      if not (is_suspended t) then t else record t { vm = wakeupvm t.vm; is_suspended_flag = false }
