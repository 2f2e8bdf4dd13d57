-- ===== src/Examples/Cutscenes.antt =====
-- The theorems on cutscenes at a small machine.
use engge.Base.{ℕ, suc, ◌≡◌, refl, true, false, [], ◌∷◌, ◌==◌, arith, if◌then◌else◌}
use engge.Engine.ThreadBase.{VmState, Squirrel}
use engge.Engine.InputState.{InputState}
use engge.Engine.Cutscene.{Cutscene, new_cutscene, is_elapsed}
use engge.Engine.Cutscene.Ends.{
  ticks, overrides, stops, suspends, make_all, restores, make_all-restores, make_all-ends,
}

-- The machine counts the calls on it, and is idle where there were none.
abbrev counter : Squirrel
counter = record {
  Vm = ℕ;
  get_vmstate = λ vm. if vm == 0 then VmState.idle else VmState.running;
  suspendvm = λ vm. suc vm;
  wakeupvm = λ vm. suc vm;
  call_closure = λ vm. suc vm;
  call_override = λ vm. suc vm;
}

abbrev stopped_cutscene : Cutscene counter
stopped_cutscene = record {
  thread = record {
    is_suspended_flag = false;
    is_pauseable = true;
    is_stopped_flag = true;
    vm = 3;
  };
  state = 1;
  input_state = 6;
  has_cutscene_override = true;
}

make_all-restores_example :
    restores
      (make_all
        (ticks ∷ overrides ∷ ticks ∷ stops ∷ ticks ∷ ticks ∷ [])
        (new_cutscene {machine = counter} 0 6 true).0).1
    ≡ (if is_elapsed
          (make_all
            (ticks ∷ overrides ∷ ticks ∷ stops ∷ ticks ∷ ticks ∷ [])
            (new_cutscene {machine = counter} 0 6 true).0).0
        then 6 ∷ []
        else [])
make_all-restores_example =
    make_all-restores {machine = counter} 0 6 true
      (ticks ∷ overrides ∷ ticks ∷ stops ∷ ticks ∷ ticks ∷ [])

make_all-ends_example :
    is_elapsed
      (make_all (ticks ∷ suspends ∷ ticks ∷ overrides ∷ ticks ∷ ticks ∷ []) stopped_cutscene).0
    ≡ true
make_all-ends_example =
    make_all-ends (ticks ∷ suspends ∷ ticks ∷ overrides ∷ ticks ∷ ticks ∷ []) stopped_cutscene refl
      (omega arith) (omega arith)

abbrev all_on : InputState
all_on = record {
  input_active = true;
  input_verbs_active = true;
  show_cursor = true;
  input_hud = false;
}
