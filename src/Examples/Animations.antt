-- ===== src/Examples/Animations.antt =====
-- The theorems on animations at one of three frames, where a frame lasts one second.
use engge.Base.{ℕ, ◌+◌, ◌-◌, ◌≡◌, refl, true, false, none, some, [], ◌∷◌, ◌++◌, ltb, arith}
use engge.Base.Outcome.{Returns}
use engge.Dialog.Ast.{pos}
use engge.Graphics.Animation.{AnimState, Clock, Strip, animation, no_layers}
use engge.Graphics.AnimControl.{AnimControl, play, everywhere_layers, rewind_strip}
use engge.Graphics.AnimControl.Range.{Call, make, ControlInRange, make-ControlInRange}
use engge.Graphics.AnimControl.Through.{run, showing, callbacks_from, callback_at, run-play}

-- `tick` of the time passes whatever it is, so that two seconds are over a frame.
abbrev wall : Clock
wall = record {
  TimeSpan = ℕ;
  plus = λ a b. a + b;
  is_over_frame = λ t fps. ltb 1 t;
  less_frame = λ t fps. t - 1;
}

abbrev walk : Strip wall
walk = record {
  frames = 3;
  callbacks = some 5 ∷ none ∷ some 6 ∷ [];
  loop = false;
  fps = pos 1;
  frame_index = 0;
  state = AnimState.pause;
  elapsed = 0;
}

abbrev still : AnimControl wall
still = record { anim = some (animation walk no_layers); loop = true }

make-ControlInRange_example : Returns ControlInRange (make (Call.updates 2) still)
make-ControlInRange_example = make-ControlInRange (Call.updates 2) still tt ((λ h. h), tt)

run-play_example :
    (u : ℕ) × (run 3 2 (play false still) ≡ (
      callbacks_from walk.callbacks 1 2 ++ callback_at walk.callbacks 2,
      showing walk (everywhere_layers rewind_strip no_layers) 2 AnimState.stopped u,
    ))
run-play_example = run-play 2 walk no_layers true 2 refl refl (λ t. ground arith)
