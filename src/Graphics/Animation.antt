-- ===== src/Graphics/Animation.antt =====
-- `Animation` and `AnimState` (include/engge/Graphics): frames, or layers that are animations again.
-- Pictures, names and offsets of the frames play no part; a frame is counted only. A callback is a
-- number.
use engge.Base.{ℕ, Bool, Option, List}
use engge.Dialog.Ast.{ℤ}

pub data AnimState : Type 0 where
  stopped play pause : AnimState

-- `ngf::TimeSpan`: its sum, and the two comparisons with the time of a frame, which is one second
-- over the frames per second.
pub record Clock : Type 1 where
  pub TimeSpan : Type 0
  pub plus : TimeSpan → TimeSpan → TimeSpan
  pub is_over_frame : TimeSpan → ℕ → Bool
  pub less_frame : TimeSpan → ℕ → TimeSpan

-- What an animation has but its layers; `frames` is the number of its frames.
pub record Strip (clock : Clock) : Type 0 where
  pub frames : ℕ
  pub callbacks : List (Option ℕ)
  pub loop : Bool
  pub fps : ℤ
  pub frame_index : ℕ
  pub state : AnimState
  pub elapsed : Clock.TimeSpan clock

mutual
  pub data Animation (clock : Clock) : Type 0 where
    animation : (strip : Strip clock) → (layers : Layers clock) → Animation clock

  pub data Layers (clock : Clock) : Type 0 where
    no_layers : Layers clock
    layer : (first : Animation clock) → (rest : Layers clock) → Layers clock
