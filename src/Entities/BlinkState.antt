-- ===== src/Entities/BlinkState.antt =====
-- `BlinkState` (src/Entities/Actor/BlinkState.cpp): when the eyes of a costume are shut. The layer
-- "blink" of the costume is a field, and a random number is an argument.
pub mod Eyes
use engge.Base.{ℕ, zero, suc, Bool, true, false, ◌&&◌, if◌then◌else◌}
use engge.Dialog.Ast.{ℤ, pos, negsuc}

-- `float` and `ngf::TimeSpan`; `blink_time` is a fifth of a second.
pub record Clock : Type 1 where
  pub Float : Type 0
  pub TimeSpan : Type 0
  pub is_zero : Float → Bool
  pub seconds : Float → TimeSpan
  pub no_time : TimeSpan
  pub blink_time : TimeSpan
  pub plus : TimeSpan → TimeSpan → TimeSpan
  pub greater : TimeSpan → TimeSpan → Bool
  pub between : Float → Float → Float → Float

pub record BlinkState (clock : Clock) : Type 0 where
  pub min : Clock.Float clock
  pub max : Clock.Float clock
  pub value : Clock.TimeSpan clock
  pub state : ℤ
  pub elapsed : Clock.TimeSpan clock
  pub blink_visible : Bool

module _ {clock : Clock} where
  open clock use {Float, TimeSpan, is_zero, seconds, no_time, blink_time, plus, greater, between}

  -- `setRate`; `between` makes of a random number one between the two.
  unfoldable pub set_rate : Float → Float → Float → BlinkState clock → BlinkState clock
  set_rate random min max b =
      let rated = record b { min = min; max = max; elapsed = no_time; blink_visible = false } in
      if is_zero min && is_zero max
      then record rated { state = negsuc 0 }
      else record rated { state = pos 0; value = seconds (between min max random) }

  unfoldable pub update_closed : TimeSpan → BlinkState clock → BlinkState clock
  update_closed e b =
      let waited = plus b.elapsed e in
      if greater waited b.value
      then record b { state = pos 1; blink_visible = true; elapsed = no_time }
      else record b { elapsed = waited }

  unfoldable pub update_open : Float → TimeSpan → BlinkState clock → BlinkState clock
  update_open random e b =
      let waited = plus b.elapsed e in
      if greater waited blink_time
      then record b {
        blink_visible = false;
        value = seconds (between b.min b.max random);
        elapsed = no_time;
        state = pos 0;
      }
      else record b { elapsed = waited }

  -- `update`
  unfoldable pub update : Float → TimeSpan → BlinkState clock → BlinkState clock
  unfolding update_closed update_open
  update random e b = elim b.state [
    | pos zero ↦ update_closed e b
    | pos (suc zero) ↦ update_open random e b
    | pos (suc (suc n)) ↦ b
    | negsuc n ↦ b
  ]
