-- ===== src/Engine/Camera.antt =====
-- `Camera` (include/engge/Engine/Camera.hpp, src/Engine/Camera.cpp). The two coordinates are clamped alike
-- and apart from each other, so one of them is modelled; a position is a `float`, which is a parameter.
pub mod Inside
use engge.Base.{
  ℕ, ◌+◌, ◌-◌, ◌/◌, ◌≤◌, ◌≡◌, Bool, true, false, not, ◌&&◌, Option, none, some, ltb, if◌then◌else◌,
}
use engge.Base.Outcome.{Outcome, done, fault, ◌>>=◌}

-- `trunc` is the conversion of a float that is not negative to an `int`; `interpolate` goes from one
-- position to the other, with an interpolation function that is a number, after a part of the time.
pub record Scale : Type 1 where
  pub Float : Type 0
  pub TimeSpan : Type 0
  pub zero_float : Float
  pub of_nat : ℕ → Float
  pub trunc : Float → ℕ
  pub is_negative : Float → Bool
  pub plus : Float → Float → Float
  pub interpolate : ℕ → TimeSpan → TimeSpan → Float → Float → Float
  pub no_time : TimeSpan
  pub add_time : TimeSpan → TimeSpan → TimeSpan
  pub is_before : TimeSpan → TimeSpan → Bool

-- The sizes of the room and of the screen along the coordinate, and the edges of the bounds, which are
-- not negative here.
pub record Extent : Type 0 where
  pub room_size : ℕ
  pub screen_size : ℕ

pub record Bounds : Type 0 where
  pub low : ℕ
  pub high : ℕ

pub record Camera (scale : Scale) : Type 0 where
  pub position : Scale.Float scale
  pub bounds : Option Bounds
  pub is_moving : Bool
  pub init : Scale.Float scale
  pub target : Scale.Float scale
  pub elapsed : Scale.TimeSpan scale
  pub time : Scale.TimeSpan scale
  pub function : ℕ

-- `std::clamp`, which is undefined where the ends are the wrong way round.
unfoldable pub clamp : ℕ → ℕ → ℕ → Outcome ℕ
clamp x low high =
    if ltb high low then fault else done (if ltb x low then low else if ltb high x then high else x)

-- The bounds of the camera, moved by half a screen.
unfoldable pub clamp_bounds : Extent → Option Bounds → ℕ → Outcome ℕ
unfolding clamp
clamp_bounds e none x = done x
clamp_bounds e (some b) x = clamp x (e.screen_size / 2 + b.low) (e.screen_size / 2 + b.high)

-- `std::max(roomSize - screenSize / 2, 0)`
abbrev pub last_center : Extent → ℕ
last_center e = e.room_size - e.screen_size / 2

module _ (scale : Scale) where
  open scale use {Float, zero_float, of_nat, trunc, is_negative}

  -- `clampCamera`, in the room that there may be.
  unfoldable pub clamp_camera : Option Extent → Option Bounds → Float → Outcome Float
  unfolding clamp_bounds
  clamp_camera none bounds x = done (if is_negative x then zero_float else x)
  clamp_camera (some e) bounds x =
      clamp_bounds e bounds (trunc (if is_negative x then zero_float else x)) >>= λ y.
      clamp y (e.screen_size / 2) (last_center e) >>= λ z. done (of_nat z)

module _ {scale : Scale} where
  open scale use {Float, TimeSpan, plus, interpolate, no_time, add_time, is_before}

  -- `at`
  unfoldable pub put : Option Extent → Float → Camera scale → Outcome (Camera scale)
  unfolding clamp_camera
  put room x c = clamp_camera scale room c.bounds x >>= λ y.
      done (record c { position = y; target = y; time = no_time; is_moving = false })

  unfoldable pub move : Option Extent → Float → Camera scale → Outcome (Camera scale)
  unfolding clamp_camera
  move room offset c = clamp_camera scale room c.bounds (plus c.position offset) >>= λ y.
      done (record c { position = y; target = y; is_moving = false })

  unfoldable pub set_bounds : Option Extent → Bounds → Camera scale → Outcome (Camera scale)
  unfolding clamp_camera
  set_bounds room b c = clamp_camera scale room (some b) c.position >>= λ y.
      done (record c { bounds = some b; position = y })

  unfoldable pub reset_bounds : Camera scale → Camera scale
  reset_bounds c = record c { bounds = none }

  unfoldable pub pan_to : Float → TimeSpan → ℕ → Camera scale → Camera scale
  pan_to target time function c =
      let started =
        if c.is_moving
        then c
        else record c { is_moving = true; init = c.position; elapsed = no_time } in
      record started { function = function; target = target; time = time }

  -- `update`; `isMoving` is computed before `at` sets the time back.
  unfoldable pub update : Option Extent → TimeSpan → Camera scale → Outcome (Camera scale)
  unfolding put clamp_camera
  update room e c =
      let waited = add_time c.elapsed e in
      let d = record c { elapsed = waited } in
      let panned = interpolate c.function waited c.time c.init c.target in
      if is_before waited c.time
      then (clamp_camera scale room c.bounds panned >>= λ y. done (record d { position = y }))
      else if c.is_moving
      then put room c.target (record d { is_moving = false })
      else done d
