-- ===== src/Graphics/AnimControl/Range.antt =====
-- The index of the frame that is shown.
use engge.Base.{
  suc, ◌<◌, ◌≢◌, inl, inr, Bool, ◌||◌, Option, none, some, ◌==◌, arith, Bool-cases, Option-cases,
}
use engge.Base.Outcome.{Outcome, done, Returns}
use engge.Graphics.Animation.{
  AnimState, Clock, Strip, Animation, animation, Layers, no_layers, layer,
}
use engge.Graphics.AnimControl.{
  get_fps, is_playing, has_layers, set_state, reset_strip, rewind_strip, everywhere,
  everywhere_layers, update_strip, update_layers, update_animation, AnimControl, play, stop, pause,
  set_animation, update,
}

-- An animation with frames shows one of them.
abbrev pub InRange : {clock : Clock} → Strip clock → Type 0
InRange s = 0 < s.frames → s.frame_index < s.frames

module _ {clock : Clock} where
  -- The animation and all its layers show one of their frames, if they have any.
  abbrev mutual
    pub AllInRange : Animation clock → Type 0
    AllInRange (animation s ls) = InRange s × LayersInRange ls

    pub LayersInRange : Layers clock → Type 0
    LayersInRange no_layers = Unit
    LayersInRange (layer a ls) = AllInRange a × LayersInRange ls

  -- What is done to every strip puts it in range.
  mutual
    unfolding everywhere

    everywhere-InRange :
        (f : Strip clock → Strip clock) (a : Animation clock)
        → ((s : Strip clock) → InRange (f s))
        → AllInRange (everywhere f a)
    everywhere-InRange f (animation s ls) h = (h s, everywhere_layers-InRange f ls h)

    everywhere_layers-InRange :
        (f : Strip clock → Strip clock) (ls : Layers clock)
        → ((s : Strip clock) → InRange (f s))
        → LayersInRange (everywhere_layers f ls)
    everywhere_layers-InRange f no_layers h = tt
    everywhere_layers-InRange f (layer a ls) h =
        (everywhere-InRange f a h, everywhere_layers-InRange f ls h)

  reset_strip-InRange : (s : Strip clock) → InRange (reset_strip s)
  unfolding reset_strip
  reset_strip-InRange s = ground arith

  rewind_strip-InRange : (s : Strip clock) → InRange (rewind_strip s)
  unfolding rewind_strip
  rewind_strip-InRange s = ground arith

  update_strip-InRange :
      (m_loop : Bool) (e : Clock.TimeSpan clock) (s : Strip clock)
      → InRange s
      → InRange (update_strip m_loop e s).1
  unfolding update_strip
  update_strip-InRange m_loop e s h =
      elim (Bool-cases (Clock.is_over_frame clock (Clock.plus clock s.elapsed e) (get_fps s.fps))) [
        | inr early ↦ rw early h
        | inl late ↦ elim (Bool-cases (suc s.frame_index == s.frames)) [
          | inr inside ↦ rw (late, inside) (λ k. ground (arith, h k, inside))
          | inl end ↦ elim (Bool-cases (m_loop || s.loop)) [
            | inl loops ↦ rw (late, end, loops) (λ k. k)
            | inr ends ↦ rw (late, end, ends) (λ k. omega (arith, h k))
          ]
        ]
      ]

  update_layers-InRange :
      (m_loop : Bool) (e : Clock.TimeSpan clock) (ls : Layers clock)
      → LayersInRange ls
      → LayersInRange (update_layers m_loop e ls).2
  unfolding update_layers
  update_layers-InRange m_loop e no_layers h = tt
  update_layers-InRange m_loop e (layer (animation s inner) ls) h =
      ((update_strip-InRange m_loop e s h.0.0, h.0.1), update_layers-InRange m_loop e ls h.1)

  update_animation-InRange :
      (m_loop : Bool) (e : Clock.TimeSpan clock) (a : Animation clock)
      → AllInRange a
      → AllInRange (update_animation m_loop e a).1
  unfolding update_animation
  update_animation-InRange m_loop e (animation s ls) h = elim (Bool-cases (is_playing s.state)) [
    | inr rests ↦ rw rests h
    | inl plays ↦ elim (Bool-cases (s.frames == 0)) [
      | inr frames ↦ rw (plays, frames) (update_strip-InRange m_loop e s h.0, h.1)
      | inl bare ↦ elim (Bool-cases (has_layers ls)) [
        | inr nothing ↦ rw (plays, bare, nothing) h
        | inl layered ↦ elim (Bool-cases (update_layers m_loop e ls).1) [
          | inl over ↦ rw (plays, bare, layered, over) (h.0, update_layers-InRange m_loop e ls h.1)
          | inr more ↦ rw (plays, bare, layered, more) (h.0, update_layers-InRange m_loop e ls h.1)
        ]
      ]
    ]
  ]

  set_state-InRange :
      (state : AnimState) (a : Animation clock) → AllInRange a → AllInRange (set_state state a)
  set_state-InRange state (animation s ls) h = h

  -- The animation of the control, if it has one.
  abbrev pub ControlInRange : AnimControl clock → Type 0
  ControlInRange c = elim c.anim as (λ o. Type 0) [ none ↦ Unit | some a ↦ AllInRange a ]

-- What is called on the control.
pub data Call (clock : Clock) : Type 0 where
  plays : (loop : Bool) → Call clock
  stops pauses : Call clock
  sets : (anim : Option (Animation clock)) → Call clock
  updates : (e : Clock.TimeSpan clock) → Call clock

module _ {clock : Clock} where
  unfoldable pub make : Call clock → AnimControl clock → Outcome (AnimControl clock)
  make (Call.plays loop) c = done (play loop c)
  make Call.stops c = done (stop c)
  make Call.pauses c = pause c
  make (Call.sets anim) c = done (set_animation anim c)
  make (Call.updates e) c = done (update e c).1

  -- No pause without an animation.
  abbrev pub IsAllowed : Call clock → AnimControl clock → Type 0
  IsAllowed Call.pauses c = c.anim ≢ none
  IsAllowed k c = Unit

  -- Each call returns and leaves the animation of the control, and all its layers, with an index
  -- within their frames if they have any, when it was so before. To pause there must be an animation.
  pub make-ControlInRange :
      (k : Call clock) (c : AnimControl clock)
      → IsAllowed k c
      → ControlInRange c
      → Returns ControlInRange (make k c)
  unfolding make play stop pause set_animation update
  make-ControlInRange (Call.plays loop) c a h = elim (Option-cases c.anim) [
    | inl e ↦ rw (e, play) (rw e tt)
    | inr (x, e) ↦ rw (e, play) (everywhere-InRange rewind_strip _ rewind_strip-InRange)
  ]
  make-ControlInRange Call.stops c a h = elim (Option-cases c.anim) [
    | inl e ↦ rw (e, stop) (rw e tt)
    | inr (x, e) ↦ rw (e, stop) (everywhere-InRange reset_strip _ reset_strip-InRange)
  ]
  make-ControlInRange Call.pauses c a h = elim (Option-cases c.anim) [
    | inl e ↦ absurd (a e)
    | inr (x, e) ↦ rw (e, pause) (set_state-InRange AnimState.pause x (rw e at h))
  ]
  make-ControlInRange (Call.sets none) c a h = tt
  make-ControlInRange (Call.sets (some x)) c a h =
      everywhere-InRange reset_strip _ reset_strip-InRange
  make-ControlInRange (Call.updates e) c a h = elim (Option-cases c.anim) [
    | inl n ↦ rw (n, update) (rw n tt)
    | inr (x, n) ↦ rw (n, update) (update_animation-InRange c.loop e x (rw n at h))
  ]
