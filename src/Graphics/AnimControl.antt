-- ===== src/Graphics/AnimControl.antt =====
-- `AnimControl` (src/Graphics/AnimControl.cpp). A call gives the callbacks that it calls, in their
-- order.
pub mod Range
pub mod Through
use engge.Base.{
  ℕ, zero, suc, ◌+◌, ◌-◌, Bool, true, false, not, ◌||◌, ◌&&◌, Option, none, some, List, [], ◌∷◌,
  ◌++◌, ltb, ◌==◌, if◌then◌else◌, length, get_elem?,
}
use engge.Base.Outcome.{Outcome, done, fault}
use engge.Dialog.Ast.{ℤ, pos, negsuc}
use engge.Graphics.Animation.{
  AnimState, Clock, Strip, Animation, animation, Layers, no_layers, layer,
}

abbrev pub get_fps : ℤ → ℕ
get_fps (pos zero) = 10
get_fps (pos (suc n)) = suc n
get_fps (negsuc n) = 10

abbrev is_stopped : AnimState → Bool
is_stopped AnimState.stopped = true
is_stopped s = false

abbrev pub is_playing : AnimState → Bool
is_playing AnimState.play = true
is_playing s = false

module _ {clock : Clock} where
  open clock use {TimeSpan, plus, is_over_frame, less_frame}

  abbrev pub strip_of : Animation clock → Strip clock
  strip_of (animation s ls) = s

  abbrev pub set_state : AnimState → Animation clock → Animation clock
  set_state state (animation s ls) = animation (record s { state = state }) ls

  -- `resetAnim` of the frames.
  unfoldable pub reset_strip : Strip clock → Strip clock
  reset_strip s =
      if s.frames == 0
      then s
      else record s { state = AnimState.stopped; frame_index = s.frames - 1 }

  unfoldable pub rewind_strip : Strip clock → Strip clock
  rewind_strip s = if s.frames == 0 then s else record s { state = AnimState.play; frame_index = 0 }

  -- `resetAnim` and `rewind` do it to the animation and to all its layers.
  unfoldable mutual
    pub everywhere : (Strip clock → Strip clock) → Animation clock → Animation clock
    everywhere f (animation s ls) = animation (f s) (everywhere_layers f ls)

    pub everywhere_layers : (Strip clock → Strip clock) → Layers clock → Layers clock
    everywhere_layers f no_layers = no_layers
    everywhere_layers f (layer a ls) = layer (everywhere f a) (everywhere_layers f ls)

  -- `trig`
  unfoldable pub trig : Strip clock → List ℕ
  trig s = elim (get_elem? s.callbacks s.frame_index) [
    | none ↦ []
    | some none ↦ []
    | some (some callback) ↦ callback ∷ []
  ]

  -- `update` of one animation, with the control's `m_loop`.
  unfoldable pub update_strip : Bool → TimeSpan → Strip clock → List ℕ × Strip clock
  unfolding trig
  update_strip m_loop e s =
      let elapsed = plus s.elapsed e in
      let fps = get_fps s.fps in
      let next = record s { elapsed = less_frame elapsed fps; frame_index = suc s.frame_index } in
      let last = record next { frame_index = next.frame_index - 1 } in
      if not (is_over_frame elapsed fps)
      then ([], record s { elapsed = elapsed })
      else if not (next.frame_index == s.frames)
      then (trig next, next)
      else if m_loop || s.loop
      then ([], record next { frame_index = 0 })
      else (trig last, record last { state = AnimState.stopped })

  -- The loop over the layers: what is called, whether all are stopped, and the layers.
  unfoldable pub update_layers : Bool → TimeSpan → Layers clock → List ℕ × Bool × Layers clock
  unfolding update_strip
  update_layers m_loop e no_layers = ([], true, no_layers)
  update_layers m_loop e (layer (animation s inner) ls) =
      let (called, t) = update_strip m_loop e s in
      let (more, over, rest) = update_layers m_loop e ls in
      (called ++ more, is_stopped t.state && over, layer (animation t inner) rest)

  abbrev has_layers : Layers clock → Bool
  has_layers no_layers = false
  has_layers (layer a ls) = true

  unfoldable pub update_animation : Bool → TimeSpan → Animation clock → List ℕ × Animation clock
  unfolding update_strip update_layers
  update_animation m_loop e (animation s ls) =
      let (called, t) = update_strip m_loop e s in
      let (calls, over, rest) = update_layers m_loop e ls in
      if not (is_playing s.state)
      then ([], animation s ls)
      else if s.frames == 0 && not (has_layers ls)
      then ([], animation s ls)
      else if not (s.frames == 0)
      then (called, animation t ls)
      else (calls, animation (if over then record s { state = AnimState.stopped } else s) rest)

-- `m_anim`, which may be null, and `m_loop`.
pub record AnimControl (clock : Clock) : Type 0 where
  pub anim : Option (Animation clock)
  pub loop : Bool

module _ {clock : Clock} where
  open clock use {TimeSpan}

  unfoldable pub play : Bool → AnimControl clock → AnimControl clock
  unfolding everywhere rewind_strip
  play loop c = elim c.anim [
    | none ↦ record c { loop = loop }
    | some a ↦ record {
      anim = some (everywhere rewind_strip (set_state AnimState.play a));
      loop = loop;
    }
  ]

  unfoldable pub stop : AnimControl clock → AnimControl clock
  unfolding everywhere reset_strip
  stop c = elim c.anim [
    | none ↦ c
    | some a ↦ record c { anim = some (everywhere reset_strip (set_state AnimState.stopped a)) }
  ]

  -- `m_anim->state` of a null pointer is undefined.
  unfoldable pub pause : AnimControl clock → Outcome (AnimControl clock)
  pause c = elim c.anim [
    | none ↦ fault
    | some a ↦ done (record c { anim = some (set_state AnimState.pause a) })
  ]

  unfoldable pub set_animation : Option (Animation clock) → AnimControl clock → AnimControl clock
  unfolding stop
  set_animation anim c = stop (record c { anim = anim })

  unfoldable pub get_state : AnimControl clock → AnimState
  get_state c = elim c.anim [ none ↦ AnimState.stopped | some a ↦ (strip_of a).state ]

  unfoldable pub update : TimeSpan → AnimControl clock → List ℕ × AnimControl clock
  unfolding update_animation
  update e c = elim c.anim [
    | none ↦ ([], c)
    | some a ↦ let (called, b) = update_animation c.loop e a in (called, record c { anim = some b })
  ]
