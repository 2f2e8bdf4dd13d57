-- ===== src/Scripting/Verbs/Functions.antt =====
-- The functions of a sentence, and `Sentence` itself. A function is asked whether it is elapsed, and is
-- called where it is not; both may stop the sentence and change the world.
use engge.Base.{
  ◌+◌, ℕ, Bool, true, false, not, ◌&&◌, ◌||◌, Option, none, some, List, [], ◌∷◌, ◌++◌, codes, ◌==◌,
  ltb, if◌then◌else◌,
}
use engge.Scripting.Verbs.World.{Verb, Reaching, VerbWorld}

abbrev pub talk_to : ℕ
talk_to = 3

abbrev pub pickup : ℕ
pickup = 4

abbrev pub give : ℕ
give = 9

-- What all functions of a sentence know: the actor, the objects, the verb, and the object of the walk.
pub record Command : Type 0 where
  pub actor : ℕ
  pub object1 : ℕ
  pub object2 : Option ℕ
  pub verb : Verb
  pub walk_object : ℕ

-- The state of `ReachAnim`, where `none` is a reaching that was never set.
pub data ReachState : Type 0 where
  begins plays stands over : ReachState

pub data VerbFunction (world : VerbWorld) : Type 0 where
  actor_walk :
      (end_of_path : VerbWorld.Position world)
      → (is_destination : Bool) → (is_done : Bool) → VerbFunction world
  post_walk set_default_verb verb_execute : (is_done : Bool) → VerbFunction world
  reach_anim :
      (reaching : Option Reaching) → (state : ReachState) → (elapsed : ℕ) → VerbFunction world

abbrev is_given : Option ℕ → Bool
is_given none = false
is_given (some o) = true

-- What a function comes to: itself, whether it stopped the sentence, and the world.
abbrev pub Step : VerbWorld → Type 0
Step world = VerbFunction world × Bool × VerbWorld.World world

-- `_elapsed.getTotalSeconds() > 0.330`, in microseconds, as are all times here: what it rounds is left
-- out.
abbrev pub reach_time : ℕ
reach_time = 330000

module _ (world : VerbWorld) (c : Command) where
  open world use {
    World, Position, same_position, exists, parameter_count, call, ask, call_root, default_object,
    is_object, receiver, selectable, is_walking, position, play_reach, stand, give_to,
  }

  -- Where the walk of `ActorWalk` ended elsewhere: whether the sentence stops.
  unfoldable pub end_walk : Position → Bool → World → Bool × World
  end_walk end_of_path is_destination w =
      if is_destination || c.verb.id == talk_to
      then (false, w)
      else if not (same_position end_of_path (position c.actor w))
      then (true, w)
      else if exists (some c.walk_object) (codes "verbCantReach") w
      then (true, (call (some c.walk_object) (codes "verbCantReach") [] w).1)
      else (
        true,
        (call (default_object w) (codes "verbCantReach") (some c.walk_object ∷ none ∷ []) w).1,
      )

  -- `operator()` of `PostWalk`: whether the script handled the verb, which stops the sentence.
  unfoldable pub ask_post_walk : World → Bool × World
  ask_post_walk w =
      let name = if is_object c.object1 then codes "objectPostWalk" else codes "actorPostWalk" in
      if exists (some c.object1) name w
      then ask (some c.object1) name c.verb.id c.object1 c.object2 w
      else (false, w)

  -- The verb of the actor, then that of the object: whether it was handled.
  unfoldable pub call_actor_verb : World → Bool × World
  call_actor_verb w =
      if not (exists (some c.actor) c.verb.func w)
      then (false, w)
      else if c.verb.id == give
      then call (some c.actor) c.verb.func (some c.object1 ∷ []) w
      else if c.verb.id == talk_to
      then (true, (call (some c.object1) c.verb.func [] w).1)
      else (false, w)

  unfoldable pub call_object_verb : World → Bool × World
  call_object_verb w =
      if not (exists (some c.object1) c.verb.func w)
      then (false, w)
      else if parameter_count (some c.object1) c.verb.func w == 2
      then call (some c.object1) c.verb.func (c.object2 ∷ []) w
      else call (some c.object1) c.verb.func [] w

  unfoldable pub handle_verb : World → Bool × World
  unfolding call_actor_verb call_object_verb
  handle_verb w =
      let (handled, v) = call_actor_verb w in if handled then (true, v) else call_object_verb v

  -- What is done where nobody handled the verb.
  unfoldable pub fall_back : World → World
  fall_back w =
      let other = receiver c.object2 w in
      let told = call_root (codes "objectGive") (some c.object1 ∷ some c.actor ∷ other ∷ []) w in
      let (handled, v) = call (some c.object1) (codes "verbDefault") [] w in
      if c.verb.id == give
      then give_to c.actor c.object1 other told
      else if handled
      then v
      else (call (default_object v) c.verb.func (some c.object1 ∷ c.object2 ∷ []) v).1

  -- `operator()` of `VerbExecuteFunction`
  unfoldable pub execute_verb : World → World
  unfolding handle_verb fall_back
  execute_verb w =
      let gives_selectable =
        c.verb.id == give && is_given c.object2 && selectable (receiver c.object2 w) w in
      let (handled, v) = if gives_selectable then (false, w) else handle_verb w in
      if not handled
      then fall_back v
      else if c.verb.id == pickup
      then call_root (codes "onPickup") (some c.actor ∷ some c.object1 ∷ []) v
      else v

  -- `isElapsed`
  unfoldable pub is_elapsed : VerbFunction world → World → Bool × Step world
  unfolding end_walk
  is_elapsed (actor_walk p d true) w = (true, (actor_walk p d true, false, w))
  is_elapsed (actor_walk p d false) w =
      let (stops, v) = end_walk p d w in
      if is_walking c.actor w
      then (false, (actor_walk p d false, false, w))
      else (true, (actor_walk p d true, stops, v))
  is_elapsed (post_walk is_done) w = (is_done, (post_walk is_done, false, w))
  is_elapsed (set_default_verb is_done) w = (is_done, (set_default_verb is_done, false, w))
  is_elapsed (verb_execute is_done) w = (is_done, (verb_execute is_done, false, w))
  is_elapsed (reach_anim r over t) w = (true, (reach_anim r over t, false, w))
  is_elapsed (reach_anim r s t) w = (false, (reach_anim r s t, false, w))

  -- `operator()`; that of `ActorWalk` is inherited and does nothing.
  unfoldable pub call_function : ℕ → VerbFunction world → World → Step world
  unfolding ask_post_walk execute_verb
  call_function e (actor_walk p d is_done) w = (actor_walk p d is_done, false, w)
  call_function e (post_walk is_done) w =
      let (handled, v) = ask_post_walk w in (post_walk true, handled, v)
  call_function e (set_default_verb true) w = (set_default_verb true, false, w)
  call_function e (set_default_verb false) w =
      (set_default_verb true, false, VerbWorld.set_default_verb world w)
  call_function e (verb_execute is_done) w = (verb_execute true, false, execute_verb w)
  call_function e (reach_anim r begins t) w = (reach_anim r plays t, false, play_reach c.actor r w)
  call_function e (reach_anim r plays t) w =
      let waited = t + e in
      (reach_anim r (if ltb reach_time waited then stands else plays) waited, false, w)
  call_function e (reach_anim r stands t) w = (reach_anim r over t, false, stand c.actor w)
  call_function e (reach_anim r over t) w = (reach_anim r over t, false, w)

-- `Sentence`
pub record Sentence (world : VerbWorld) : Type 0 where
  pub functions : List (VerbFunction world)
  pub stopped : Bool

module _ {world : VerbWorld} where
  unfoldable pub stop : Sentence world → Sentence world
  stop s = record s { stopped = true }

  unfoldable pub push_back : VerbFunction world → Sentence world → Sentence world
  push_back f s = record s { functions = s.functions ++ f ∷ [] }

  -- `isElapsed` of the sentence
  abbrev pub is_over : Sentence world → Bool
  is_over s = elim s.functions [ [] ↦ true | f ∷ fs ↦ false ]

module _ (world : VerbWorld) (c : Command) where
  open world use {World}

  unfoldable pub call_first :
      ℕ → VerbFunction world → List (VerbFunction world) → Bool → World → Sentence world × World
  unfolding is_elapsed call_function
  call_first e f fs stopped w =
      let (elapsed, (g, stops, v)) = is_elapsed world c f w in
      let (g', stops', v') = call_function world c e g v in
      if elapsed
      then (record { functions = fs; stopped = stopped || stops }, v)
      else (record { functions = g' ∷ fs; stopped = stopped || stops || stops' }, v')

  -- `operator()` of the sentence
  unfoldable pub tick : ℕ → Sentence world → World → Sentence world × World
  unfolding call_first
  tick e s w = elim s.functions [
    | [] ↦ (s, w)
    | f ∷ fs ↦ if s.stopped then (record s { functions = [] }, w) else call_first e f fs s.stopped w
  ]
