-- ===== src/Scripting/Verbs/Execute.antt =====
-- `DefaultVerbExecute::execute`: what a verb on an object does at once, and the sentence that it makes.
use engge.Base.{
  ℕ, ◌/◌, ◌%◌, ◌^◌, Bool, true, false, ◌&&◌, ◌||◌, Option, none, some, List, [], ◌∷◌, ◌++◌, codes,
  ◌==◌, if◌then◌else◌,
}
use engge.Scripting.Verbs.World.{Verb, high, medium, low, UseFlag, VerbWorld}
use engge.Scripting.Verbs.Functions.{
  talk_to, pickup, give, Command, VerbFunction, actor_walk, post_walk, set_default_verb,
  verb_execute, reach_anim, ReachState, Sentence,
}

abbrev pub look_at : ℕ
look_at = 2

abbrev pub use_verb : ℕ
use_verb = 10

-- The bit of the flags.
abbrev has_bit : ℕ → ℕ → Bool
has_bit flags bit = flags / 2 ^ bit % 2 == 1

-- What `execute` comes to; `starts` is the sentence that `setSentence` is called with.
pub data Execution (world : VerbWorld) : Type 0 where
  does_nothing : Execution world
  sets_use_flag : UseFlag → ℕ → Execution world
  starts : Command → Sentence world → Execution world

unfoldable pub needs_reach_anim : ℕ → Bool
needs_reach_anim verb =
    verb == pickup || verb == 5 || verb == 6 || verb == 7 || verb == 8 || verb == use_verb

-- `useFlags`
unfoldable pub use_flag_of : ℕ → Option UseFlag
use_flag_of flags =
    if has_bit flags 1
    then some UseFlag.use_with
    else if has_bit flags 2
    then some UseFlag.use_on
    else if has_bit flags 5
    then some UseFlag.use_in
    else none

module _ (world : VerbWorld) where
  open world use {
    World, exists, inherits, ask, current_actor, is_object, is_inventory_object, flags,
    default_verb, verb_of, walk_to,
  }

  -- `getVerb`
  unfoldable pub get_verb : ℕ → Option Verb → World → Option Verb
  get_verb object (some verb) w = verb_of verb.id w
  get_verb object none w =
      if default_verb object w == 0 then none else verb_of (default_verb object w) w

  -- `needsToWalkTo`; a verb that looks at something far does not.
  unfoldable pub needs_to_walk_to : ℕ → Option ℕ → World → Option ℕ
  needs_to_walk_to verb none w = none
  needs_to_walk_to verb (some o) w =
      if verb == look_at && has_bit (flags o w) 3
      then none
      else if is_inventory_object o w
      then none
      else some o

  -- `callObjectOrActorPreWalk`
  unfoldable pub call_pre_walk : ℕ → ℕ → Option ℕ → World → Bool × World
  call_pre_walk verb object1 object2 w =
      let actor = current_actor w in
      let (handled, v) =
        if exists actor (codes "actorPreWalk") w
        then ask actor (codes "actorPreWalk") verb object1 object2 w
        else (false, w) in
      let name = if is_object object1 then codes "objectPreWalk" else codes "actorPreWalk" in
      if handled
      then (true, v)
      else if exists (some object1) name v
      then ask (some object1) name verb object1 object2 v
      else (false, v)

  -- The constructor of `ReachAnim`.
  unfoldable pub new_reach_anim : ℕ → VerbFunction world
  new_reach_anim flags =
      if has_bit flags 15
      then reach_anim (some high) ReachState.begins 0
      else if has_bit flags 16
      then reach_anim (some medium) ReachState.begins 0
      else if has_bit flags 17
      then reach_anim (some low) ReachState.begins 0
      else reach_anim none ReachState.stands 0

  -- The functions of the walk, whose constructor lets the actor go.
  unfoldable pub walk_functions : ℕ → Option ℕ → World → List (VerbFunction world) × World
  walk_functions actor none w = ([], w)
  walk_functions actor (some o) w =
      let ((end_of_path, is_destination), v) = walk_to actor o w in
      (actor_walk end_of_path is_destination false ∷ post_walk false ∷ [], v)

  unfoldable pub reach_functions : Verb → ℕ → World → List (VerbFunction world)
  unfolding needs_reach_anim new_reach_anim
  reach_functions verb object1 w =
      if needs_reach_anim verb.id && inherits (some object1) verb.func w
      then new_reach_anim (flags object1 w) ∷ []
      else []

  abbrev last_functions : List (VerbFunction world)
  last_functions = verb_execute false ∷ set_default_verb false ∷ []

  -- What the functions of the sentence know.
  unfoldable pub command_of : Verb → ℕ → ℕ → Option ℕ → Option ℕ → Command
  command_of verb actor object1 object2 goal = record {
    actor = actor;
    object1 = object1;
    object2 = object2;
    verb = verb;
    walk_object = elim goal [ none ↦ object1 | some o ↦ o ];
  }

  -- The object to walk to, where there is one.
  unfoldable pub goal_of : Verb → ℕ → Option ℕ → World → Option ℕ
  unfolding needs_to_walk_to
  goal_of verb object1 object2 w =
      needs_to_walk_to verb.id
        (if verb.id == use_verb || verb.id == give then object2 else some object1) w

  -- The sentence, once nothing else is to be done.
  unfoldable pub make_sentence : Verb → ℕ → ℕ → Option ℕ → World → Execution world × World
  unfolding goal_of command_of walk_functions reach_functions
  make_sentence verb actor object1 object2 w =
      let goal = goal_of verb object1 object2 w in
      let (walk, v) = walk_functions actor goal w in
      (
        starts (command_of verb actor object1 object2 goal) (record {
          functions = walk ++ (reach_functions verb object1 v ++ last_functions);
          stopped = false;
        }),
        v,
      )

  -- Where the scripts did not handle the verb, and there is a current actor.
  unfoldable pub after_pre_walk :
      Bool → Option ℕ → Verb → ℕ → Option ℕ → World → Execution world × World
  unfolding make_sentence
  after_pre_walk true actor verb object1 object2 w = (does_nothing, w)
  after_pre_walk false none verb object1 object2 w = (does_nothing, w)
  after_pre_walk false (some actor) verb object1 object2 w =
      make_sentence verb actor object1 object2 w

  unfoldable pub pre_walk_then : Verb → ℕ → Option ℕ → World → Execution world × World
  unfolding call_pre_walk after_pre_walk
  pre_walk_then verb object1 object2 w =
      let (handled, v) = call_pre_walk verb.id object1 object2 w in
      after_pre_walk handled (current_actor v) verb object1 object2 v

  -- The second object that a verb still asks for, as a flag.
  unfoldable pub asks_for : Verb → ℕ → Option ℕ → World → Option UseFlag
  unfolding use_flag_of
  asks_for verb object1 (some o) w = none
  asks_for verb object1 none w =
      if verb.id == give
      then some UseFlag.give_to
      else if verb.id == use_verb
      then use_flag_of (flags object1 w)
      else none

  -- `execute` of a verb that is there.
  unfoldable pub execute_with : Verb → ℕ → Option ℕ → World → Execution world × World
  unfolding asks_for pre_walk_then
  execute_with verb object1 object2 w =
      let second = if verb.id == talk_to then current_actor w else object2 in
      elim (asks_for verb object1 second w) [
        | some flag ↦ (sets_use_flag flag object1, w)
        | none ↦ pre_walk_then verb object1 second w
      ]

  -- `execute`
  unfoldable pub execute : Option Verb → ℕ → Option ℕ → World → Execution world × World
  unfolding get_verb execute_with
  execute verb object1 object2 w = elim (get_verb object1 verb w) [
    | none ↦ (does_nothing, w)
    | some v ↦ execute_with v object1 object2 w
  ]
