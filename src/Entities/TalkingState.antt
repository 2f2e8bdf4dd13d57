-- ===== src/Entities/TalkingState.antt =====
-- `TalkingState` (src/Entities/Actor/TalkingState.cpp) of one entity: the line that it says, and those that
-- wait. What draws the line is left out. An `int` is its 32 bits.
pub mod Order
use engge.Base.{
  ℕ, Bool, true, false, not, ◌&&◌, ◌||◌, Option, none, some, List, [], ◌∷◌, ◌++◌, Bytes, bytes_eq,
  codes, ltb, ◌==◌, if◌then◌else◌, length,
}
use engge.Base.Outcome.{Outcome, done, ◌>>=◌}
use engge.Dialog.Ast.{pos}
use engge.Engine.SavedDialogs.{print_line, split_while}
use engge.Entities.LipAnimation.{Clock, NgLipData, LipAnimation, load, clear, set_actor, end_talk}
use engge.Entities.LipAnimation as Lip

-- `parse_id` is `strtol` of a text from its second unit on; `talkie_id` calls the script `onTalkieID`;
-- `talkie_key` is the key of the entity in upper case; `lip_of` reads a file of lips; `text_time` is the
-- time for a text of that length; `play_talk` gives the sound that is played, and `is_playing` says of a
-- sound whether it is one, and plays.
pub record TalkWorld (clock : Clock) : Type 1 where
  pub World : Type 0
  pub is_actor : Bool
  pub parse_id : Bytes → ℕ
  pub talkie_id : ℕ → World → ℕ × World
  pub text_of : ℕ → World → Bytes
  pub talkie_key : World → Bytes
  pub has_entry : Bytes → Bool
  pub lip_of : Bytes → List (NgLipData clock)
  pub set_costume_state : Bytes → World → World
  pub hears_voice : World → Bool
  pub text_time : ℕ → World → Clock.TimeSpan clock
  pub saying_line : Option Bytes → Bytes → World → World
  pub play_talk : Bytes → World → Option ℕ × World
  pub is_playing : ℕ → World → Option Bool
  pub stop_sound : ℕ → World → World

-- A line that waits.
pub record Line : Type 0 where
  pub id : ℕ
  pub text : Bytes
  pub mumble : Bool

pub record TalkingState (clock : Clock) : Type 0 where
  pub is_talking : Bool
  pub say_text : Bytes
  pub elapsed : Clock.TimeSpan clock
  pub duration : Clock.TimeSpan clock
  pub lip : LipAnimation clock
  pub sound_id : ℕ
  pub ids : List Line

-- The search for an animation in braces: its name, and the text behind it.
unfoldable pub find_braces : Bytes → Option (Bytes × Bytes)
unfolding split_while
find_braces text = elim (split_while (λ c. not (c == b'{')) text).1 [
  | [] ↦ none
  | c ∷ rest ↦
      let (anim, behind) = split_while (λ d. not (d == b'}')) rest in
      elim behind [ [] ↦ none | d ∷ suffix ↦ some (anim, suffix) ]
]

abbrev or_null : Bytes → Option Bytes
or_null [] = none
or_null (c ∷ cs) = some (c ∷ cs)

-- `getDuration` of `LipAnimation`
unfoldable pub lip_duration : {clock : Clock} → List (NgLipData clock) → Clock.TimeSpan clock
lip_duration {clock = clock} [] = Clock.no_time clock
lip_duration (d ∷ ds) = let rest = lip_duration ds in elim ds [ [] ↦ d.time | e ∷ es ↦ rest ]

module _ {clock : Clock} (world : TalkWorld clock) where
  open world use {
    World, is_actor, parse_id, talkie_id, text_of, talkie_key, has_entry, lip_of, set_costume_state,
    hears_voice, text_time, saying_line, play_talk, is_playing, stop_sound,
  }

  -- `setDuration`
  unfoldable pub set_duration : Clock.TimeSpan clock → TalkingState clock → TalkingState clock
  set_duration duration s = record s {
    is_talking = true;
    duration = duration;
    elapsed = Clock.no_time clock;
  }

  -- The animation of a line, its text, whether it mumbles, and the world.
  unfoldable pub take_animation : Bytes → Bool → World → Bytes × Bytes × Bool × World
  unfolding find_braces
  take_animation text mumble w = elim (find_braces text) [
    | none ↦ ([], text, mumble, w)
    | some (anim, suffix) ↦
        if not is_actor || bytes_eq anim (codes "notalk")
        then (anim, suffix, true, w)
        else (anim, suffix, mumble, set_costume_state anim w)
  ]

  -- The actor of the lips, whose costume shows the first head before.
  unfoldable pub take_actor : LipAnimation clock → LipAnimation clock
  take_actor l =
      if is_actor then elim l.head_index [ none ↦ set_actor (pos 0) l | some head ↦ l ] else l

  unfoldable pub load_lips : Bytes → Bool → LipAnimation clock → Outcome (LipAnimation clock)
  unfolding take_actor
  load_lips path mumble l =
      if is_actor && not (mumble || not (has_entry path))
      then load (lip_of path) (take_actor l)
      else done (clear (take_actor l))

  -- `loadActorSpeech`
  unfoldable pub load_actor_speech :
      Bytes → Bool → TalkingState clock → World → TalkingState clock × World
  load_actor_speech name hear_voice s w =
      let (sound, v) = play_talk name w in
      if not hear_voice
      then (s, w)
      else elim sound [ none ↦ (s, v) | some id ↦ (record s { sound_id = id }, v) ]

  -- `loadId`
  unfoldable pub load_id : Line → TalkingState clock → World → Outcome (TalkingState clock × World)
  unfolding print_line take_animation load_lips lip_duration set_duration load_actor_speech
  load_id line s w =
      let (id, v) = talkie_id line.id w in
      let say_text = if id == 0 then line.text else text_of id v in
      let name = talkie_key v ++ (b'_' ∷ print_line id) in
      let (anim, shown, mumble, u) = take_animation say_text line.mumble v in
      load_lips (name ++ codes ".lip") mumble s.lip >>= λ lip.
      let hear_voice = not (id == 0) && hears_voice u in
      let duration = if hear_voice then lip_duration lip.lip else text_time (length shown) u in
      done (
        load_actor_speech name hear_voice
          (set_duration duration (record s { say_text = shown; lip = lip }))
          (saying_line (or_null anim) shown u))

  -- What a call comes to: the lines that it loaded, the state and the world.
  abbrev pub Talk : Type 0
  Talk = List Line × TalkingState clock × World

  unfoldable pub update_lip :
      List Line → TalkingState clock → World → Clock.TimeSpan clock → Outcome Talk
  update_lip loaded s w e = Lip.update e s.lip >>= λ lip. done (loaded, record s { lip = lip }, w)

  -- The line is over.
  unfoldable pub is_over : TalkingState clock → World → Bool
  is_over s w = elim (is_playing s.sound_id w) [
    | none ↦ Clock.greater clock s.elapsed s.duration
    | some playing ↦ not playing
  ]

  -- `update`
  unfoldable pub update : Clock.TimeSpan clock → TalkingState clock → World → Outcome Talk
  unfolding load_id update_lip is_over
  update e s w =
      let waited = record s { elapsed = Clock.plus clock s.elapsed e } in
      if not s.is_talking
      then done ([], s, w)
      else if not (is_over waited w)
      then update_lip [] waited w e
      else elim s.ids [
        | [] ↦ done ([], record waited { is_talking = false; lip = end_talk s.lip }, w)
        | line ∷ rest ↦ load_id line waited w >>= λ loaded.
            update_lip (line ∷ []) (record loaded.0 { ids = rest }) loaded.1 e
      ]

  -- `stop`
  unfoldable pub stop : TalkingState clock → World → TalkingState clock × World
  stop s w =
      let silent = record s { ids = []; is_talking = false } in
      if s.sound_id == 0 then (silent, w) else (
        record silent { sound_id = 0 },
        elim (is_playing s.sound_id w) [ none ↦ w | some playing ↦ stop_sound s.sound_id w ],
      )

  -- `loadLip`
  unfoldable pub load_lip : Bytes → Bool → TalkingState clock → World → Outcome Talk
  unfolding load_id
  load_lip text mumble s w =
      let line : Line = record { id = parse_id text; text = text; mumble = mumble } in
      if s.is_talking
      then done ([], record s { ids = s.ids ++ line ∷ [] }, w)
      else (load_id line s w >>= λ loaded. done (line ∷ [], loaded.0, loaded.1))
