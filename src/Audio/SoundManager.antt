-- ===== src/Audio/SoundManager.antt =====
-- `SoundManager`, `SoundId` and `SoundDefinition` (include/engge/Audio, src/Audio): the slots of the
-- sounds that are played. A pointer to a sound or to a definition is its identifier. The sounds of
-- SFML, and volumes, are parameters. Loading buffers and fading are left out.
pub mod Apart
pub mod Identity
pub mod Slots
use engge.Base.{
  ℕ, zero, suc, ◌-◌, Bool, true, false, not, ◌||◌, ◌&&◌, Option, none, some, List, [], ◌∷◌, ◌++◌,
  Bytes, map, ltb, leb, ◌==◌, if◌then◌else◌, length, get_elem?, set,
}
use engge.Dialog.Ast.{ℤ, pos, negsuc}
use engge.Engine.EntityManager.{EntityManager, get_sound_id}

pub data SoundCategory : Type 0 where
  music sound talk : SoundCategory

-- `sf::Sound` and `float` volumes. `gain` is what `updateVolume` makes of the volumes of the manager,
-- of the sound and of its category, and of the entity that sounds.
pub record Mixer : Type 1 where
  pub Sound : Type 0
  pub Volume : Type 0
  pub one : Volume
  pub clamp : Volume → Volume
  pub new_sound : Sound
  pub set_loop : Bool → Sound → Sound
  pub get_loop : Sound → Bool
  pub has_status_playing : Sound → Bool
  pub play : Sound → Sound
  pub stop : Sound → Sound
  pub pause : Sound → Sound
  pub gain : Volume → Volume → Volume → ℕ → Sound → Sound

pub record SoundDefinition : Type 0 where
  pub id : ℕ
  pub path : Bytes

pub record SoundId (mixer : Mixer) : Type 0 where
  pub id : ℕ
  pub definition : ℕ
  pub category : SoundCategory
  pub volume : Mixer.Volume mixer
  pub loop_times : ℤ
  pub entity_id : ℕ
  pub sound : Mixer.Sound mixer

-- The identifiers are those of the one `EntityManager`.
pub record SoundManager (mixer : Mixer) : Type 0 where
  pub sounds : List SoundDefinition
  pub sound_ids : List (Option (SoundId mixer))
  pub master_volume : Mixer.Volume mixer
  pub sound_volume : Mixer.Volume mixer
  pub music_volume : Mixer.Volume mixer
  pub talk_volume : Mixer.Volume mixer
  pub entities : EntityManager

-- `loopTimes == -1`
abbrev pub is_endless : ℤ → Bool
is_endless (pos n) = false
is_endless (negsuc n) = n == 0

abbrev pub repeat_none {ℓ} : {A : Type ℓ} → ℕ → List (Option A)
repeat_none zero = []
repeat_none (suc n) = none ∷ repeat_none n

module _ {mixer : Mixer} where
  open mixer use {
    Sound, Volume, one, clamp, new_sound, set_loop, get_loop, has_status_playing, gain,
  }

  unfoldable pub new_sound_manager : EntityManager → SoundManager mixer
  new_sound_manager entities = record {
    sounds = [];
    sound_ids = repeat_none 32;
    master_volume = one;
    sound_volume = one;
    music_volume = one;
    talk_volume = one;
    entities = entities;
  }

  unfoldable pub is_playing : SoundId mixer → Bool
  is_playing s = get_loop s.sound || has_status_playing s.sound

  abbrev pub category_volume : SoundCategory → SoundManager mixer → Volume
  category_volume SoundCategory.music m = m.music_volume
  category_volume SoundCategory.sound m = m.sound_volume
  category_volume SoundCategory.talk m = m.talk_volume

  unfoldable pub update_volume : SoundManager mixer → SoundId mixer → SoundId mixer
  update_volume m s = record s {
    sound = gain m.master_volume s.volume (category_volume s.category m) s.entity_id s.sound;
  }

  -- `SoundId::play`
  unfoldable pub play_sound_id : SoundManager mixer → ℤ → SoundId mixer → SoundId mixer
  unfolding update_volume
  play_sound_id m loop_times s =
      let looped = record s {
        loop_times = loop_times;
        sound = set_loop (is_endless loop_times) s.sound;
      } in
      let loud = update_volume m looped in record loud { sound = Mixer.play mixer loud.sound }

  -- `SoundId::update`: the sound that goes on, or `none` where it is stopped. A sound that is to be
  -- played more than once starts again.
  unfoldable pub update_sound_id : SoundManager mixer → SoundId mixer → Option (SoundId mixer)
  unfolding update_volume is_playing
  update_sound_id m s =
      let loud = update_volume m s in
      if is_playing loud then some loud else elim loud.loop_times [
        | negsuc n ↦ none
        | pos n ↦
            if ltb 1 n
            then some
                (record loud { loop_times = pos (n - 1); sound = Mixer.play mixer loud.sound })
            else none
      ]

  unfoldable pub get_sound : ℕ → SoundManager mixer → Option (SoundId mixer)
  get_sound index m =
      if ltb index 1 || ltb (length m.sound_ids) index
      then none
      else elim (get_elem? m.sound_ids (index - 1)) [ none ↦ none | some s ↦ s ]

  -- The slot is null, or its sound is not playing.
  unfoldable pub is_free : Option (SoundId mixer) → Bool
  unfolding is_playing
  is_free none = true
  is_free (some s) = not (is_playing s)

  -- `getSlotIndex`, where `none` is -1.
  unfoldable pub get_slot_index : List (Option (SoundId mixer)) → Option ℕ
  unfolding is_free
  get_slot_index [] = none
  get_slot_index (s ∷ ss) =
      let rest = get_slot_index ss in
      if is_free s then some 0 else elim rest [ none ↦ none | some i ↦ some (suc i) ]

  -- `defineSound`; `has_entry` asks the settings for the file.
  unfoldable pub define_sound :
      (Bytes → Bool) → Bytes → SoundManager mixer → Option ℕ × SoundManager mixer
  define_sound has_entry name m =
      if not (has_entry name)
      then (none, m)
      else let (id, entities) = get_sound_id m.entities in
        (
          some id,
          record m {
            sounds = m.sounds ++ record { id = id; path = name } ∷ [];
            entities = entities;
          },
        )

  -- `play` of the manager: the sound takes its identifier before a slot is looked for.
  unfoldable pub play :
      ℕ → SoundCategory → ℤ → ℕ → SoundManager mixer → Option ℕ × SoundManager mixer
  unfolding play_sound_id get_slot_index
  play definition category loop_times entity m =
      let (id, entities) = get_sound_id m.entities in
      let n = record m { entities = entities } in
      let made : SoundId mixer = record {
        id = id;
        definition = definition;
        category = category;
        volume = one;
        loop_times = pos 0;
        entity_id = entity;
        sound = new_sound;
      } in
      elim (get_slot_index m.sound_ids) [
        | none ↦ (none, n)
        | some i ↦ (
          some id,
          record n { sound_ids = set m.sound_ids i (some (play_sound_id n loop_times made)) },
        )
      ]

  unfoldable pub stop_all_sounds : SoundManager mixer → SoundManager mixer
  stop_all_sounds m = record m { sound_ids = map (λ s. none) m.sound_ids }

  abbrev pub has_id : ℕ → Option (SoundId mixer) → Bool
  has_id id none = false
  has_id id (some s) = s.id == id

  -- The first slot that holds the sound is reset.
  unfoldable pub reset_slot : ℕ → List (Option (SoundId mixer)) → List (Option (SoundId mixer))
  reset_slot id [] = []
  reset_slot id (s ∷ ss) =
      let rest = reset_slot id ss in if has_id id s then none ∷ ss else s ∷ rest

  -- `stopSound(SoundId *)`
  unfoldable pub stop_sound : ℕ → SoundManager mixer → SoundManager mixer
  unfolding reset_slot
  stop_sound id m = record m { sound_ids = reset_slot id m.sound_ids }

  -- The loops over the indices from `i` on, `n` of them, which compare the identifier of the
  -- definition with that of the sound.
  unfoldable pub stop_from : ℕ → ℕ → SoundDefinition → SoundManager mixer → SoundManager mixer
  unfolding get_sound stop_sound
  stop_from zero i d m = m
  stop_from (suc n) i d m = elim (get_sound i m) [
    | none ↦ stop_from n (suc i) d m
    | some s ↦ stop_from n (suc i) d (if d.id == s.id then stop_sound s.id m else m)
  ]

  -- `stopSound(const SoundDefinition *)`
  unfoldable pub stop_sound_definition : SoundDefinition → SoundManager mixer → SoundManager mixer
  unfolding stop_from
  stop_sound_definition d m = stop_from (length m.sound_ids) 1 d m

  abbrev pub set_volume_of : ℕ → Volume → Option (SoundId mixer) → Option (SoundId mixer)
  set_volume_of id volume none = none
  set_volume_of id volume (some s) = some (if id == s.id then record s { volume = volume } else s)

  -- `setVolume` of the manager
  unfoldable pub set_volume : SoundDefinition → Volume → SoundManager mixer → SoundManager mixer
  set_volume d volume m = record m {
    sound_ids = map (set_volume_of d.id (clamp volume)) m.sound_ids;
  }

  abbrev pub on_sound : (Sound → Sound) → Option (SoundId mixer) → Option (SoundId mixer)
  on_sound f none = none
  on_sound f (some s) = some (record s { sound = f s.sound })

  abbrev pub update_slot : SoundManager mixer → Option (SoundId mixer) → Option (SoundId mixer)
  update_slot m none = none
  update_slot m (some s) = update_sound_id m s

  unfoldable pub update : SoundManager mixer → SoundManager mixer
  unfolding update_sound_id
  update m = record m { sound_ids = map (update_slot m) m.sound_ids }

  unfoldable pub pause_all_sounds : SoundManager mixer → SoundManager mixer
  pause_all_sounds m = record m { sound_ids = map (on_sound (Mixer.pause mixer)) m.sound_ids }

  unfoldable pub resume_all_sounds : SoundManager mixer → SoundManager mixer
  resume_all_sounds m = record m { sound_ids = map (on_sound (Mixer.play mixer)) m.sound_ids }

  unfoldable pub set_master_volume : Volume → SoundManager mixer → SoundManager mixer
  set_master_volume volume m = record m { master_volume = clamp volume }

  unfoldable pub set_sound_volume : Volume → SoundManager mixer → SoundManager mixer
  set_sound_volume volume m = record m { sound_volume = clamp volume }

  unfoldable pub set_music_volume : Volume → SoundManager mixer → SoundManager mixer
  set_music_volume volume m = record m { music_volume = clamp volume }

  unfoldable pub set_talk_volume : Volume → SoundManager mixer → SoundManager mixer
  set_talk_volume volume m = record m { talk_volume = clamp volume }
