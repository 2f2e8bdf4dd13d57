-- ===== src/Examples/Sounds.antt =====
-- The theorems on sounds at a mixer whose sounds play until they are stopped.
use engge.Base.{ℕ, ◌≡◌, refl, Bool, true, false, none, some, [], ◌∷◌, codes, length}
use engge.Dialog.Ast.{pos}
use engge.Engine.EntityManager.{new_entity_manager, get_sound_id}
use engge.Audio.SoundManager.{
  SoundCategory, Mixer, SoundDefinition, SoundId, SoundManager, new_sound_manager, is_playing,
  is_free, define_sound, play, play_sound_id, update_volume, get_slot_index, stop_sound_definition,
  set_volume,
}
use engge.Audio.SoundManager.Apart.{Call, make, make_all}
use engge.Audio.SoundManager.Identity.{stop_sound_definition-same}
use engge.Audio.SoundManager.Slots.{IsPlayingAt, IsFull, play-keeps_playing, play-IsFull}

-- A sound is whether it plays, and a volume is a number.
abbrev bells : Mixer
bells = record {
  Sound = Bool;
  Volume = ℕ;
  one = 1;
  clamp = λ v. v;
  new_sound = false;
  set_loop = λ on s. s;
  get_loop = λ s. false;
  has_status_playing = λ s. s;
  play = λ s. true;
  stop = λ s. false;
  pause = λ s. false;
  gain = λ a b c e s. s;
}

abbrev door : SoundDefinition
door = record { id = 200000; path = codes "door.wav" }

stop_sound_definition-same_example :
    (stop_sound_definition door (
        make_all
          (Call.defines (λ n. true) (codes "door.wav")
            ∷ Call.plays 200000 SoundCategory.sound (pos 1) 0
            ∷ [])
          (new_sound_manager {mixer = bells} new_entity_manager))
      ≡ make_all
          (Call.defines (λ n. true) (codes "door.wav")
            ∷ Call.plays 200000 SoundCategory.sound (pos 1) 0
            ∷ [])
          (new_sound_manager {mixer = bells} new_entity_manager))
    × (set_volume door 0 (
          make_all
            (Call.defines (λ n. true) (codes "door.wav")
              ∷ Call.plays 200000 SoundCategory.sound (pos 1) 0
              ∷ [])
            (new_sound_manager {mixer = bells} new_entity_manager))
        ≡ make_all
            (Call.defines (λ n. true) (codes "door.wav")
              ∷ Call.plays 200000 SoundCategory.sound (pos 1) 0
              ∷ [])
            (new_sound_manager {mixer = bells} new_entity_manager))
unfolding make_all make new_sound_manager new_entity_manager define_sound get_sound_id play
    get_slot_index is_free is_playing play_sound_id update_volume
stop_sound_definition-same_example =
    stop_sound_definition-same new_entity_manager
      (Call.defines (λ n. true) (codes "door.wav")
        ∷ Call.plays 200000 SoundCategory.sound (pos 1) 0
        ∷ [])
      door 0 0 refl

abbrev ringing : SoundId bells
ringing = record {
  id = 200001;
  definition = 200000;
  category = SoundCategory.sound;
  volume = 1;
  loop_times = pos 1;
  entity_id = 0;
  sound = true;
}

-- Two slots, and a sound plays in the first.
abbrev two_slots : SoundManager bells
two_slots = record {
  sounds = door ∷ [];
  sound_ids = some ringing ∷ none ∷ [];
  master_volume = 1;
  sound_volume = 1;
  music_volume = 1;
  talk_volume = 1;
  entities = record new_entity_manager { sound_id = 2 };
}

play-keeps_playing_example :
    IsPlayingAt (play 200000 SoundCategory.talk (pos 1) 0 two_slots).1.sound_ids 0 ringing
    × (length (play 200000 SoundCategory.talk (pos 1) 0 two_slots).1.sound_ids ≡ 2)
unfolding is_playing
play-keeps_playing_example =
    play-keeps_playing 200000 SoundCategory.talk (pos 1) 0 two_slots 0 ringing (refl, refl)

abbrev one_slot : SoundManager bells
one_slot = record two_slots { sound_ids = some ringing ∷ [] }

play-IsFull_example :
    IsFull one_slot.sound_ids
    × ((play 200000 SoundCategory.talk (pos 1) 0 one_slot).1.sound_ids ≡ one_slot.sound_ids)
unfolding play get_sound_id get_slot_index is_free is_playing
play-IsFull_example = play-IsFull 200000 SoundCategory.talk (pos 1) 0 one_slot refl
