-- ===== src/Examples/Talks.antt =====
-- The theorem on the lines that an entity says, at three lines without a voice.
use engge.Base.{ℕ, ◌+◌, true, false, none, List, [], ◌∷◌, codes, ltb, length}
use engge.Entities.LipAnimation.{Clock}
use engge.Entities.TalkingState.{TalkWorld, TalkingState}
use engge.Entities.TalkingState.Order.{Call, says, updates}

abbrev seconds : Clock
seconds = record { TimeSpan = ℕ; no_time = 0; plus = λ a b. a + b; greater = λ a b. ltb b a }

-- The world counts the lines that were said.
abbrev sign : TalkWorld seconds
sign = record {
  World = ℕ;
  is_actor = false;
  parse_id = length;
  talkie_id = λ id w. (id, w);
  text_of = λ id w. codes "Keep out";
  talkie_key = λ w. codes "SIGN";
  has_entry = λ path. false;
  lip_of = λ path. [];
  set_costume_state = λ anim w. w;
  hears_voice = λ w. false;
  text_time = λ n w. n;
  saying_line = λ anim text w. w + 1;
  play_talk = λ name w. (none, w);
  is_playing = λ id w. none;
  stop_sound = λ id w. w;
}

abbrev silent : TalkingState seconds
silent = record {
  is_talking = false;
  say_text = [];
  elapsed = 0;
  duration = 0;
  lip = record { lip = []; index = 0; elapsed = 0; head_index = none };
  sound_id = 0;
  ids = [];
}

abbrev talk : List (Call seconds)
talk =
    says (codes "@12") false
    ∷ says (codes "@123") false
    ∷ updates 3
    ∷ updates 9
    ∷ says (codes "@1") true
    ∷ updates 9
    ∷ []
