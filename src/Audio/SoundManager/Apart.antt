-- ===== src/Audio/SoundManager/Apart.antt =====
-- The calls on the manager, and the one counter that gives sounds and definitions their identifiers.
use engge.Base.{
  ℕ, zero, suc, ◌+◌, ◌<◌, ◌≡◌, ◌≢◌, refl, subst, inl, inr, Bool, Option, none, some, List, [], ◌∷◌,
  ◌++◌, Bytes, map, ◌==◌, length, All, All-set, All-append, arith, Bool-cases, Option-cases,
}
use engge.Dialog.Ast.{ℤ}
use engge.Engine.EntityManager.{EntityManager, get_sound_id, start_id, Kind}
use engge.Audio.SoundManager.{
  SoundCategory, Mixer, SoundDefinition, SoundId, SoundManager, repeat_none, new_sound_manager,
  update_volume, play_sound_id, update_sound_id, get_sound, get_slot_index, define_sound, play,
  stop_all_sounds, reset_slot, has_id, stop_sound, stop_from, stop_sound_definition, set_volume_of,
  set_volume, on_sound, update_slot, update, pause_all_sounds, resume_all_sounds,
}

-- What is called on the manager; between the calls the sounds of the mixer may go on.
pub data Call (mixer : Mixer) : Type 0 where
  defines : (has_entry : Bytes → Bool) → (name : Bytes) → Call mixer
  plays :
      (definition : ℕ) → (category : SoundCategory) → (loop_times : ℤ) → (entity : ℕ) → Call mixer
  stops : (id : ℕ) → Call mixer
  stops_definition : (d : SoundDefinition) → Call mixer
  sets_volume : (d : SoundDefinition) → (volume : Mixer.Volume mixer) → Call mixer
  stops_all updates pauses resumes : Call mixer
  goes_on : (f : Mixer.Sound mixer → Mixer.Sound mixer) → Call mixer

-- The identifier that a sound or a definition gets next.
abbrev pub next_id : {mixer : Mixer} → SoundManager mixer → ℕ
next_id m = start_id Kind.sound + m.entities.sound_id

-- The slot is null, or its sound has an identifier below `n` that is none of the definitions'.
abbrev pub IsApart : {mixer : Mixer} → List SoundDefinition → ℕ → Option (SoundId mixer) → Type 0
IsApart ds n none = Unit
IsApart ds n (some s) = (s.id < n) × All (λ d. d.id ≢ s.id) ds

pub record AreApart {mixer : Mixer} (m : SoundManager mixer) : Type 0 where
  pub defined : All (λ d. d.id < next_id m) m.sounds
  pub apart : All (IsApart m.sounds (next_id m)) m.sound_ids

defined-suc :
    (n : ℕ) (ds : List SoundDefinition) → All (λ d. d.id < n) ds → All (λ d. d.id < suc n) ds
defined-suc n [] h = tt
defined-suc n (d ∷ ds) h = (omega (arith, h.0), defined-suc n ds h.1)

ne_of_lt : (n : ℕ) (ds : List SoundDefinition) → All (λ d. d.id < n) ds → All (λ d. d.id ≢ n) ds
ne_of_lt n [] h = tt
ne_of_lt n (d ∷ ds) h = ((λ e. absurd (omega (arith, h.0))), ne_of_lt n ds h.1)

repeat_none-IsApart :
    (mixer : Mixer) (k : ℕ) (ds : List SoundDefinition) (n : ℕ)
    → All (IsApart {mixer = mixer} ds n) (repeat_none k)
repeat_none-IsApart mixer zero ds n = tt
repeat_none-IsApart mixer (suc k) ds n = (tt, repeat_none-IsApart mixer k ds n)

module _ {mixer : Mixer} where
  unfoldable pub make : Call mixer → SoundManager mixer → SoundManager mixer
  unfolding define_sound play stop_sound stop_sound_definition set_volume
  make (Call.defines has_entry name) m = (define_sound has_entry name m).1
  make (Call.plays d c l e) m = (play d c l e m).1
  make (Call.stops id) m = stop_sound id m
  make (Call.stops_definition d) m = stop_sound_definition d m
  make (Call.sets_volume d volume) m = set_volume d volume m
  make Call.stops_all m = stop_all_sounds m
  make Call.updates m = update m
  make Call.pauses m = pause_all_sounds m
  make Call.resumes m = resume_all_sounds m
  make (Call.goes_on f) m = record m { sound_ids = map (on_sound f) m.sound_ids }

  unfoldable pub make_all : List (Call mixer) → SoundManager mixer → SoundManager mixer
  unfolding make
  make_all [] m = m
  make_all (c ∷ cs) m = make_all cs (make c m)

  -- A change of every slot that drops sounds or keeps their identifiers.
  abbrev Keeps : (Option (SoundId mixer) → Option (SoundId mixer)) → Type 0
  Keeps f =
      (ds : List SoundDefinition) (n : ℕ) (s : Option (SoundId mixer))
      → IsApart ds n s
      → IsApart ds n (f s)

  map-IsApart :
      (f : Option (SoundId mixer) → Option (SoundId mixer)) (ds : List SoundDefinition) (n : ℕ)
      (ss : List (Option (SoundId mixer)))
      → Keeps f
      → All (IsApart ds n) ss
      → All (IsApart ds n) (map f ss)
  map-IsApart f ds n [] k h = tt
  map-IsApart f ds n (s ∷ ss) k h = (k ds n s h.0, map-IsApart f ds n ss k h.1)

  on_sound-Keeps : (f : Mixer.Sound mixer → Mixer.Sound mixer) → Keeps (on_sound f)
  on_sound-Keeps f ds n none h = tt
  on_sound-Keeps f ds n (some s) h = h

  set_volume_of-Keeps : (id : ℕ) (v : Mixer.Volume mixer) → Keeps (set_volume_of id v)
  set_volume_of-Keeps id v ds n none h = tt
  set_volume_of-Keeps id v ds n (some s) h = elim (Bool-cases (id == s.id)) [
    | inl e ↦ rw e h
    | inr e ↦ rw e h
  ]

  update_slot-Keeps : (m : SoundManager mixer) → Keeps (update_slot m)
  unfolding update_sound_id update_volume
  update_slot-Keeps m ds n none h = tt
  update_slot-Keeps m ds n (some s) h = ground arith

  reset_slot-IsApart :
      (id : ℕ) (ds : List SoundDefinition) (n : ℕ) (ss : List (Option (SoundId mixer)))
      → All (IsApart ds n) ss
      → All (IsApart ds n) (reset_slot id ss)
  unfolding reset_slot
  reset_slot-IsApart id ds n [] h = tt
  reset_slot-IsApart id ds n (s ∷ ss) h = elim (Bool-cases (has_id id s)) [
    | inl e ↦ rw e (tt, h.1)
    | inr e ↦ rw e (h.0, reset_slot-IsApart id ds n ss h.1)
  ]

  stop_sound-AreApart : (id : ℕ) (m : SoundManager mixer) → AreApart m → AreApart (stop_sound id m)
  unfolding stop_sound
  stop_sound-AreApart id m h = record {
    defined = h.defined;
    apart = reset_slot-IsApart id m.sounds (next_id m) m.sound_ids h.apart;
  }

  stop_from-AreApart :
      (n i : ℕ) (d : SoundDefinition) (m : SoundManager mixer)
      → AreApart m
      → AreApart (stop_from n i d m)
  unfolding stop_from
  stop_from-AreApart zero i d m h = h
  stop_from-AreApart (suc n) i d m h = elim (Option-cases (get_sound i m)) [
    | inl e ↦ rw (e, stop_from) (stop_from-AreApart n (suc i) d m h)
    | inr (s, e) ↦
        rw (e, stop_from)
          (stop_from-AreApart n (suc i) d _ (elim (Bool-cases (d.id == s.id)) [
            | inl f ↦ rw f (stop_sound-AreApart s.id m h)
            | inr f ↦ rw f h
          ]))
  ]

  map-AreApart :
      (f : Option (SoundId mixer) → Option (SoundId mixer)) (m : SoundManager mixer)
      → Keeps f
      → AreApart m
      → AreApart (record m { sound_ids = map f m.sound_ids })
  map-AreApart f m k h = record {
    defined = h.defined;
    apart = map-IsApart f m.sounds (next_id m) m.sound_ids k h.apart;
  }

  -- One identifier more.
  IsApart-suc :
      (ds : List SoundDefinition) (n : ℕ) (ss : List (Option (SoundId mixer)))
      → All (IsApart ds n) ss
      → All (IsApart ds (suc n)) ss
  IsApart-suc ds n [] h = tt
  IsApart-suc ds n (none ∷ ss) h = (tt, IsApart-suc ds n ss h.1)
  IsApart-suc ds n (some s ∷ ss) h = ((omega (arith, h.0.0), h.0.1), IsApart-suc ds n ss h.1)

  -- A definition more, with the identifier that no sound has yet.
  IsApart-define :
      (ds : List SoundDefinition) (d : SoundDefinition) (n : ℕ) (ss : List (Option (SoundId mixer)))
      → d.id ≡ n
      → All (IsApart ds n) ss
      → All (IsApart (ds ++ d ∷ []) (suc n)) ss
  IsApart-define ds d n [] e h = tt
  IsApart-define ds d n (none ∷ ss) e h = (tt, IsApart-define ds d n ss e h.1)
  IsApart-define ds d n (some s ∷ ss) e h = (
    (
      omega (arith, h.0.0),
      All-append (λ c. c.id ≢ s.id) ds (d ∷ []) h.0.1 ((λ f. absurd (omega (arith, h.0.0))), tt),
    ),
    IsApart-define ds d n ss e h.1,
  )

  define_sound-AreApart :
      (has_entry : Bytes → Bool) (name : Bytes) (m : SoundManager mixer)
      → AreApart m
      → AreApart (define_sound has_entry name m).1
  unfolding define_sound get_sound_id
  define_sound-AreApart has_entry name m h = elim (Bool-cases (has_entry name)) [
    | inr e ↦ rw e h
    | inl e ↦
        let more : suc (next_id m) ≡ start_id Kind.sound + suc m.entities.sound_id = omega arith in
        let d : SoundDefinition = record { id = next_id m; path = name } in
        rw e (record {
          defined =
              subst (λ (n : ℕ). All (λ c. c.id < n) (m.sounds ++ d ∷ [])) more
                (All-append (λ c. c.id < suc (next_id m)) m.sounds (d ∷ [])
                  (defined-suc (next_id m) m.sounds h.defined) (omega arith, tt));
          apart =
              subst (λ (n : ℕ). All (IsApart (m.sounds ++ d ∷ []) n) m.sound_ids) more
                (IsApart-define m.sounds d (next_id m) m.sound_ids refl h.apart);
        })
  ]

  play-AreApart :
      (definition : ℕ) (category : SoundCategory) (loop_times : ℤ) (entity : ℕ)
      (m : SoundManager mixer)
      → AreApart m
      → AreApart (play definition category loop_times entity m).1
  unfolding play play_sound_id update_volume get_sound_id
  play-AreApart definition category loop_times entity m h =
      let more : suc (next_id m) ≡ start_id Kind.sound + suc m.entities.sound_id = omega arith in
      let defined =
        subst (λ (n : ℕ). All (λ c. c.id < n) m.sounds) more
          (defined-suc (next_id m) m.sounds h.defined) in
      let apart =
        subst (λ (n : ℕ). All (IsApart m.sounds n) m.sound_ids) more
          (IsApart-suc m.sounds (next_id m) m.sound_ids h.apart) in
      elim (Option-cases (get_slot_index m.sound_ids)) [
        | inl e ↦ rw (e, play) (record { defined = defined; apart = apart })
        | inr (i, e) ↦
            rw (e, play)
              (record {
                defined = defined;
                apart =
                    All-set (IsApart m.sounds (start_id Kind.sound + suc m.entities.sound_id))
                      m.sound_ids i apart (omega arith, ne_of_lt (next_id m) m.sounds h.defined);
              })
      ]

  make-AreApart : (c : Call mixer) (m : SoundManager mixer) → AreApart m → AreApart (make c m)
  unfolding make stop_sound_definition stop_all_sounds set_volume update pause_all_sounds
      resume_all_sounds
  make-AreApart (Call.defines has_entry name) m h = define_sound-AreApart has_entry name m h
  make-AreApart (Call.plays d c l e) m h = play-AreApart d c l e m h
  make-AreApart (Call.stops id) m h = stop_sound-AreApart id m h
  make-AreApart (Call.stops_definition d) m h = stop_from-AreApart (length m.sound_ids) 1 d m h
  make-AreApart (Call.sets_volume d v) m h = map-AreApart _ m (set_volume_of-Keeps d.id _) h
  make-AreApart Call.stops_all m h = map-AreApart (λ s. none) m (λ ds n s k. tt) h
  make-AreApart Call.updates m h = map-AreApart (update_slot m) m (update_slot-Keeps m) h
  make-AreApart Call.pauses m h = map-AreApart _ m (on_sound-Keeps (Mixer.pause mixer)) h
  make-AreApart Call.resumes m h = map-AreApart _ m (on_sound-Keeps (Mixer.play mixer)) h
  make-AreApart (Call.goes_on f) m h = map-AreApart _ m (on_sound-Keeps f) h

  pub make_all-AreApart :
      (cs : List (Call mixer)) (m : SoundManager mixer) → AreApart m → AreApart (make_all cs m)
  unfolding make_all
  make_all-AreApart [] m h = h
  make_all-AreApart (c ∷ cs) m h = make_all-AreApart cs (make c m) (make-AreApart c m h)

  pub new_sound_manager-AreApart :
      (e : EntityManager) → AreApart (new_sound_manager {mixer = mixer} e)
  unfolding new_sound_manager
  new_sound_manager-AreApart e = record {
    defined = tt;
    apart = repeat_none-IsApart mixer 32 [] (start_id Kind.sound + e.sound_id);
  }
