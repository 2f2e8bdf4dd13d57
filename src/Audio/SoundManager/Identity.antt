-- ===== src/Audio/SoundManager/Identity.antt =====
-- What the calls do that go by the identifier of a definition.
use engge.Base.{
  ℕ, zero, suc, ◌-◌, ◌≡◌, ◌≢◌, refl, ap, subst, inl, inr, false, ◌||◌, Option, none, some, List, [],
  ◌∷◌, map, ◌==◌, ==_iff, ltb, length, get_elem?, All, All-get, Bool-cases, Option-cases,
}
use engge.Engine.EntityManager.{EntityManager}
use engge.Audio.SoundManager.{
  Mixer, SoundDefinition, SoundId, SoundManager, new_sound_manager, get_sound, stop_from,
  stop_sound_definition, set_volume_of, set_volume,
}
use engge.Audio.SoundManager.Apart.{
  Call, make_all, next_id, IsApart, AreApart, make_all-AreApart, new_sound_manager-AreApart,
}

==_ne : (a b : ℕ) → a ≢ b → (a == b) ≡ false
==_ne a b h = elim (Bool-cases (a == b)) [ inr m ↦ m | inl e ↦ absurd (h ((==_iff a b).0 e)) ]

module _ {mixer : Mixer} where
  set_volume-same :
      (d : SoundDefinition) (v : Mixer.Volume mixer) (n : ℕ) (ds : List SoundDefinition) (i : ℕ)
      (ss : List (Option (SoundId mixer)))
      → get_elem? ds i ≡ some d
      → All (IsApart ds n) ss
      → map (set_volume_of d.id v) ss ≡ ss
  set_volume-same d v n ds i [] g h = refl
  set_volume-same d v n ds i (none ∷ ss) g h =
      ap (λ l. none ∷ l) (set_volume-same d v n ds i ss g h.1)
  set_volume-same d v n ds i (some s ∷ ss) g h =
      let other : d.id ≢ s.id = All-get (λ c. c.id ≢ s.id) ds i h.0.1 g in
      let miss : (d.id == s.id) ≡ false = ==_ne d.id s.id other in
      rw miss (ap (λ l. some s ∷ l) (set_volume-same d v n ds i ss g h.1))

  get_sound-IsApart :
      (i : ℕ) (m : SoundManager mixer) {s : SoundId mixer}
      → AreApart m
      → get_sound i m ≡ some s
      → All (λ d. d.id ≢ s.id) m.sounds
  unfolding get_sound
  get_sound-IsApart i m {s} h e = elim (Bool-cases (ltb i 1 || ltb (length m.sound_ids) i)) [
    | inl out ↦ cc (rw (out, get_sound) at e)
    | inr ok ↦ elim (Option-cases (get_elem? m.sound_ids (i - 1))) [
      | inl n ↦ cc (rw (ok, n, get_sound) at e)
      | inr (o, n) ↦
          let here : o ≡ some s = rw (ok, n, get_sound) at e in
          (subst (IsApart m.sounds (next_id m)) here (All-get _ m.sound_ids (i - 1) h.apart n)).1
    ]
  ]

  stop_from-same :
      (n i j : ℕ) (d : SoundDefinition) (m : SoundManager mixer)
      → AreApart m
      → get_elem? m.sounds j ≡ some d
      → stop_from n i d m ≡ m
  unfolding stop_from
  stop_from-same zero i j d m h g = refl
  stop_from-same (suc n) i j d m h g = elim (Option-cases (get_sound i m)) [
    | inl e ↦ rw (e, stop_from) (stop_from-same n (suc i) j d m h g)
    | inr (s, e) ↦
        let other : d.id ≢ s.id =
          All-get (λ c. c.id ≢ s.id) m.sounds j (get_sound-IsApart i m h e) g in
        let miss : (d.id == s.id) ≡ false = ==_ne d.id s.id other in
        rw (e, stop_from, miss) (stop_from-same n (suc i) j d m h g)
  ]

  -- After any calls on a new manager, stopping the sounds of one of its definitions stops none, and
  -- setting the volume of one of its definitions sets none: the manager stays as it is.
  pub stop_sound_definition-same :
      (e : EntityManager) (cs : List (Call mixer)) (d : SoundDefinition) (j : ℕ)
      (v : Mixer.Volume mixer)
      → get_elem? (make_all cs (new_sound_manager e)).sounds j ≡ some d
      → (stop_sound_definition d (make_all cs (new_sound_manager e))
          ≡ make_all cs (new_sound_manager e))
        × (set_volume d v (make_all cs (new_sound_manager e)) ≡ make_all cs (new_sound_manager e))
  unfolding stop_sound_definition set_volume
  stop_sound_definition-same e cs d j v g =
      let m = make_all cs (new_sound_manager e) in
      let h = make_all-AreApart cs (new_sound_manager e) (new_sound_manager-AreApart e) in
      (
        stop_from-same (length m.sound_ids) 1 j d m h g,
        ap (λ ss. record m { sound_ids = ss })
            (set_volume-same d (Mixer.clamp mixer v) (next_id m) m.sounds j m.sound_ids g h.apart),
      )
