-- ===== src/Audio/SoundManager/Slots.antt =====
-- Which slot a new sound takes.
use engge.Base.{
  ℕ, zero, suc, ◌<◌, ◌≡◌, refl, sym, ap, subst, ◌∙◌, inl, inr, true, false, not, ◌≢◌, Option, none,
  some, List, [], ◌∷◌, length, get_elem?, set, length-set, arith, Bool-cases, Option-cases,
}
use engge.Dialog.Ast.{ℤ}
use engge.Engine.EntityManager.{get_sound_id}
use engge.Audio.SoundManager.{
  SoundCategory, Mixer, SoundId, SoundManager, is_playing, is_free, get_slot_index, play,
}

module _ {ℓ} {A : Type ℓ} where
  get_elem?-set_other :
      (xs : List A) (i j : ℕ) (v : A) → i ≢ j → get_elem? (set xs i v) j ≡ get_elem? xs j
  get_elem?-set_other [] i j v h = refl
  get_elem?-set_other (x ∷ xs) zero zero v h = absurd (h refl)
  get_elem?-set_other (x ∷ xs) zero (suc j) v h = refl
  get_elem?-set_other (x ∷ xs) (suc i) zero v h = refl
  get_elem?-set_other (x ∷ xs) (suc i) (suc j) v h =
      get_elem?-set_other xs i j v (λ e. h (ap suc e))

-- A slot with a lower index than the one found, or any slot where none is found.
abbrev IsPassed : Option ℕ → ℕ → Type 0
IsPassed none j = Unit
IsPassed (some i) j = j < i

module _ {mixer : Mixer} where
  -- The slot at the index is there and free.
  abbrev IsFreeAt : List (Option (SoundId mixer)) → ℕ → Type 0
  IsFreeAt ss i = (s : Option (SoundId mixer)) × (get_elem? ss i ≡ some s) × (is_free s ≡ true)

  get_slot_index-some :
      (ss : List (Option (SoundId mixer))) (i : ℕ) → get_slot_index ss ≡ some i → IsFreeAt ss i
  unfolding get_slot_index
  get_slot_index-some [] i e = cc
  get_slot_index-some (s ∷ ss) i e = elim (Bool-cases (is_free s)) [
    | inl f ↦
        let at : some 0 ≡ some i = rw (f, get_slot_index) at e in
        let zeroth : 0 ≡ i = cc in subst (IsFreeAt (s ∷ ss)) zeroth (s, refl, f)
    | inr f ↦ elim (Option-cases (get_slot_index ss)) [
      | inl n ↦ cc (rw (f, n, get_slot_index) at e)
      | inr (k, n) ↦
          let at : some (suc k) ≡ some i = rw (f, n, get_slot_index) at e in
          let next : IsFreeAt (s ∷ ss) (suc k) = get_slot_index-some ss k n in
          let next_index : suc k ≡ i = cc in subst (IsFreeAt (s ∷ ss)) next_index next
    ]
  ]

  get_slot_index-passed :
      (ss : List (Option (SoundId mixer))) (o : Option ℕ) (j : ℕ) (s : Option (SoundId mixer))
      → get_slot_index ss ≡ o
      → IsPassed o j
      → get_elem? ss j ≡ some s
      → is_free s ≡ false
  unfolding get_slot_index
  get_slot_index-passed [] o j s e k g = cc
  get_slot_index-passed (t ∷ ss) o zero s e k g = elim (Bool-cases (is_free t)) [
    | inr f ↦ let same : t ≡ s = cc in subst (λ q. is_free q ≡ false) same f
    | inl f ↦
        let at : some 0 ≡ o = rw (f, get_slot_index) at e in
        let low : IsPassed (some 0) 0 = subst (λ (q : Option ℕ). IsPassed q 0) (sym at) k in
        absurd (omega (arith, low))
  ]
  get_slot_index-passed (t ∷ ss) o (suc j) s e k g = elim (Bool-cases (is_free t)) [
    | inl f ↦
        let at : some 0 ≡ o = rw (f, get_slot_index) at e in
        let low : IsPassed (some 0) (suc j) =
          subst (λ (q : Option ℕ). IsPassed q (suc j)) (sym at) k in
        absurd (omega (arith, low))
    | inr f ↦ elim (Option-cases (get_slot_index ss)) [
      | inl n ↦ get_slot_index-passed ss none j s n tt g
      | inr (i, n) ↦
          let at : some (suc i) ≡ o = rw (f, n, get_slot_index) at e in
          let low : IsPassed (some (suc i)) (suc j) =
            subst (λ (q : Option ℕ). IsPassed q (suc j)) (sym at) k in
          get_slot_index-passed ss (some i) j s n (omega (arith, low)) g
    ]
  ]

  -- The sound is playing in the slot.
  abbrev pub IsPlayingAt : List (Option (SoundId mixer)) → ℕ → SoundId mixer → Type 0
  IsPlayingAt ss j s = (get_elem? ss j ≡ some (some s)) × (is_playing s ≡ true)

  busy :
      (o : Option (SoundId mixer))
      → is_free o ≡ false
      → (s : SoundId mixer) × (o ≡ some s) × (is_playing s ≡ true)
  unfolding is_free
  busy none h = cc
  busy (some s) h = (s, refl, ground arith)

  not_free :
      (o : Option (SoundId mixer)) (s : SoundId mixer)
      → o ≡ some s
      → is_playing s ≡ true
      → is_free o ≡ false
  unfolding is_free
  not_free none s e p = cc
  not_free (some t) s e p =
      let same : t ≡ s = cc in subst (λ r. not (is_playing r) ≡ false) (sym same) (rw p refl)

  -- `play` takes the place of no sound that is playing: each stays in its slot, and there are as many
  -- slots as before.
  pub play-keeps_playing :
      (definition : ℕ) (category : SoundCategory) (loop_times : ℤ) (entity : ℕ)
      (m : SoundManager mixer) (j : ℕ) (s : SoundId mixer)
      → IsPlayingAt m.sound_ids j s
      → IsPlayingAt (play definition category loop_times entity m).1.sound_ids j s
        × (length (play definition category loop_times entity m).1.sound_ids ≡ length m.sound_ids)
  unfolding play get_sound_id is_free
  play-keeps_playing definition category loop_times entity m j s h =
      elim (Option-cases (get_slot_index m.sound_ids)) [
        | inl n ↦ rw (n, play) (h, refl)
        | inr (i, n) ↦
            let (t, at, free) = get_slot_index-some m.sound_ids i n in
            let other : i ≢ j = λ e.
              let here : t ≡ some s = cc (at, h.0, ap (get_elem? m.sound_ids) e) in
              cc (free, not_free t s here h.1) in
            rw (n, play)
              ((get_elem?-set_other m.sound_ids i j _ other ∙ h.0, h.1), length-set m.sound_ids i _)
      ]

  -- Every slot holds a sound that is playing.
  abbrev pub IsFull : List (Option (SoundId mixer)) → Type 0
  IsFull ss =
      (j : ℕ) (o : Option (SoundId mixer))
      → get_elem? ss j ≡ some o
      → (s : SoundId mixer) × (o ≡ some s) × (is_playing s ≡ true)

  -- `play` gives no sound only if every slot is taken by one that is playing, and then it leaves all
  -- the slots as they were.
  pub play-IsFull :
      (definition : ℕ) (category : SoundCategory) (loop_times : ℤ) (entity : ℕ)
      (m : SoundManager mixer)
      → (play definition category loop_times entity m).0 ≡ none
      → IsFull m.sound_ids
        × ((play definition category loop_times entity m).1.sound_ids ≡ m.sound_ids)
  unfolding play get_sound_id is_free
  play-IsFull definition category loop_times entity m h =
      elim (Option-cases (get_slot_index m.sound_ids)) [
        | inl n ↦
            (λ j o g. busy o (get_slot_index-passed m.sound_ids none j o n tt g), rw (n, play) refl)
        | inr (i, n) ↦ cc (rw (n, play) at h)
      ]
