-- ===== src/Engine/SavedDialogs/RoundTrip.antt =====
-- What was saved of the memory of dialogs is loaded again.
use engge.Base.{
  ℕ, ◌≡◌, ◌≢◌, ◌↔◌, refl, inl, inr, Bool, none, some, List, [], ◌∷◌, map, Bytes, Option-cases, In,
  All, All-In,
}
use engge.Base.Outcome.{Returns, Meets-bind, Meets-map, done}
use engge.Dialog.States.{DialogConditionMode, DialogConditionState}
use engge.Engine.SavedDialogs.{mark_of, key_of, save_dialogs, parse_state, load_dialog}
use engge.Engine.SavedDialogs.Keys.{IsReadable, parse_state-key_of}

abbrev pub keys_of : List DialogConditionState → List Bytes
keys_of ss = map (λ p. p.0) (save_dialogs ss)

keys_of-none :
    (s : DialogConditionState) (ss : List DialogConditionState)
    → mark_of s.mode ≡ none
    → keys_of (s ∷ ss) ≡ keys_of ss
unfolding save_dialogs
keys_of-none s ss m = rw (save_dialogs, m) refl

keys_of-some :
    (s : DialogConditionState) (ss : List DialogConditionState) {mark : ℕ}
    → mark_of s.mode ≡ some mark
    → keys_of (s ∷ ss) ≡ key_of mark s ∷ keys_of ss
unfolding save_dialogs
keys_of-some s ss m = rw (save_dialogs, m) refl

module _ (has_entry : Bytes → Bool) where
  -- The state is one that is saved under the key, and can be read back.
  abbrev Keeps : Bytes → DialogConditionState → Type 0
  Keeps key s =
      IsReadable has_entry s × (mark : ℕ) × (mark_of s.mode ≡ some mark) × (key_of mark s ≡ key)

  Keeps-parse :
      (key : Bytes) (s : DialogConditionState) → Keeps key s → parse_state has_entry key ≡ done s
  Keeps-parse key s (h, mark, m, e) = rw (← e) (parse_state-key_of has_entry s mark h m)

  key-found :
      (ss : List DialogConditionState) (key : Bytes)
      → All (IsReadable has_entry) ss
      → In key (keys_of ss)
      → (s : DialogConditionState) × In s ss × Keeps key s
  unfolding save_dialogs
  key-found [] key h i = absurd i
  key-found (s ∷ ss) key h i = elim (Option-cases (mark_of s.mode)) [
    | inl m ↦ let (t, j, k) = key-found ss key h.1 (rw (keys_of-none s ss m) at i) in (t, inr j, k)
    | inr (mark, m) ↦ elim (rw (keys_of-some s ss m) at i) [
      | inl e ↦ (s, inl refl, (h.0, mark, m, e))
      | inr j ↦ let (t, l, k) = key-found ss key h.1 j in (t, inr l, k)
    ]
  ]

state-found :
    (ss : List DialogConditionState) (s : DialogConditionState) {mark : ℕ}
    → In s ss
    → mark_of s.mode ≡ some mark
    → In (key_of mark s) (keys_of ss)
state-found [] s i m = absurd i
state-found (t ∷ ss) s {mark} (inl e) m =
    rw (keys_of-some t ss {mark = mark} (rw e m)) (inl (rw e refl))
state-found (t ∷ ss) s (inr i) m = elim (Option-cases (mark_of t.mode)) [
  | inl n ↦ rw (keys_of-none t ss n) (state-found ss s i m)
  | inr (mark', n) ↦ rw (keys_of-some t ss n) (inr (state-found ss s i m))
]

mark_of-some :
    (m : DialogConditionMode) {mark : ℕ} → mark_of m ≡ some mark → m ≢ DialogConditionMode.temp_once
unfolding mark_of
mark_of-some DialogConditionMode.temp_once e = cc
mark_of-some _ e = cc

mark_of-none :
    (m : DialogConditionMode)
    → m ≢ DialogConditionMode.temp_once
    → (mark : ℕ) × (mark_of m ≡ some mark)
unfolding mark_of
mark_of-none DialogConditionMode.once h = (b'?', refl)
mark_of-none DialogConditionMode.show_once h = (b'#', refl)
mark_of-none DialogConditionMode.once_ever h = (b'&', refl)
mark_of-none DialogConditionMode.show_once_ever h = (b'$', refl)
mark_of-none DialogConditionMode.temp_once h = absurd (h refl)

module _ (has_entry : Bytes → Bool) (ss : List DialogConditionState) where
  -- What is loaded is what was saved: its states are saved ones, and each key has its state.
  abbrev Loads : List Bytes → List DialogConditionState → Type 0
  Loads keys loaded =
      ((s : DialogConditionState)
        → In s loaded
        → In s ss × (s.mode ≢ DialogConditionMode.temp_once))
      × ((s : DialogConditionState) (key : Bytes)
          → In key keys
          → parse_state has_entry key ≡ done s
          → In s loaded)

  Loads-cons :
      (key : Bytes) (keys : List Bytes) (s : DialogConditionState)
      (states : List DialogConditionState)
      → In s ss
      → Keeps has_entry key s
      → Loads keys states
      → Loads (key ∷ keys) (s ∷ states)
  Loads-cons key keys s states i k l = (
    λ t j. elim j [ inl e ↦ rw (← e) (i, mark_of-some s.mode k.2) | inr j ↦ l.0 t j ],
    λ t key' j p. elim j [
      | inl e ↦ inl (let q = Keeps-parse has_entry key s k in cc)
      | inr j ↦ inr (l.1 t key' j p)
    ],
  )

  load_dialog-Loads :
      (keys : List Bytes)
      → All (IsReadable has_entry) ss
      → ((key : Bytes) → In key keys → In key (keys_of ss))
      → Returns (Loads keys) (load_dialog has_entry keys)
  unfolding load_dialog
  load_dialog-Loads [] h sub = ((λ s i. absurd i), (λ s key i e. absurd i))
  load_dialog-Loads (key ∷ keys) h sub =
      let (s, i, k) = key-found has_entry ss key h (sub key (inl refl)) in
      rw (Keeps-parse has_entry key s k) (
        Meets-bind ⊥ (Loads keys) (Loads (key ∷ keys)) (load_dialog has_entry keys)
          (λ states. done (s ∷ states)) (load_dialog-Loads keys h (λ l j. sub l (inr j)))
          λ states l. Loads-cons key keys s states i k l)

  -- When all states that are saved can be read back, and the hash holds the keys that were assigned,
  -- each at least once, in any order, and no others, then loading returns, and the states that are
  -- loaded are just those that were saved whose mode is not `TempOnce`.
  pub load_dialog-save_dialogs :
      (keys : List Bytes)
      → All (IsReadable has_entry) ss
      → ((key : Bytes) → In key keys ↔ In key (keys_of ss))
      → Returns
          (λ loaded.
            (s : DialogConditionState)
            → In s loaded ↔ (In s ss × (s.mode ≢ DialogConditionMode.temp_once)))
          (load_dialog has_entry keys)
  load_dialog-save_dialogs keys h same =
      Meets-map ⊥ (load_dialog has_entry keys) (load_dialog-Loads keys h (λ key. (same key).0))
        λ loaded l s. (
          l.0 s,
          λ (i, m).
              let (mark, n) = mark_of-none s.mode m in
              l.1 s (key_of mark s) ((same (key_of mark s)).1 (state-found ss s i n))
                (parse_state-key_of has_entry s mark (All-In (IsReadable has_entry) ss h i) n),
        )
