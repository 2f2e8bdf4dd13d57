-- ===== src/Engine/Callbacks/Once.antt =====
-- How often a callback is called.
use engge.Base.{
  ℕ, ◌≡◌, ◌≢◌, ◌⊎◌, refl, ◌∙◌, inl, inr, Bool, true, false, not, ◌||◌, List, [], ◌∷◌, ◌++◌, Bytes,
  ◌==◌, if◌then◌else◌, All, All-append, Bool-cases, arith, sym, subst,
}
use engge.Engine.Callbacks.{
  Clock, Callback, Scripts, advance, is_late, advance_all, Round, ring, remove_elapsed,
  update_callbacks,
}
use engge.Engine.Callbacks.Alone.{
  count, rings, Free, Alone, Spares, count-append, carry_out-Free, advance_all-Free,
  advance_all-Alone, Free-append-Alone,
}

module _ {clock : Clock} (scripts : Scripts clock) where
  open scripts use {World}

  -- Updates, one behind the other, with all callbacks that were called.
  unfoldable pub run :
      List (Clock.TimeSpan clock)
      → List (Callback clock)
      → World
      → List ℕ × List (Callback clock) × World
  unfolding update_callbacks
  run [] cs w = ([], cs, w)
  run (e ∷ es) cs w =
      let (called, ds, v) = update_callbacks scripts e cs w in
      let (later, ks, u) = run es ds v in (called ++ later, ks, u)

module _ {clock : Clock} (scripts : Scripts clock) (i : ℕ)
    (spared : (method : Bytes) (arg : ℕ) (w : Scripts.World scripts)
      → All (Spares i) (Scripts.call scripts method arg w).0) where
  open scripts use {World, call}

  ring-Free :
      (c : Callback clock) (added : List (Callback clock)) (w : World)
      → Free i added
      → Free i (ring scripts c added w).1
  unfolding ring
  ring-Free c added w f = elim (Bool-cases (not (is_late c) || c.is_done || c.callback_done)) [
    | inl quiet ↦ rw quiet f
    | inr loud ↦ rw loud (carry_out-Free i _ added (spared c.method c.arg w) f)
  ]

  ring-count :
      (c : Callback clock) (added : List (Callback clock)) (w : World)
      → c.id ≢ i
      → count i (ring scripts c added w).0 ≡ 0
  unfolding ring
  ring-count c added w other = elim (Bool-cases (not (is_late c) || c.is_done || c.callback_done)) [
    | inl quiet ↦ rw quiet refl
    | inr loud ↦ rw loud (let no : (c.id == i) ≡ false = ground arith in rw no refl)
  ]

  if-Free :
      (b : Bool) (c : Callback clock) (ks : List (Callback clock))
      → c.id ≢ i
      → Free i ks
      → Free i (if b then ks else c ∷ ks)
  if-Free true c ks other f = f
  if-Free false c ks other f = (other, f)

  remove_elapsed-added :
      (cs added : List (Callback clock)) (w : World)
      → Free i added
      → Free i (Round.added (remove_elapsed scripts cs added w))
  unfolding remove_elapsed
  remove_elapsed-added [] added w f = f
  remove_elapsed-added (c ∷ cs) added w f = remove_elapsed-added cs _ _ (ring-Free c added w f)

  remove_elapsed-Free :
      (cs added : List (Callback clock)) (w : World)
      → Free i cs
      → (count i (Round.called (remove_elapsed scripts cs added w)) ≡ 0)
        × Free i (Round.kept (remove_elapsed scripts cs added w))
  unfolding remove_elapsed
  remove_elapsed-Free [] added w f = (refl, tt)
  remove_elapsed-Free (c ∷ cs) added w f =
      let (none_called, free) =
        remove_elapsed-Free cs (ring scripts c added w).1 (ring scripts c added w).2 f.1 in
      (
        count-append i (ring scripts c added w).0 _
            ∙ omega (arith, ring-count c added w f.0, none_called),
        if-Free (is_late c) c _ f.0 free,
      )

  -- The callback waits, and has not been called.
  pub record IsFresh (c : Callback clock) : Type 0 where
    pub has_id : c.id ≡ i
    pub not_done : c.is_done ≡ false
    pub not_called : c.callback_done ≡ false

  ring-late :
      (c : Callback clock) (added : List (Callback clock)) (w : World)
      → IsFresh c
      → count i (ring scripts c added w).0 ≡ (if is_late c then 1 else 0)
  unfolding ring
  ring-late c added w f = elim (Bool-cases (is_late c)) [
    | inl late ↦
        rw (late, f.not_done, f.not_called)
          (let same : (c.id == i) ≡ true = ground (arith, f.has_id) in rw same refl)
    | inr early ↦ rw early refl
  ]

  -- What becomes of the one callback: it is called and taken out, or stays.
  abbrev Settles : Callback clock → ℕ → List (Callback clock) → Type 0
  Settles c n kept =
      ((is_late c ≡ true) × (n ≡ 1) × Free i kept)
      ⊎ ((is_late c ≡ false) × (n ≡ 0) × Alone i c kept)

  if-Settles :
      (b : Bool) (c : Callback clock) (n : ℕ) (ks : List (Callback clock))
      → is_late c ≡ b
      → n ≡ (if b then 1 else 0)
      → Free i ks
      → Settles c n (if b then ks else c ∷ ks)
  if-Settles true c n ks late e f = inl (late, e, f)
  if-Settles false c n ks early e f = inr (early, e, inl (refl, f))

  remove_elapsed-head :
      (c : Callback clock) (cs added : List (Callback clock)) (w : World)
      → IsFresh c
      → Free i cs
      → Settles c
          (count i (Round.called (remove_elapsed scripts (c ∷ cs) added w)))
          (Round.kept (remove_elapsed scripts (c ∷ cs) added w))
  unfolding remove_elapsed
  remove_elapsed-head c cs added w f free =
      let (none_called, left) =
        remove_elapsed-Free cs (ring scripts c added w).1 (ring scripts c added w).2 free in
      if-Settles (is_late c) c _ _ refl
        (count-append i (ring scripts c added w).0 _
          ∙ omega (arith, ring-late c added w f, none_called))
        left

  Settles-cons :
      (b : Bool) (c x : Callback clock) (n : ℕ) (ks : List (Callback clock))
      → x.id ≢ i
      → Settles c n ks
      → Settles c n (if b then ks else x ∷ ks)
  Settles-cons true c x n ks other s = s
  Settles-cons false c x n ks other (inl (late, e, f)) = inl (late, e, (other, f))
  Settles-cons false c x n ks other (inr (early, e, a)) = inr (early, e, inr (other, a))

  remove_elapsed-Settles :
      (c : Callback clock) (cs added : List (Callback clock)) (w : World)
      → IsFresh c
      → Alone i c cs
      → Settles c
          (count i (Round.called (remove_elapsed scripts cs added w)))
          (Round.kept (remove_elapsed scripts cs added w))
  unfolding remove_elapsed
  remove_elapsed-Settles c [] added w f a = absurd a
  remove_elapsed-Settles c (x ∷ cs) added w f (inl (same, free)) =
      subst
        (λ y.
          Settles c (count i (Round.called (remove_elapsed scripts (y ∷ cs) added w)))
            (Round.kept (remove_elapsed scripts (y ∷ cs) added w)))
        (sym same) (remove_elapsed-head c cs added w f free)
  remove_elapsed-Settles c (x ∷ cs) added w f (inr (other, a)) =
      let (rung, now, v) = ring scripts x added w in
      let settled = remove_elapsed-Settles c cs now v f a in
      let quiet : count i (rung ++ Round.called (remove_elapsed scripts cs now v))
          ≡ count i (Round.called (remove_elapsed scripts cs now v)) =
        count-append i rung _ ∙ omega (arith, ring-count x added w other) in
      Settles-cons (is_late x) c x _ _ other (
        subst (λ n. Settles c n (Round.kept (remove_elapsed scripts cs now v))) (sym quiet) settled)

  run-Free :
      (es : List (Clock.TimeSpan clock)) (cs : List (Callback clock)) (w : World)
      → Free i cs
      → count i (run scripts es cs w).0 ≡ 0
  unfolding run update_callbacks
  run-Free [] cs w f = refl
  run-Free (e ∷ es) cs w f =
      let (called, ds, v) = update_callbacks scripts e cs w in
      let (none_called, kept) =
        remove_elapsed-Free (advance_all e cs) [] w (advance_all-Free i e cs f) in
      let added = remove_elapsed-added (advance_all e cs) [] w tt in
      let rest = run-Free es ds v (All-append _ _ _ added kept) in
      count-append i called _ ∙ omega (arith, none_called, rest)

  -- A callback that waits, with an identifier that no other callback has and for which the scripts add
  -- none, is called just once in some updates, one behind the other, if in one of them the time that it
  -- has waited gets longer than its own, and else not at all. What the methods of other callbacks do in
  -- these updates does not change that, even where they remove it.
  pub run-rings :
      (es : List (Clock.TimeSpan clock)) (c : Callback clock) (cs : List (Callback clock))
      (w : World)
      → IsFresh c
      → Alone i c cs
      → count i (run scripts es cs w).0 ≡ rings clock es c.elapsed c.time
  unfolding run update_callbacks rings
  run-rings [] c cs w f a = refl
  run-rings (e ∷ es) c cs w f a =
      let (called, ds, v) = update_callbacks scripts e cs w in
      let d : Callback clock = advance e c in
      let fresh : IsFresh d = record {
        has_id = f.has_id;
        not_done = f.not_done;
        not_called = f.not_called;
      } in
      let added = remove_elapsed-added (advance_all e cs) [] w tt in
      let settled =
        remove_elapsed-Settles d (advance_all e cs) [] w fresh (advance_all-Alone i c e cs a) in
      count-append i called _ ∙ elim settled [
        | inl (late, once, free) ↦
            let rest = run-Free es ds v (All-append _ _ _ added free) in
            rw (is_late, late) (omega (arith, once, rest))
        | inr (early, never, alone) ↦
            let rest = run-rings es d ds v fresh (Free-append-Alone i d _ _ added alone) in
            rw (is_late, early) (omega (arith, never, rest))
      ]
