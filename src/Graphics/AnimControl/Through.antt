-- ===== src/Graphics/AnimControl/Through.antt =====
-- An animation of frames that is played once.
use engge.Base.{
  ℕ, zero, suc, ◌+◌, ◌-◌, ◌≡◌, refl, sym, ap, ◌∙◌, Bool, true, false, Option, none, some, List, [],
  ◌∷◌, ◌++◌, ◌==◌, get_elem?, arith, append_assoc,
}
use engge.Graphics.Animation.{AnimState, Clock, Strip, animation, Layers}
use engge.Graphics.AnimControl.{
  get_fps, trig, rewind_strip, everywhere, everywhere_layers, update_strip, update_animation,
  AnimControl, play, update,
}

-- The callback of a frame, if it has one.
abbrev pub callback_at : List (Option ℕ) → ℕ → List ℕ
callback_at cs i = elim (get_elem? cs i) [ none ↦ [] | some none ↦ [] | some (some c) ↦ c ∷ [] ]

-- Those of `n` frames from `i` on.
unfoldable pub callbacks_from : List (Option ℕ) → ℕ → ℕ → List ℕ
callbacks_from cs i zero = []
callbacks_from cs i (suc n) = callback_at cs i ++ callbacks_from cs (suc i) n

append_nil : (xs : List ℕ) → xs ++ [] ≡ xs
append_nil [] = refl
append_nil (x ∷ xs) = ap (λ l. x ∷ l) (append_nil xs)

module _ {clock : Clock} where
  -- `n` updates, each with the same time.
  unfoldable pub run : ℕ → Clock.TimeSpan clock → AnimControl clock → List ℕ × AnimControl clock
  unfolding update
  run zero e c = ([], c)
  run (suc n) e c =
      let (called, d) = update e c in let (more, over) = run n e d in (called ++ more, over)

  abbrev pub showing :
      Strip clock → Layers clock → ℕ → AnimState → Clock.TimeSpan clock → AnimControl clock
  showing s ls i state t = record {
    anim = some (animation (record s { frame_index = i; state = state; elapsed = t }) ls);
    loop = false;
  }

  module _ (e : Clock.TimeSpan clock) (s : Strip clock) (ls : Layers clock) (n : ℕ)
      (frames : s.frames ≡ suc n) (once : s.loop ≡ false)
      (late : (t : Clock.TimeSpan clock)
        → Clock.is_over_frame clock (Clock.plus clock t e) (get_fps s.fps) ≡ true) where
    abbrev rest_of : Clock.TimeSpan clock → Clock.TimeSpan clock
    rest_of t = Clock.less_frame clock (Clock.plus clock t e) (get_fps s.fps)

    update-inside :
        (i : ℕ) (t : Clock.TimeSpan clock)
        → (suc i == s.frames) ≡ false
        → (u : Clock.TimeSpan clock) × (update e (showing s ls i AnimState.play t)
            ≡ (callback_at s.callbacks (suc i), showing s ls (suc i) AnimState.play u))
    unfolding update update_animation update_strip trig
    update-inside i t inside =
        let some_frames : (s.frames == 0) ≡ false = rw frames (ground arith) in
        (rest_of t, rw (late t, inside, some_frames) refl)

    update-end :
        (t : Clock.TimeSpan clock)
        → (u : Clock.TimeSpan clock) × (update e (showing s ls n AnimState.play t)
            ≡ (callback_at s.callbacks n, showing s ls n AnimState.stopped u))
    unfolding update update_animation update_strip trig
    update-end t =
        let some_frames : (s.frames == 0) ≡ false = rw frames (ground arith) in
        let end : (suc n == s.frames) ≡ true = rw frames (ground arith) in
        let back : suc n - 1 ≡ n = omega arith in
        (rest_of t, rw (late t, end, once, some_frames, back) refl)

    run-through :
        (k i : ℕ) (t : Clock.TimeSpan clock)
        → i + k ≡ n
        → (u : Clock.TimeSpan clock) × (run (suc k) e (showing s ls i AnimState.play t) ≡ (
          callbacks_from s.callbacks (suc i) k ++ callback_at s.callbacks n,
          showing s ls n AnimState.stopped u,
        ))
    unfolding run callbacks_from
    run-through zero i t h =
        let last : i ≡ n = omega (arith, h) in
        let (u, f) = update-end t in
        (
          u,
          ap (λ (j : ℕ). run 1 e (showing s ls j AnimState.play t)) last
              ∙ ap (λ r. (r.0 ++ [], r.1)) f
              ∙ ap (λ l. (l, showing s ls n AnimState.stopped u))
                  (append_nil (callback_at s.callbacks n)),
        )
    run-through (suc k) i t h =
        let inside : (suc i == s.frames) ≡ false = rw frames (ground (arith, h)) in
        let (t', f) = update-inside i t inside in
        let (u, g) = run-through k (suc i) t' (omega (arith, h)) in
        (
          u,
          ap (λ r. (r.0 ++ (run (suc k) e r.1).0, (run (suc k) e r.1).1)) f
              ∙ ap (λ r. (callback_at s.callbacks (suc i) ++ r.0, r.1)) g
              ∙ ap (λ l. (l, showing s ls n AnimState.stopped u))
                  (sym (
                    append_assoc (callback_at s.callbacks (suc i))
                      (callbacks_from s.callbacks (suc (suc i)) k) (callback_at s.callbacks n))),
        )

  -- An animation of frames that neither it nor the control repeats is played, and updated as often as
  -- it has frames, each time by more than a frame lasts: it then is stopped at its last frame, and has
  -- called the callbacks of all frames but the first, in their order, and that of the last once more.
  pub run-play :
      (e : Clock.TimeSpan clock) (s : Strip clock) (ls : Layers clock) (loop : Bool) (n : ℕ)
      → s.frames ≡ suc n
      → s.loop ≡ false
      → ((t : Clock.TimeSpan clock)
          → Clock.is_over_frame clock (Clock.plus clock t e) (get_fps s.fps) ≡ true)
      → (u : Clock.TimeSpan clock) × (run
            (suc n)
            e
            (play false (record { anim = some (animation s ls); loop = loop }))
          ≡ (
            callbacks_from s.callbacks 1 n ++ callback_at s.callbacks n,
            showing s (everywhere_layers rewind_strip ls) n AnimState.stopped u,
          ))
  unfolding play everywhere rewind_strip
  run-play e s ls loop n frames once late =
      let some_frames : (s.frames == 0) ≡ false = rw frames (ground arith) in
      let (u, f) =
        run-through e s (everywhere_layers rewind_strip ls) n frames once late n 0 s.elapsed
          (omega arith) in
      (u, rw some_frames f)
