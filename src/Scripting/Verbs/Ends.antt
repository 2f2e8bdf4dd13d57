-- ===== src/Scripting/Verbs/Ends.antt =====
-- The ticks of a sentence come to its end, and to what it means.
use engge.Base.{ℕ, suc, All, ◌≤◌, ◌≡◌, refl, ◌∙◌, Bool, true, false, List, [], ◌∷◌, arith, length}
use engge.Scripting.Verbs.World.{VerbWorld}
use engge.Scripting.Verbs.Functions.{Command, VerbFunction, Sentence, is_over, call_first, tick}
use engge.Scripting.Verbs.Meaning.{
  finish_all, ticks_left, ticks_of_pos, call_first-finish_all, call_first-ticks_left,
}

module _ (world : VerbWorld) (c : Command) where
  open world use {World, is_walking}

  -- `operator()` of a sentence again and again, with the times of the updates.
  unfoldable pub run : List ℕ → Sentence world → World → Sentence world × World
  unfolding tick
  run [] s w = (s, w)
  run (e ∷ es) s w = let (t, v) = tick world c e s w in run es t v

  run_empty :
      (es : List ℕ) (stopped : Bool) (w : World)
      → run es (record { functions = []; stopped = stopped }) w
        ≡ (record { functions = []; stopped = stopped }, w)
  unfolding run
  run_empty [] stopped w = refl
  run_empty (e ∷ es) stopped w = run_empty es stopped w

  -- In none of the updates, one behind the other, does the actor walk any more.
  unfoldable pub HasArrived : List ℕ → Sentence world → World → Type 0
  unfolding tick
  HasArrived [] s w = Unit
  HasArrived (e ∷ es) s w =
      (is_walking c.actor w ≡ false) × HasArrived es (tick world c e s w).0 (tick world c e s w).1

  module _ (m : ℕ) where
    run_lem :
        (es : List ℕ) (fs : List (VerbFunction world)) (stopped : Bool) (w : World)
        → All (λ e. suc m ≤ e) es
        → HasArrived es (record { functions = fs; stopped = stopped }) w
        → ticks_left world c m (record { functions = fs; stopped = stopped }) ≤ length es
        → (is_over (run es (record { functions = fs; stopped = stopped }) w).0 ≡ true)
          × ((run es (record { functions = fs; stopped = stopped }) w).1
              ≡ finish_all world c fs stopped w)
    unfolding run finish_all HasArrived
    run_lem es [] true w l a h = rw (run_empty es true w) (refl, refl)
    run_lem es [] false w l a h = rw (run_empty es false w) (refl, refl)
    run_lem [] (f ∷ fs) true w l a h = absurd (omega arith)
    run_lem [] (f ∷ fs) false w l a h = absurd (omega (arith, ticks_of_pos world c m f))
    run_lem (e ∷ es) (f ∷ fs) true w l a h = rw (run_empty es true w) (refl, refl)
    run_lem (e ∷ es) (f ∷ fs) false w l a h =
        let s = (call_first world c e f fs false w).0 in
        let v = (call_first world c e f fs false w).1 in
        let less = call_first-ticks_left world c m e w a.0 l.0 f fs in
        let (over, same) = run_lem es s.functions s.stopped v l.1 a.1 (omega arith) in
        (over, same ∙ call_first-finish_all world c e w a.0 f fs)

    -- A sentence is ticked in updates that each take more than `m` microseconds, in none of which the
    -- actor walks any more, and between which nothing else changes the world. After as many of them as are left of it, or more, the sentence is over,
    -- and the world is then the one that its functions lead to, carried out one behind the other
    -- until one stops the sentence. A reach takes as many updates as it needs for 330000 microseconds.
    pub run-finish_all :
        (es : List ℕ) (s : Sentence world) (w : World)
        → All (λ e. suc m ≤ e) es
        → HasArrived es s w
        → ticks_left world c m s ≤ length es
        → (is_over (run es s w).0 ≡ true)
          × ((run es s w).1 ≡ finish_all world c s.functions s.stopped w)
    run-finish_all es s w l a h = run_lem es s.functions s.stopped w l a h
