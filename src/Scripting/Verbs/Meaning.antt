-- ===== src/Scripting/Verbs/Meaning.antt =====
-- What a sentence means, without its ticks: its functions are carried out one behind the other until
-- one of them stops it.
use engge.Base.{
  ℕ, suc, ◌-◌, ◌/◌, ◌*◌, inl, inr, ltb, Bool-cases, ◌+◌, ◌≤◌, ◌<◌, ◌≡◌, refl, Bool, true, false,
  List, [], ◌∷◌, arith, if◌then◌else◌,
}
use native.Mathlib.Nat.{suc-mul, div-mul-le_self, le-div_iff_mul-le}
use engge.Scripting.Verbs.World.{VerbWorld}
use engge.Scripting.Verbs.Functions.{
  reach_time, Command, VerbFunction, actor_walk, post_walk, set_default_verb, verb_execute,
  reach_anim, begins, plays, stands, over, end_walk, ask_post_walk, execute_verb, is_elapsed,
  call_function, Sentence, call_first,
}

module _ (world : VerbWorld) (c : Command) where
  open world use {World, play_reach, stand}

  -- What is left to do of a function: whether it stops the sentence, and the world behind it.
  unfoldable pub finish : VerbFunction world → World → Bool × World
  finish (actor_walk p d true) w = (false, w)
  finish (actor_walk p d false) w = end_walk world c p d w
  finish (post_walk true) w = (false, w)
  finish (post_walk false) w = ask_post_walk world c w
  finish (set_default_verb true) w = (false, w)
  finish (set_default_verb false) w = (false, VerbWorld.set_default_verb world w)
  finish (verb_execute true) w = (false, w)
  finish (verb_execute false) w = (false, execute_verb world c w)
  finish (reach_anim r begins t) w = (false, stand c.actor (play_reach c.actor r w))
  finish (reach_anim r plays t) w = (false, stand c.actor w)
  finish (reach_anim r stands t) w = (false, stand c.actor w)
  finish (reach_anim r over t) w = (false, w)

  unfoldable pub finish_all : List (VerbFunction world) → Bool → World → World
  unfolding finish
  finish_all fs true w = w
  finish_all [] false w = w
  finish_all (f ∷ fs) false w = let (stops, v) = finish f w in finish_all fs stops v

  drop_done :
      (fs : List (VerbFunction world)) (b : Bool) (w : World)
      → finish_all (post_walk true ∷ fs) b w ≡ finish_all fs b w
  unfolding finish_all
  drop_done fs true w = refl
  drop_done fs false w = refl

  -- A tick on the first function, where the actor does not walk: either it was elapsed, and what it had
  -- left is done, or it goes on with less to do.
  module _ (e : ℕ) (w : World) (arrived : VerbWorld.is_walking world c.actor w ≡ false) where
    pub call_first-finish_all :
        (f : VerbFunction world) (fs : List (VerbFunction world))
        → let (s, v) = call_first world c e f fs false w in
          finish_all s.functions s.stopped v ≡ finish_all (f ∷ fs) false w
    unfolding call_first is_elapsed call_function finish_all finish
    call_first-finish_all (actor_walk p d true) fs = refl
    call_first-finish_all (actor_walk p d false) fs = rw arrived refl
    call_first-finish_all (post_walk true) fs = refl
    call_first-finish_all (post_walk false) fs =
        drop_done fs (ask_post_walk world c w).0 (ask_post_walk world c w).1
    call_first-finish_all (set_default_verb true) fs = refl
    call_first-finish_all (set_default_verb false) fs = refl
    call_first-finish_all (verb_execute true) fs = refl
    call_first-finish_all (verb_execute false) fs = refl
    call_first-finish_all (reach_anim r begins t) fs = refl
    call_first-finish_all (reach_anim r plays t) fs = elim (Bool-cases (ltb reach_time (t + e))) [
      | inl ends ↦ rw ends refl
      | inr goes_on ↦ rw goes_on refl
    ]
    call_first-finish_all (reach_anim r stands t) fs = refl
    call_first-finish_all (reach_anim r over t) fs = refl

-- The updates take `m` microseconds and one more, at least.
module _ (world : VerbWorld) (c : Command) (m : ℕ) where
  open world use {World}

  -- The updates that a reach can still take.
  abbrev pub reach_updates : ℕ → ℕ
  reach_updates elapsed = (reach_time - elapsed) / suc m

  reach_updates-lt :
      (t e : ℕ) → suc m ≤ e → t + e ≤ reach_time → reach_updates (t + e) < reach_updates t
  reach_updates-lt t e h k =
      let q = reach_updates (t + e) in
      let fits : q * suc m ≤ reach_time - (t + e) =
        div-mul-le_self (reach_time - (t + e)) (suc m) in
      let split : suc q * suc m ≡ suc m + q * suc m = omega (arith, suc-mul q (suc m)) in
      (le-div_iff_mul-le {k = suc m} {x = suc q} {y = reach_time - t} (omega arith)).1
        (omega (arith, fits, split))

  -- The ticks that a function takes, where the actor does not walk.
  abbrev pub ticks_of : VerbFunction world → ℕ
  ticks_of (actor_walk p d is_done) = 1
  ticks_of (post_walk is_done) = if is_done then 1 else 2
  ticks_of (set_default_verb is_done) = if is_done then 1 else 2
  ticks_of (verb_execute is_done) = if is_done then 1 else 2
  ticks_of (reach_anim r begins t) = 4 + reach_updates t
  ticks_of (reach_anim r plays t) = 3 + reach_updates t
  ticks_of (reach_anim r stands t) = 2
  ticks_of (reach_anim r over t) = 1

  abbrev pub ticks_of_all : List (VerbFunction world) → ℕ
  ticks_of_all [] = 0
  ticks_of_all (f ∷ fs) = ticks_of f + ticks_of_all fs

  -- The ticks that are left of a sentence; one that is stopped is cleared by the next.
  abbrev pub ticks_left : Sentence world → ℕ
  ticks_left s =
      if s.stopped then elim s.functions [ [] ↦ 0 | f ∷ fs ↦ 1 ] else ticks_of_all s.functions

  pub ticks_of_pos : (f : VerbFunction world) → 1 ≤ ticks_of f
  ticks_of_pos (actor_walk p d b) = omega arith
  ticks_of_pos (post_walk b) = ground arith
  ticks_of_pos (set_default_verb b) = ground arith
  ticks_of_pos (verb_execute b) = ground arith
  ticks_of_pos (reach_anim r begins t) = omega arith
  ticks_of_pos (reach_anim r plays t) = omega arith
  ticks_of_pos (reach_anim r stands t) = omega arith
  ticks_of_pos (reach_anim r over t) = omega arith

  ticks_left-le :
      (fs : List (VerbFunction world)) (b : Bool)
      → ticks_left (record { functions = fs; stopped = b }) ≤ ticks_of_all fs
  ticks_left-le [] true = omega arith
  ticks_left-le (f ∷ fs) true = omega (arith, ticks_of_pos f)
  ticks_left-le fs false = omega arith

  module _ (e : ℕ) (w : World) (arrived : VerbWorld.is_walking world c.actor w ≡ false)
      (long : suc m ≤ e) where
    pub call_first-ticks_left :
        (f : VerbFunction world) (fs : List (VerbFunction world))
        → ticks_left (call_first world c e f fs false w).0 < ticks_of_all (f ∷ fs)
    unfolding call_first is_elapsed call_function
    call_first-ticks_left (actor_walk p d true) fs = omega (arith, ticks_left-le fs false)
    call_first-ticks_left (actor_walk p d false) fs =
        rw arrived (omega (arith, ticks_left-le fs (end_walk world c p d w).0))
    call_first-ticks_left (post_walk true) fs = omega arith
    call_first-ticks_left (post_walk false) fs =
        omega (arith, ticks_left-le (post_walk true ∷ fs) (ask_post_walk world c w).0)
    call_first-ticks_left (set_default_verb true) fs = omega arith
    call_first-ticks_left (set_default_verb false) fs = omega arith
    call_first-ticks_left (verb_execute true) fs = omega arith
    call_first-ticks_left (verb_execute false) fs = omega arith
    call_first-ticks_left (reach_anim r begins t) fs = omega arith
    call_first-ticks_left (reach_anim r plays t) fs = elim (Bool-cases (ltb reach_time (t + e))) [
      | inl ends ↦ rw ends (omega arith)
      | inr goes_on ↦
          let less = reach_updates-lt t e long (ground (arith, goes_on)) in
          rw goes_on (omega (arith, less))
    ]
    call_first-ticks_left (reach_anim r stands t) fs = omega arith
    call_first-ticks_left (reach_anim r over t) fs = omega arith
