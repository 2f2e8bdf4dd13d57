-- ===== src/Scripting/Verbs/Shape.antt =====
-- The sentences that `execute` makes, and how they end.
use engge.Base.{
  ℕ, suc, ◌/◌, ◌+◌, ◌≤◌, ◌≡◌, refl, subst, ◌∙◌, inl, inr, Bool, true, false, Option, none, some,
  List, [], ◌∷◌, ◌++◌, arith, sym, append_assoc, All-append, Option-cases, length, All, ◌==◌,
  if◌then◌else◌,
}
use engge.Scripting.Verbs.World.{Verb, VerbWorld}
use engge.Scripting.Verbs.Functions.{
  talk_to, reach_time, Command, VerbFunction, set_default_verb, verb_execute, execute_verb,
  Sentence, is_over,
}
use engge.Scripting.Verbs.Execute.{
  Execution, starts, asks_for, get_verb, goal_of, command_of, after_pre_walk, pre_walk_then,
  call_pre_walk, new_reach_anim, walk_functions, reach_functions, make_sentence, execute_with,
  execute,
}
use engge.Scripting.Verbs.Meaning.{finish, finish_all, ticks_of_all, ticks_left}
use engge.Scripting.Verbs.Ends.{run, HasArrived, run-finish_all}

module _ (world : VerbWorld) where
  open world use {World, current_actor}

  -- The function stands before the verb.
  abbrev pub IsBefore : VerbFunction world → Type 0
  IsBefore (verb_execute b) = ⊥
  IsBefore (set_default_verb b) = ⊥
  IsBefore _ = Unit

  abbrev pub verb_and_default : List (VerbFunction world)
  verb_and_default = verb_execute false ∷ set_default_verb false ∷ []

  -- What comes before the verb is a walk, a script and a reach at most; then the verb is carried out,
  -- and then it is set back.
  pub record IsVerbSentence (c : Command) (s : Sentence world) : Type 0 where
    pub before : List (VerbFunction world)
    pub parts : s.functions ≡ before ++ verb_and_default
    pub all_before : All IsBefore before
    pub starts_off : s.stopped ≡ false
    pub short : (m : ℕ) → ticks_of_all world c m before ≤ 7 + reach_time / suc m

  abbrev Good : Execution world → Type 0
  Good (starts c s) = IsVerbSentence c s
  Good _ = Unit

  reach-short :
      (c : Command) (m : ℕ) (verb : Verb) (o : ℕ) (w : World)
      → ticks_of_all world c m (reach_functions world verb o w) ≤ 4 + reach_time / suc m
  unfolding reach_functions new_reach_anim
  reach-short c m verb o w = ground arith

  walk-short :
      (c : Command) (m : ℕ) (actor : ℕ) (goal : Option ℕ) (w : World)
      → ticks_of_all world c m (walk_functions world actor goal w).0 ≤ 3
  unfolding walk_functions
  walk-short c m actor none w = omega arith
  walk-short c m actor (some o) w = omega arith

  walk-IsBefore :
      (actor : ℕ) (goal : Option ℕ) (w : World) → All IsBefore (walk_functions world actor goal w).0
  unfolding walk_functions
  walk-IsBefore actor none w = tt
  walk-IsBefore actor (some o) w = (tt, (tt, tt))

  reach-IsBefore : (verb : Verb) (o : ℕ) (w : World) → All IsBefore (reach_functions world verb o w)
  unfolding reach_functions new_reach_anim
  reach-IsBefore verb o w = ground arith

  ticks_of_all-append :
      (c : Command) (m : ℕ) (xs ys : List (VerbFunction world))
      → ticks_of_all world c m (xs ++ ys) ≡ ticks_of_all world c m xs + ticks_of_all world c m ys
  ticks_of_all-append c m [] ys = omega arith
  ticks_of_all-append c m (x ∷ xs) ys = omega (arith, ticks_of_all-append c m xs ys)

  before-short :
      (c : Command) (verb : Verb) (actor o : ℕ) (goal : Option ℕ) (w v : World) (m : ℕ)
      → ticks_of_all world c m
          ((walk_functions world actor goal w).0 ++ reach_functions world verb o v)
        ≤ 7 + reach_time / suc m
  before-short c verb actor o goal w v m = omega (
    arith,
    ticks_of_all-append c m (walk_functions world actor goal w).0 (reach_functions world verb o v),
    walk-short c m actor goal w,
    reach-short c m verb o v,
  )

  make_sentence-Good :
      (verb : Verb) (actor o : ℕ) (p : Option ℕ) (w : World)
      → Good (make_sentence world verb actor o p w).0
  unfolding make_sentence
  make_sentence-Good verb actor o p w =
      let goal = goal_of world verb o p w in
      let (walk, v) = walk_functions world actor goal w in
      let reach = reach_functions world verb o v in
      record {
        before = walk ++ reach;
        parts = sym (append_assoc walk reach verb_and_default);
        all_before =
            All-append IsBefore walk reach (walk-IsBefore actor goal w) (reach-IsBefore verb o v);
        starts_off = refl;
        short = before-short (command_of world verb actor o p goal) verb actor o goal w v;
      }

  after_pre_walk-Good :
      (handled : Bool) (actor : Option ℕ) (verb : Verb) (o : ℕ) (p : Option ℕ) (w : World)
      → Good (after_pre_walk world handled actor verb o p w).0
  unfolding after_pre_walk
  after_pre_walk-Good true actor verb o p w = tt
  after_pre_walk-Good false none verb o p w = tt
  after_pre_walk-Good false (some actor) verb o p w = make_sentence-Good verb actor o p w

  pre_walk_then-Good :
      (verb : Verb) (o : ℕ) (p : Option ℕ) (w : World) → Good (pre_walk_then world verb o p w).0
  unfolding pre_walk_then
  pre_walk_then-Good verb o p w =
      let (handled, v) = call_pre_walk world verb.id o p w in
      after_pre_walk-Good handled (current_actor v) verb o p v

  execute_with-Good :
      (verb : Verb) (o : ℕ) (p : Option ℕ) (w : World) → Good (execute_with world verb o p w).0
  unfolding execute_with
  execute_with-Good verb o p w =
      let second = if verb.id == talk_to then current_actor w else p in
      elim (Option-cases (asks_for world verb o second w)) [
        | inl e ↦ rw (execute_with, e) (pre_walk_then-Good verb o second w)
        | inr (flag, e) ↦ rw (execute_with, e) tt
      ]

  execute-Good :
      (verb : Option Verb) (o : ℕ) (p : Option ℕ) (w : World) → Good (execute world verb o p w).0
  unfolding execute
  execute-Good verb o p w = elim (Option-cases (get_verb world o verb w)) [
    | inl e ↦ rw (execute, e) tt
    | inr (v, e) ↦ rw (execute, e) (execute_with-Good v o p w)
  ]

  -- The functions one behind the other, until one stops the sentence: whether one did, and the world.
  unfoldable pub finish_until : Command → List (VerbFunction world) → World → Bool × World
  finish_until c [] w = (false, w)
  finish_until c (f ∷ fs) w =
      let (stops, v) = finish world c f w in
      let rest = finish_until c fs v in if stops then (true, v) else rest

  -- The world behind a sentence: that in which it was stopped, or that in which the verb was carried
  -- out and set back.
  abbrev pub ended : Command → Bool × World → World
  ended c (stopped, v) =
      if stopped then v else VerbWorld.set_default_verb world (execute_verb world c v)

  finish_all-stopped :
      (c : Command) (fs : List (VerbFunction world)) (w : World) → finish_all world c fs true w ≡ w
  unfolding finish_all
  finish_all-stopped c [] w = refl
  finish_all-stopped c (f ∷ fs) w = refl

  finish_all-step :
      (c : Command) (stops : Bool) (fs : List (VerbFunction world)) (v : World)
      → finish_all world c (fs ++ verb_and_default) false v ≡ ended c (finish_until c fs v)
      → finish_all world c (fs ++ verb_and_default) stops v
        ≡ ended c (if stops then (true, v) else finish_until c fs v)
  finish_all-step c true fs v h = finish_all-stopped c (fs ++ verb_and_default) v
  finish_all-step c false fs v h = h

  finish_all-before :
      (c : Command) (before : List (VerbFunction world)) (w : World)
      → finish_all world c (before ++ verb_and_default) false w ≡ ended c (finish_until c before w)
  unfolding finish_all finish finish_until
  finish_all-before c [] w = refl
  finish_all-before c (f ∷ fs) w =
      let (stops, v) = finish world c f w in finish_all-step c stops fs v (finish_all-before c fs v)

  sentence-run :
      (c : Command) (s : Sentence world) (v : World) (m : ℕ) (es : List ℕ)
      → All (λ e. suc m ≤ e) es
      → HasArrived world c es s v
      → 11 + reach_time / suc m ≤ length es
      → (good : IsVerbSentence c s)
      → (is_over (run world c es s v).0 ≡ true)
        × ((run world c es s v).1 ≡ ended c (finish_until c good.before v))
  sentence-run c s v m es long arrived enough good =
      let size = ticks_of_all-append c m good.before verb_and_default in
      let short = good.short m in
      let left : ticks_left world c m s ≤ length es =
        rw (good.starts_off, good.parts) (omega arith) in
      let (over, same) = run-finish_all world c m es s v long arrived left in
      (over, same ∙ rw (good.starts_off, good.parts) (finish_all-before c good.before v))

  -- A sentence that `execute` starts is ticked in updates that each take more than `m` microseconds, in
  -- none of which the actor walks any more and between which nothing else changes the world, eleven
  -- or more beside those that a reach of 330000 microseconds takes. It is over then. What stands in it before the verb are functions that do not
  -- carry out or set back a verb; the world behind it is the one in which one of them stopped it,
  -- without the verb being carried out or set back, or else the one in which the verb was carried out
  -- just once behind them, and then set back just once.
  pub execute-run :
      (verb : Option Verb) (object1 : ℕ) (object2 : Option ℕ) (c : Command) (s : Sentence world)
      (w v : World) (m : ℕ) (es : List ℕ)
      → (execute world verb object1 object2 w).0 ≡ starts c s
      → All (λ e. suc m ≤ e) es
      → HasArrived world c es s v
      → 11 + reach_time / suc m ≤ length es
      → (before : List (VerbFunction world)) × (s.functions ≡ before ++ verb_and_default)
        × All IsBefore before
        × (is_over (run world c es s v).0 ≡ true)
        × ((run world c es s v).1 ≡ ended c (finish_until c before v))
  execute-run verb object1 object2 c s w v m es e long arrived enough =
      let good : IsVerbSentence c s = subst Good e (execute-Good verb object1 object2 w) in
      let (over, same) = sentence-run c s v m es long arrived enough good in
      (good.before, good.parts, good.all_before, over, same)
