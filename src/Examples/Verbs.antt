-- ===== src/Examples/Verbs.antt =====
-- A verb on an object of a small game, and the theorems on verbs at it.
use engge.Base.{
  ℕ, suc, Bool, ◌^◌, ◌≤◌, ◌≡◌, refl, ap, true, false, none, some, List, [], ◌∷◌, ◌++◌, codes, arith,
  All,
}
use engge.Scripting.Verbs.World.{Verb, VerbWorld, high}
use engge.Scripting.Verbs.Functions.{
  Command, VerbFunction, actor_walk, post_walk, set_default_verb, verb_execute, reach_anim,
  ReachState, Sentence, is_over,
}
use engge.Scripting.Verbs.Execute.{execute, starts}
use engge.Scripting.Verbs.Meaning.{finish_all}
use engge.Scripting.Verbs.Ends.{run, HasArrived, run-finish_all}
use engge.Scripting.Verbs.Shape.{IsBefore, verb_and_default, finish_until, ended, execute-run}

-- The world is whether the actor walks, with the list of what was done, the last first: 1 is a walk, 2 a
-- call, 3 a reach, 9 the default verb.
abbrev quiet : VerbWorld
quiet = record {
  World = Bool × List ℕ;
  Position = ℕ;
  same_position = λ p q. true;
  exists = λ o name w. false;
  inherits = λ o name w. true;
  parameter_count = λ o name w. 0;
  call = λ o name args w. (true, (w.0, 2 ∷ w.1));
  ask = λ o name verb a b w. (false, w);
  call_root = λ name args w. w;
  default_object = λ w. none;
  current_actor = λ w. some 7;
  is_object = λ o. true;
  is_inventory_object = λ o w. false;
  flags = λ o w. 2 ^ 15;
  default_verb = λ o w. 0;
  verb_of = λ id w. some (record { id = id; func = codes "verbOpen" });
  receiver = λ o w. o;
  selectable = λ o w. false;
  walk_to = λ actor o w. ((4, true), (true, 1 ∷ w.1));
  is_walking = λ actor w. w.0;
  position = λ actor w. 4;
  play_reach = λ actor r w. (w.0, 3 ∷ w.1);
  stand = λ actor w. w;
  give_to = λ actor o p w. w;
  set_default_verb = λ w. (w.0, 9 ∷ w.1);
}

abbrev open_verb : Verb
open_verb = record { id = 5; func = codes "verbOpen" }

abbrev opening : Command
opening = record { actor = 7; object1 = 3; object2 = none; verb = open_verb; walk_object = 3 }

abbrev open_sentence : Sentence quiet
open_sentence = record {
  functions =
      actor_walk 4 true false
      ∷ post_walk false
      ∷ reach_anim (some high) ReachState.begins 0
      ∷ verb_execute false
      ∷ set_default_verb false
      ∷ [];
  stopped = false;
}

execute_opens :
    execute quiet (some open_verb) 3 none (false, [])
    ≡ (starts opening open_sentence, (true, 1 ∷ []))
unfolding execute
execute_opens = refl

-- The actor has walked there.
abbrev there : VerbWorld.World quiet
there = (false, 1 ∷ [])

-- Fourteen updates of a tenth of a second.
abbrev tenth : ℕ
tenth = 100000

abbrev updates : List ℕ
updates =
    tenth ∷ tenth ∷ tenth ∷ tenth ∷ tenth ∷ tenth ∷ tenth ∷ tenth ∷ tenth ∷ tenth ∷ tenth ∷ tenth
    ∷ tenth ∷ tenth ∷ []

run_opens : (run quiet opening updates open_sentence there).1 ≡ (false, 9 ∷ 2 ∷ 3 ∷ 1 ∷ [])
unfolding run
run_opens = refl

updates_long : All (λ e. suc 99999 ≤ e) updates
updates_long = ground arith

updates-HasArrived : HasArrived quiet opening updates open_sentence there
unfolding HasArrived
updates-HasArrived = (
  refl,
  (
    refl,
    (
      refl,
      (refl, (refl, (refl, (refl, (refl, (refl, (refl, (refl, (refl, (refl, (refl, tt))))))))))),
    ),
  ),
)

run-finish_all_example :
    (is_over (run quiet opening updates open_sentence there).0 ≡ true)
    × ((run quiet opening updates open_sentence there).1
        ≡ finish_all quiet opening open_sentence.functions false there)
run-finish_all_example =
    run-finish_all quiet opening 99999 updates open_sentence there updates_long updates-HasArrived
      (omega arith)

execute-run_example :
    (before : List (VerbFunction quiet)) × (open_sentence.functions
      ≡ before ++ verb_and_default quiet)
    × All (IsBefore quiet) before
    × (is_over (run quiet opening updates open_sentence there).0 ≡ true)
    × ((run quiet opening updates open_sentence there).1
        ≡ ended quiet opening (finish_until quiet opening before there))
execute-run_example =
    execute-run quiet (some open_verb) 3 none opening open_sentence (false, []) there 99999 updates
      (ap (λ p. p.0) execute_opens) updates_long updates-HasArrived (omega arith)
