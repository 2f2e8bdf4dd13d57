-- ===== src/Examples/Triggers.antt =====
-- The theorem on triggers at an actor that comes, goes and comes again.
use engge.Base.{refl, true, false, none, some, [], ◌∷◌, codes}
use engge.Room.RoomTrigger.{RoomTrigger, inside_call, outside_call}
use engge.Room.RoomTrigger.Alternation.{Alternates, trig_all, trig_all-Alternates}

abbrev bench : RoomTrigger
bench = record {
  is_enabled = true;
  is_inside = false;
  inside_params_count = 2;
  outside_params_count = 1;
  inside_name = codes "sit";
  has_outside = true;
}

trig_all-Alternates_example :
    Alternates
      (inside_call bench)
      (outside_call bench)
      bench.is_inside
      (trig_all (some false ∷ some true ∷ none ∷ some true ∷ some false ∷ some true ∷ []) bench).0
      (trig_all
        (some false ∷ some true ∷ none ∷ some true ∷ some false ∷ some true ∷ [])
        bench).1.is_inside
trig_all-Alternates_example =
    trig_all-Alternates bench
      (some false ∷ some true ∷ none ∷ some true ∷ some false ∷ some true ∷ []) refl refl
