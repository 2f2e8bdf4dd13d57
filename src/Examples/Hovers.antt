-- ===== src/Examples/Hovers.antt =====
-- The theorems on the camera, on what is under the mouse and on the names of objects, at small ones.
use engge.Base.{
  ℕ, ◌+◌, ◌≤◌, ◌≡◌, refl, ◌⊎◌, inl, true, false, none, some, List, [], ◌∷◌, codes, In, All, arith,
  ltb,
}
use engge.Base.Outcome.{Returns}
use engge.Engine.Camera.{Scale, Extent, Camera}
use engge.Engine.Camera.Inside.{
  Call, FitsScreen, IsInside, puts, sets_bounds, pans, updates, make_all, make_all-IsInside,
}
use engge.Engine.Hover.{Candidate, get_hovered_entity, get_display_name}
use engge.Engine.Hover.Topmost.{hits_actor, hits_object, get_hovered_entity-Topmost}
use engge.Engine.Hover.Names.{get_display_name-marks}

-- Positions are whole numbers, times are counted in seconds, and a pan is at its target at once.
abbrev whole : Scale
whole = record {
  Float = ℕ;
  TimeSpan = ℕ;
  zero_float = 0;
  of_nat = λ n. n;
  trunc = λ x. x;
  is_negative = λ x. false;
  plus = λ x y. x + y;
  interpolate = λ function elapsed time init target. target;
  no_time = 0;
  add_time = λ s t. s + t;
  is_before = ltb;
}

abbrev wide : Extent
wide = record { room_size = 640; screen_size = 320 }

wide-FitsScreen : FitsScreen wide
wide-FitsScreen = omega arith

abbrev middle : Camera whole
middle = record {
  position = 200;
  bounds = none;
  is_moving = false;
  init = 0;
  target = 200;
  elapsed = 0;
  time = 0;
  function = 0;
}

abbrev moves : List (Call whole)
moves =
    sets_bounds (record { low = 100; high = 300 })
    ∷ puts 10
    ∷ pans 500 2 1
    ∷ updates 1
    ∷ updates 1
    ∷ []

make_all-IsInside_example :
    Returns
      (λ d. IsInside whole wide wide-FitsScreen d.position)
      (make_all (some wide) moves middle)
make_all-IsInside_example =
    make_all-IsInside whole wide wide-FitsScreen moves middle
      (omega arith, (tt, (tt, (tt, (tt, tt))))) tt (200, refl, omega arith, omega arith)

abbrev standing : ℕ → ℕ → Candidate
standing id z_order = record {
  id = id;
  is_current_actor = false;
  is_in_room = true;
  is_touchable = true;
  is_under_mouse = true;
  z_order = z_order;
}

abbrev actors : List Candidate
actors = standing 1 30 ∷ standing 2 20 ∷ []

abbrev objects : List Candidate
objects = standing 3 20 ∷ standing 4 40 ∷ []

get_hovered_entity-Topmost_example :
    (d : Candidate) × (get_hovered_entity false none actors objects ≡ some d)
    × ((In d actors × (hits_actor d ≡ true)) ⊎ (In d objects × (hits_object d ≡ true)))
    × All (λ a. (hits_actor a ≡ false) ⊎ (d.z_order ≤ a.z_order)) actors
    × All (λ o. (hits_object o ≡ false) ⊎ (d.z_order ≤ o.z_order)) objects
get_hovered_entity-Topmost_example =
    get_hovered_entity-Topmost false none actors objects (standing 1 30) (inl (inl refl, refl))

-- The object wins over the actor that stands beside it.
hovered_object_of_scene : get_hovered_entity false none actors objects ≡ some (standing 3 20)
unfolding get_hovered_entity
hovered_object_of_scene = refl

get_display_name-marks_example :
    (get_display_name (codes "door#2") ≡ codes "door")
    × (get_display_name (codes "doorA2") ≡ codes "doorA2")
    × (get_display_name (codes "^oorA") ≡ codes "oorA")
    × (get_display_name (codes "^oor2#") ≡ codes "^oor")
    × (get_display_name (codes "d2") ≡ codes "d2")
    × (get_display_name (codes "^#") ≡ codes "#")
    × (get_display_name (codes "2") ≡ codes "2")
    × (get_display_name [] ≡ [])
get_display_name-marks_example =
    get_display_name-marks b'd' b'A' b'2' (codes "oor") (omega arith) (omega arith)
