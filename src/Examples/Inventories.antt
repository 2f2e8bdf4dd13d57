-- ===== src/Examples/Inventories.antt =====
-- The theorems on the objects of actors at two actors and eleven objects.
use engge.Base.{
  ℕ, ◌+◌, ◌*◌, ◌≡◌, refl, none, some, List, [], ◌∷◌, get_elem?, ◌==◌, if◌then◌else◌, false, arith,
}
use engge.Base.Outcome.{done, fault, Returns}
use engge.Dialog.Ast.{pos, negsuc}
use engge.Engine.Inventory.{
  Game, View, Slot, icon_place, draw_objects, get_position, get_inventory_offset, index_of,
}
use engge.Engine.Inventory.Counts.{AllOwned, count, shares}
use engge.Engine.Inventory.Calls.{Call, make, make-AllOwned}
use engge.Engine.Inventory.Scroll.{shown, draw_objects-shown, get_position-shown}
use engge.Engine.Inventory.Reach.{clicks_down, clicks_down-shown}

-- The actor 1 carries the object 7, and the actor 2 carries nothing.
abbrev one_object : Game
one_object = record {
  objects = λ a. if a == 1 then 7 ∷ [] else [];
  owner = λ o. if o == 7 then some 1 else none;
}

one_object-AllOwned : AllOwned one_object
unfolding count shares
one_object-AllOwned a o = ground arith

make-AllOwned_example : Returns AllOwned (make (Call.gives 1 7 2) one_object)
make-AllOwned_example =
    make-AllOwned (Call.gives 1 7 2) one_object one_object-AllOwned
      (refl, λ e. absurd (omega (arith, e)))

abbrev eleven : List ℕ
eleven = 20 ∷ 21 ∷ 22 ∷ 23 ∷ 24 ∷ 25 ∷ 26 ∷ 27 ∷ 28 ∷ 29 ∷ 30 ∷ []

abbrev scrolled : View
scrolled = record {
  objects = eleven;
  offset = pos 1;
  current_object = none;
  mouse_was_down = false;
}

draw_objects-shown_example :
    (draw_objects scrolled ≡ done (shown scrolled))
    × (draw_objects (record scrolled { offset = negsuc 1 }) ≡ fault)
draw_objects-shown_example = draw_objects-shown scrolled 1 (omega arith) (omega arith)

-- Slots of 20 by 10 that stand in one row.
abbrev slots : ℕ → Slot
slots k = record { left = k * 20; top = 0; half_width = 10; half_height = 5 }

get_position-shown_example :
    (k : ℕ) × (get_elem? (shown scrolled) k ≡ some 30)
    × (130 ≡ (icon_place (slots k)).0 + (slots k).half_width)
    × (5 ≡ (icon_place (slots k)).1 + (slots k).half_height)
unfolding get_position get_inventory_offset index_of
get_position-shown_example =
    get_position-shown slots scrolled 30 1 (130, 5) refl (omega arith) (omega arith) refl

clicks_down-shown_example :
    (n : ℕ) × (k : ℕ) × (get_elem? (shown (clicks_down n (record scrolled { offset = pos 0 }))) k
      ≡ some 29)
clicks_down-shown_example = clicks_down-shown (record scrolled { offset = pos 0 }) 9 29 refl refl
