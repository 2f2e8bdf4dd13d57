-- ===== src/Engine/Inventory.antt =====
-- The objects that an actor carries (`Actor::pickupObject` to `clearInventory` and the offset,
-- src/Entities/Actor/Actor.cpp) and `Inventory` (src/Engine/Inventory.cpp), which shows eight of them
-- in two rows of four. Actors and objects are numbers; where the mouse is and whether its button is
-- down are arguments. The script that `pickupObject` calls at its end is left out.
pub mod Reach
pub mod Scroll
pub mod Calls
pub mod Counts
pub mod Owners
use engge.Base.{
  ℕ, zero, suc, ◌+◌, ◌-◌, ◌*◌, ◌^◌, Bool, true, false, not, ◌||◌, ◌&&◌, Option, none, some, List,
  [], ◌∷◌, ◌++◌, map, ltb, leb, ◌==◌, if◌then◌else◌, length, get_elem?, take, drop,
}
use engge.Base.Outcome.{Outcome, done, fault, ◌>>=◌}
use engge.Dialog.Ast.{ℤ, pos, negsuc}

-- Who carries what: the vectors of the actors, and the owners of the objects.
pub record Game : Type 0 where
  pub objects : ℕ → List ℕ
  pub owner : ℕ → Option ℕ

abbrev pub set_owner : ℕ → Option ℕ → Game → Game
set_owner object actor g = record g { owner = λ o. if o == object then actor else g.owner o }

abbrev pub set_objects : ℕ → List ℕ → Game → Game
set_objects actor os g = record g { objects = λ a. if a == actor then os else g.objects a }

unfoldable pub pickup_object : ℕ → ℕ → Game → Game
pickup_object actor object g =
    set_objects actor (g.objects actor ++ object ∷ []) (set_owner object (some actor) g)

-- `std::replace`
unfoldable pub replace : ℕ → ℕ → List ℕ → List ℕ
replace old new [] = []
replace old new (o ∷ os) = (if o == old then new else o) ∷ replace old new os

unfoldable pub pickup_replacement_object : ℕ → ℕ → ℕ → Game → Game
unfolding replace
pickup_replacement_object actor object1 object2 g =
    let owned = set_owner object2 (some actor) g in
    set_owner object1 none (set_objects actor (replace object1 object2 (g.objects actor)) owned)

-- `std::find` with what is before and behind the place found.
unfoldable pub split_at : ℕ → List ℕ → Option (List ℕ × List ℕ)
split_at object [] = none
split_at object (o ∷ os) =
    let rest = split_at object os in
    if o == object
    then some ([], os)
    else elim rest [ none ↦ none | some (before, behind) ↦ some (o ∷ before, behind) ]

-- To give what is not carried moves from, and erases, the end of the vector; to give to oneself
-- inserts into the vector whose iterator is then erased.
unfoldable pub give_to : ℕ → ℕ → ℕ → Game → Outcome Game
unfolding split_at
give_to actor object other g = elim (split_at object (g.objects actor)) [
  | none ↦ fault
  | some (before, behind) ↦
      if actor == other
      then fault
      else done (
          set_objects actor (before ++ behind)
            (set_objects other (g.objects other ++ object ∷ []) (set_owner object (some other) g)))
]

-- `std::remove`
unfoldable pub remove : ℕ → List ℕ → List ℕ
remove object [] = []
remove object (o ∷ os) = let rest = remove object os in if o == object then rest else o ∷ rest

unfoldable pub remove_inventory : ℕ → ℕ → Game → Game
unfolding remove
remove_inventory actor object g =
    set_objects actor (remove object (g.objects actor)) (set_owner object none g)

unfoldable pub disown : List ℕ → Game → Game
disown [] g = g
disown (o ∷ os) g = disown os (set_owner o none g)

unfoldable pub clear_inventory : ℕ → Game → Game
unfolding disown
clear_inventory actor g = set_objects actor [] (disown (g.objects actor) g)

-- The actor that the inventory shows, and the inventory. The offset is an `int`, which tools and save files
-- can set below 0 (`setInventoryOffset`).
pub record View : Type 0 where
  pub objects : List ℕ
  pub offset : ℤ
  pub current_object : Option ℕ
  pub mouse_was_down : Bool

-- Where the mouse is: in the rectangle of a slot, on an arrow; and whether its button is down.
pub record Mouse : Type 0 where
  pub on_slot : ℕ → Bool
  pub on_up : Bool
  pub on_down : Bool
  pub is_down : Bool

-- `getInventoryOffset`, which resets an offset behind the objects.
unfoldable pub get_inventory_offset : View → ℤ × View
get_inventory_offset v = elim v.offset [
  | pos n ↦
      if ltb (length v.objects) (n * 4) then (pos 0, record v { offset = pos 0 }) else (pos n, v)
  | negsuc n ↦ (negsuc n, v)
]

-- `inventoryOffset * 4 + i`, which is of 64 bits and wraps around.
abbrev pub index_at : ℤ → ℕ → ℕ
index_at (pos n) i = n * 4 + i
index_at (negsuc n) i = if ltb i (suc n * 4) then 2 ^ 64 + i - suc n * 4 else i - suc n * 4

abbrev is_zero : ℤ → Bool
is_zero (pos n) = n == 0
is_zero (negsuc n) = false

unfoldable pub has_up_arrow : View → Bool
unfolding get_inventory_offset
has_up_arrow v = not (is_zero (get_inventory_offset v).0)

-- `size > inventoryOffset * 4 + 8`
abbrev goes_on : ℤ → ℕ → Bool
goes_on (pos n) size = ltb (n * 4 + 8) size
goes_on (negsuc n) size = ltb 8 (size + suc n * 4)

unfoldable pub has_down_arrow : View → Bool
unfolding get_inventory_offset
has_down_arrow v = goes_on (get_inventory_offset v).0 (length v.objects)

-- The loop over the slots, from `i` on, `n` of them: the object under the mouse.
unfoldable pub object_under : ℕ → ℕ → ℤ → Mouse → List ℕ → Option ℕ
object_under zero i offset mouse os = none
object_under (suc n) i offset mouse os =
    let rest = object_under n (suc i) offset mouse os in
    if mouse.on_slot i && ltb (index_at offset i) (length os)
    then get_elem? os (index_at offset i)
    else rest

abbrev previous : ℤ → ℤ
previous (pos n) = if n == 0 then negsuc 0 else pos (n - 1)
previous (negsuc n) = negsuc (suc n)

abbrev next : ℤ → ℤ
next (pos n) = pos (n + 1)
next (negsuc n) = if n == 0 then pos 0 else negsuc (n - 1)

-- The arrows, once the button is let go.
unfoldable pub scroll : ℤ → Mouse → View → Bool × View
unfolding has_up_arrow has_down_arrow
scroll offset mouse v =
    if has_up_arrow v && mouse.on_up
    then (true, record v { offset = previous offset })
    else if has_down_arrow v && mouse.on_down
    then (true, record v { offset = next offset })
    else (false, v)

-- `update`; the answer is whether the offset is another.
unfoldable pub update : Mouse → View → Bool × View
unfolding get_inventory_offset object_under scroll
update mouse w =
    let (offset, v) = get_inventory_offset (record w { current_object = none }) in
    let released = scroll offset mouse (record v { mouse_was_down = mouse.is_down }) in
    elim (object_under 8 0 offset mouse v.objects) [
      | some o ↦ (false, record v { current_object = some o })
      | none ↦
          if not v.mouse_was_down || mouse.is_down
          then (false, record v { mouse_was_down = mouse.is_down })
          else released
    ]

-- `objects.at(inventoryOffset * 4 + i)` for `i` from `i` on, `n` times; `at` throws out of range.
unfoldable pub objects_at : ℕ → ℕ → ℤ → List ℕ → Outcome (List ℕ)
objects_at zero i offset os = done []
objects_at (suc n) i offset os = elim (get_elem? os (index_at offset i)) [
  | none ↦ fault
  | some o ↦ objects_at n (suc i) offset os >>= λ rest. done (o ∷ rest)
]

-- `size - inventoryOffset * 4`, which is of 64 bits and wraps around.
abbrev pub size_left : ℤ → ℕ → ℕ
size_left (pos n) size = if ltb size (n * 4) then 2 ^ 64 + size - n * 4 else size - n * 4
size_left (negsuc n) size = size + suc n * 4

-- The objects that `draw` shows, each in the slot of its number.
unfoldable pub draw_objects : View → Outcome (List ℕ)
unfolding get_inventory_offset objects_at
draw_objects w =
    let (offset, v) = get_inventory_offset w in
    let left = size_left offset (length v.objects) in
    objects_at (if ltb left 8 then left else 8) 0 offset v.objects

-- `std::distance(begin, std::find(begin, end, object))`
unfoldable pub index_of : ℕ → List ℕ → ℕ
index_of object [] = 0
index_of object (o ∷ os) = let rest = index_of object os in if o == object then 0 else suc rest

-- The rectangle of a slot: its top left corner, and the halves of its sizes.
pub record Slot : Type 0 where
  pub left : ℕ
  pub top : ℕ
  pub half_width : ℕ
  pub half_height : ℕ

-- Where `draw` centres the icon of the object in a slot: at the top left corner of its rectangle.
unfoldable pub icon_place : Slot → ℕ × ℕ
icon_place slot = (slot.left, slot.top)

-- The slot of an index, if it is one of the eight.
abbrev pub slot_of_index : ℤ → ℕ → Option ℕ
slot_of_index (pos n) index =
    if leb (n * 4) index && ltb index (n * 4 + 8) then some (index - n * 4) else none
slot_of_index (negsuc n) index =
    if ltb (index + suc n * 4) 8 then some (index + suc n * 4) else none

-- `getPosition` with the rectangles of the slots; `none` is the null vector.
unfoldable pub get_position : (ℕ → Slot) → ℕ → View → Option (ℕ × ℕ)
unfolding get_inventory_offset index_of
get_position slots object w =
    let (offset, v) = get_inventory_offset w in
    elim (slot_of_index offset (index_of object v.objects)) [
      | none ↦ none
      | some k ↦ some ((slots k).left + (slots k).half_width, (slots k).top + (slots k).half_height)
    ]
