-- ===== src/Engine/Hover.antt =====
-- What is under the mouse, and what the keys do (src/Engine/EngineImpl.hpp): `getHoveredEntity`,
-- `updateHoveredEntity`, `updateMouseCursor`, `getDisplayName`, `isKeyPressed`, `updateKeys`, and `keyDown`
-- and `keyUp` of src/Engine/Engine.cpp. Entities and verbs are numbers, and 0 is no entity.
pub mod Topmost
pub mod Names
use engge.Base.{
  ℕ, zero, suc, ◌+◌, ◌-◌, ◌/◌, ◌%◌, ◌^◌, Bool, true, false, not, ◌&&◌, ◌||◌, Option, none, some,
  List, [], ◌∷◌, ◌++◌, Bytes, ltb, leb, ◌==◌, if◌then◌else◌, length, get_elem?, take, drop,
}
use engge.Dialog.Ast.{ℤ}

-- An actor or an object where the mouse is: whether it is the current actor, in the room, touchable,
-- under the mouse, and how far behind it stands, an `int` of which only the order counts.
pub record Candidate : Type 0 where
  pub id : ℕ
  pub is_current_actor : Bool
  pub is_in_room : Bool
  pub is_touchable : Bool
  pub is_under_mouse : Bool
  pub z_order : ℕ

-- A round of the loop over the actors: the first of those that stand farthest in front.
unfoldable pub find_actor : Candidate → Option Candidate → Option Candidate
find_actor a none =
    if a.is_current_actor || not a.is_in_room || not a.is_under_mouse then none else some a
find_actor a (some b) =
    if a.is_current_actor || not a.is_in_room || not a.is_under_mouse
    then some b
    else if ltb a.z_order b.z_order
    then some a
    else some b

-- A round of the loop over the objects: the last of those that stand farthest in front.
unfoldable pub find_object : Candidate → Option Candidate → Option Candidate
find_object o none = if not o.is_touchable || not o.is_under_mouse then none else some o
find_object o (some b) =
    if not o.is_touchable || not o.is_under_mouse
    then some b
    else if leb o.z_order b.z_order
    then some o
    else some b

unfoldable pub hovered_actor : List Candidate → Option Candidate → Option Candidate
unfolding find_actor
hovered_actor [] found = found
hovered_actor (a ∷ as') found = hovered_actor as' (find_actor a found)

unfoldable pub hovered_object : List Candidate → Option Candidate → Option Candidate
unfolding find_object
hovered_object [] found = found
hovered_object (o ∷ os) found = hovered_object os (find_object o found)

-- `getHoveredEntity`; the object of the inventory counts where nothing else is under the mouse.
unfoldable pub get_hovered_entity :
    Bool → Option Candidate → List Candidate → List Candidate → Option Candidate
unfolding hovered_actor hovered_object
get_hovered_entity is_fullscreen inventory actors objects =
    elim (hovered_object objects (hovered_actor actors none)) [
      | some c ↦ some c
      | none ↦ if is_fullscreen then none else inventory
    ]

-- The state of the verb of the player.
pub record Hover : Type 0 where
  pub current_verb : Option ℕ
  pub verb_override : Option ℕ
  pub use_object : Option ℕ
  pub hovered : Option ℕ
  pub object1 : ℕ
  pub object2 : Option ℕ

-- What is asked of entities.
pub record Entities : Type 0 where
  pub default_verb : ℕ → ℕ
  pub is_inventory_object : ℕ → Bool
  pub is_talkable : ℕ → Bool
  pub is_giveable : ℕ → Bool
  pub is_actor : ℕ → Bool

abbrev id_of : Option ℕ → ℕ
id_of none = 0
id_of (some o) = o

-- The first and the second object, before the verb is looked at.
unfoldable pub pick_objects : Hover → Hover
pick_objects h =
    let verb = record h {
      verb_override = none;
      current_verb = elim h.current_verb [ none ↦ some 1 | some v ↦ some v ];
    } in
    elim h.use_object [
      | some o ↦ record verb { object1 = o; object2 = h.hovered }
      | none ↦ record verb { object1 = id_of h.hovered; object2 = none }
    ]

-- The second object is not the first.
unfoldable pub drop_same : Hover → Hover
drop_same h = elim h.object2 [
  | none ↦ h
  | some o ↦ if o == h.object1 then record h { object2 = none } else h
]

unfoldable pub drop_ungiveable : Entities → Hover → Hover
drop_ungiveable e h = elim h.object2 [
  | none ↦ h
  | some o ↦ if e.is_giveable o then h else record h { object2 = none }
]

-- What each verb takes: 1 walks to, 3 talks to, 9 gives.
unfoldable pub check_verb : Entities → ℕ → Hover → Hover
unfolding drop_ungiveable
check_verb e verb h =
    if verb == 1
    then (if e.is_inventory_object h.object1
        then record h { verb_override = some (e.default_verb h.object1) }
        else h)
    else if verb == 3
    then (if e.is_talkable h.object1 then h else record h { object1 = 0 })
    else if verb == 9
    then drop_ungiveable e (if e.is_inventory_object h.object1 then h else record h { object1 = 0 })
    else if e.is_actor h.object1
    then record h { object1 = 0 }
    else h

-- `updateHoveredEntity`
unfoldable pub update_hovered_entity : Entities → Bool → Hover → Hover
unfolding pick_objects drop_same check_verb
update_hovered_entity e is_right_click h =
    let picked = pick_objects h in
    let other = drop_same picked in
    let clicked =
      if is_right_click
      then record other { verb_override = some (e.default_verb other.object1) }
      else other in
    if picked.object1 == 0
    then picked
    else elim clicked.current_verb [ none ↦ clicked | some verb ↦ check_verb e verb clicked ]

-- The directions of the cursor.
pub data CursorDirection : Type 0 where
  left right up down hotspot : CursorDirection

-- The bit of a door, and that of its direction.
abbrev has_door : ℕ → ℕ → Bool
has_door flags bit = (flags / 2 ^ 6 % 2 == 1) && (flags / 2 ^ bit % 2 == 1)

-- `updateMouseCursor`, for the mouse near the left or the right edge of the screen.
unfoldable pub update_mouse_cursor : Bool → Bool → ℕ → ℕ → List CursorDirection
update_mouse_cursor near_left near_right flags object1 =
    let across =
      if near_left || has_door flags 8
      then left ∷ []
      else if near_right || has_door flags 9
      then right ∷ []
      else [] in
    let along =
      if has_door flags 11 then down ∷ [] else if has_door flags 10 then up ∷ [] else [] in
    let directions = across ++ along in
    if length directions == 0 && not (object1 == 0) then hotspot ∷ [] else directions

abbrev starts_with_mark : Bytes → Bool
starts_with_mark [] = false
starts_with_mark (c ∷ cs) = c == b'^'

abbrev is_hash : Option ℕ → Bool
is_hash none = false
is_hash (some c) = c == b'#'

-- `getDisplayName`: without a mark before the name, or else without the mark behind it.
unfoldable pub get_display_name : Bytes → Bytes
get_display_name name =
    let len = length name in
    let shown = if ltb 1 len && starts_with_mark name then drop 1 name else name in
    if ltb 2 len && is_hash (get_elem? shown (len - 2)) then take (len - 2) name else shown

-- The keys that are down, as they were at the last update and as they are now, each once.
pub record Keys : Type 0 where
  pub old : List ℕ
  pub new : List ℕ

abbrev pub holds : ℕ → List ℕ → Bool
holds key [] = false
holds key (k ∷ ks) = k == key || holds key ks

unfoldable pub key_down : ℕ → Keys → Keys
key_down key k = if holds key k.new then k else record k { new = key ∷ k.new }

unfoldable pub without : ℕ → List ℕ → List ℕ
without key [] = []
without key (k ∷ ks) = let rest = without key ks in if k == key then rest else k ∷ rest

unfoldable pub key_up : ℕ → Keys → Keys
unfolding without
key_up key k = record k { new = without key k.new }

unfoldable pub is_key_pressed : ℕ → Keys → Bool
is_key_pressed key k = holds key k.old && not (holds key k.new)

-- The calls of `execute` of the command manager: of a key, and of a key that is down or not.
pub data KeyCall : Type 0 where
  execute : ℕ → KeyCall
  execute_down : ℕ → Bool → KeyCall

unfoldable pub released_calls : List ℕ → Keys → List KeyCall
unfolding is_key_pressed
released_calls [] k = []
released_calls (key ∷ keys) k =
    let rest = released_calls keys k in
    if is_key_pressed key k then execute key ∷ execute_down key false ∷ rest else rest

unfoldable pub held_calls : List ℕ → Keys → List KeyCall
held_calls [] k = []
held_calls (key ∷ keys) k =
    let rest = held_calls keys k in if holds key k.old then execute_down key true ∷ rest else rest

-- `updateKeys`
unfoldable pub update_keys : Keys → List KeyCall × Keys
unfolding released_calls held_calls
update_keys k = (released_calls k.old k ++ held_calls k.new k, record k { old = k.new })
