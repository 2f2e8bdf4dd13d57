-- ===== src/Engine/ActorSlots.antt =====
-- The slots of the actors that can be chosen (include/engge/Engine/ActorIconSlot.hpp): choosing by
-- number, the next and the previous one (src/Engine/EngineImpl.hpp), changes of the slots
-- (src/Engine/Engine.cpp), and the icons (src/Engine/ActorIcons.cpp) with the heights at which they
-- are drawn. Actors are numbers. The blinking of the icons and their pictures are left out, and the
-- rectangles that the mouse is in are known by the number of their row.
pub mod Next
pub mod Previous
pub mod Icons
use engge.Base.{
  ℕ, zero, suc, ◌+◌, ◌*◌, ◌-◌, ◌%◌, ◌/◌, Bool, true, false, not, ◌&&◌, ◌||◌, Option, none, some,
  List, [], ◌∷◌, ltb, leb, ◌==◌, if◌then◌else◌, length, get_elem?, set,
}
use engge.Base.Outcome.{Outcome, done, fault}
use engge.Dialog.Ast.{ℤ, pos, negsuc}

pub record ActorIconSlot : Type 0 where
  pub selectable : Bool
  pub actor : Option ℕ

-- Two pointers are the same.
abbrev pub same : Option ℕ → Option ℕ → Bool
same none none = true
same (some a) (some b) = a == b
same _ _ = false

-- The actor that `setCurrentActor` is called with, if it is called.
abbrev pub Choice : Type 0
Choice = Option (Option ℕ)

-- `getCurrentActorIndex`, of `ActorIcons` too; `none` is -1.
unfoldable pub get_current_actor_index : Option ℕ → List ActorIconSlot → Option ℕ
get_current_actor_index current [] = none
get_current_actor_index current (s ∷ ss) =
    let rest = get_current_actor_index current ss in
    if same s.actor current then some 0 else elim rest [ none ↦ none | some i ↦ some (suc i) ]

-- `selectActor`
unfoldable pub select_actor : ℤ → List ActorIconSlot → Choice
select_actor (negsuc n) slots = none
select_actor (pos zero) slots = none
select_actor (pos (suc i)) slots = elim (get_elem? slots i) [
  | none ↦ none
  | some s ↦ if s.selectable then some s.actor else none
]

-- The loops of `selectNextActor` and `selectPreviousActor`: `n` rounds from the round `i` on, each
-- with its index, where `none` is an index below 0.
unfoldable pub select_from : (ℕ → Option ℕ) → ℕ → List ActorIconSlot → ℕ → ℕ → Outcome Choice
select_from index_at current slots zero i = done none
select_from index_at current slots (suc n) i =
    let rest = select_from index_at current slots n (suc i) in
    elim (index_at i) [
      | none ↦ fault
      | some index ↦ if index == current then done none else elim (get_elem? slots index) [
        | none ↦ fault
        | some s ↦ if s.selectable then done (some s.actor) else rest
      ]
    ]

unfoldable pub next_index : ℕ → ℕ → ℕ → Option ℕ
next_index size current i = some ((current + i + 1) % size)

-- An index below 0 gets `size - 1` added.
unfoldable pub previous_index : ℕ → ℕ → ℕ → Option ℕ
previous_index size current i =
    if ltb i current
    then some (current - i - 1)
    else if ltb (i + 1) (current + size)
    then some (current + size - 1 - (i + 1))
    else none

unfoldable pub select_next_actor : Option ℕ → List ActorIconSlot → Outcome Choice
unfolding get_current_actor_index select_from next_index
select_next_actor actor slots = elim (get_current_actor_index actor slots) [
  | none ↦ done none
  | some current ↦ select_from (next_index (length slots) current) current slots (length slots) 0
]

unfoldable pub select_previous_actor : Option ℕ → List ActorIconSlot → Outcome Choice
unfolding get_current_actor_index select_from previous_index
select_previous_actor actor slots = elim (get_current_actor_index actor slots) [
  | none ↦ done none
  | some current ↦
      select_from (previous_index (length slots) current) current slots (length slots) 0
]

-- `addSelectableActor`; `at` throws out of range.
unfoldable pub add_selectable_actor :
    ℕ → Option ℕ → List ActorIconSlot → Outcome (List ActorIconSlot)
add_selectable_actor index actor slots =
    if index == 0 || ltb (length slots) index
    then fault
    else done (set slots (index - 1) (record { selectable = true; actor = actor }))

-- `actorSlotSelectable` of an actor
unfoldable pub actor_slot_selectable : Option ℕ → Bool → List ActorIconSlot → List ActorIconSlot
actor_slot_selectable actor selectable [] = []
actor_slot_selectable actor selectable (s ∷ ss) =
    let rest = actor_slot_selectable actor selectable ss in
    if same s.actor actor then record s { selectable = selectable } ∷ ss else s ∷ rest

-- `isActorSelectable`
unfoldable pub is_actor_selectable : Option ℕ → List ActorIconSlot → Bool
is_actor_selectable actor [] = false
is_actor_selectable actor (s ∷ ss) =
    let rest = is_actor_selectable actor ss in if same s.actor actor then s.selectable else rest

-- The rooms of the actors are a parameter: whether the actor is in a room, and not in that named
-- "Void".
module _ (in_room : ℕ → Bool) where
  -- `isSelectable` of `ActorIcons`
  unfoldable pub is_selectable : ActorIconSlot → Bool
  is_selectable s =
      if not s.selectable then false else elim s.actor [ none ↦ false | some a ↦ in_room a ]

  -- The slot is passed over: the actor cannot be selected, or is the current one.
  abbrev pub is_passed : Option ℕ → ActorIconSlot → Bool
  is_passed current s = not (is_selectable s) || same s.actor current

-- `getIconsNum`, which does not look at the rooms.
unfoldable pub get_icons_num : Option ℕ → List ActorIconSlot → ℕ
get_icons_num current [] = 1
get_icons_num current (s ∷ ss) =
    let rest = get_icons_num current ss in
    if not s.selectable || same s.actor none || same s.actor current then rest else suc rest

-- An icon of the column below the current actor, whose last is that of the options.
pub data Icon : Type 0 where
  actor_icon : Option ℕ → Icon
  gear : Icon

-- The mode is a set of bits: 1 is on, 2 is unselectable for a time.
abbrev pub is_enabled : ℕ → Bool
is_enabled mode = (mode % 2 == 1) && not (mode / 2 % 2 == 1)

-- The clock counts microseconds, and the position stands for the share of 250000 of them, in which
-- the icons slide out.
pub record ActorIcons : Type 0 where
  pub mode : ℕ
  pub is_inside : Bool
  pub is_mouse_button_pressed : Bool
  pub clock : ℕ
  pub position : ℕ

-- What `update` does to the engine.
pub data IconCall : Type 0 where
  set_current_actor : Option ℕ → IconCall
  show_options : IconCall

-- Where the mouse is: in the rectangle of that many icons, and in the rectangle of a row, the one of
-- the current actor being the row 0; and the time since the update before.
pub record Mouse : Type 0 where
  pub in_column : ℕ → Bool
  pub on_icon : ℕ → Bool
  pub is_down : Bool
  pub elapsed : ℕ

-- The upper edge of the rectangle that `update` has for a row: `topMargin`, and `iconSize.y` with
-- `iconsMargin` for each row above. An icon is 54 high.
abbrev pub row_top : ℕ → ℕ
row_top row = 4 + (54 + 6) * row

-- `getOffsetY`, times the 250000 of a full position.
unfoldable pub get_offset_y : ActorIcons → ℕ → ℕ
get_offset_y icons num =
    if icons.is_inside
    then (4 + 54 / 2 + (54 + 6) * num) * icons.position
    else (4 + 54 / 2 + (54 + 6) * num) * 250000

-- The icons of the rows from `num` on, with the heights of their middles.
unfoldable pub place_icons : ActorIcons → ℕ → List Icon → List (Icon × ℕ)
place_icons icons num [] = []
place_icons icons num (i ∷ is) = (i, get_offset_y icons num) ∷ place_icons icons (suc num) is

module _ (in_room : ℕ → Bool) where
  -- The loop of `draw` over the icons below the first.
  unfoldable pub drawn_icons : Option ℕ → List ActorIconSlot → List Icon
  unfolding is_selectable
  drawn_icons current [] = gear ∷ []
  drawn_icons current (s ∷ ss) =
      let rest = drawn_icons current ss in
      if is_passed in_room current s then rest else actor_icon s.actor ∷ rest

  -- `draw` once the slot of the current actor is found: the first icon is that of the current actor,
  -- which must not be null for it; the others show while the mouse is inside.
  unfoldable pub draw_column :
      Option ℕ → List ActorIconSlot → ActorIcons → Outcome (List (Icon × ℕ))
  unfolding drawn_icons place_icons
  draw_column none slots icons = fault
  draw_column (some actor) slots icons =
      let below = if icons.is_inside then drawn_icons (some actor) slots else [] in
      done (place_icons icons 0 (actor_icon (some actor) ∷ below))

  unfoldable pub draw : Option ℕ → List ActorIconSlot → ActorIcons → Outcome (List (Icon × ℕ))
  unfolding get_current_actor_index draw_column
  draw current slots icons =
      if icons.mode / 2 % 2 == 1 then done [] else elim (get_current_actor_index current slots) [
        | none ↦ done []
        | some index ↦ draw_column current slots icons
      ]

  -- The loop of `update`, with the number of the icon that the rectangle stands at.
  unfoldable pub click_icons :
      Bool → (ℕ → Bool) → Option ℕ → List ActorIconSlot → ℕ → Option IconCall
  unfolding is_selectable
  click_icons enabled on_icon current [] k = if on_icon k then some show_options else none
  click_icons enabled on_icon current (s ∷ ss) k =
      let passed = click_icons enabled on_icon current ss k in
      let rest = click_icons enabled on_icon current ss (suc k) in
      if is_passed in_room current s
      then passed
      else if enabled && on_icon k
      then some (set_current_actor s.actor)
      else rest

  -- `update` up to the buttons: the mouse comes in or goes out, and the icons slide.
  unfoldable pub slide : Mouse → Option ℕ → List ActorIconSlot → ActorIcons → ActorIcons
  unfolding get_icons_num
  slide mouse current slots icons =
      let inside = mouse.in_column (if icons.is_inside then get_icons_num current slots else 0) in
      let stays = if icons.is_inside then inside else not inside in
      let clock = if stays then icons.clock + mouse.elapsed else 0 in
      record icons {
        is_inside = inside;
        clock = clock;
        position = if ltb 250000 clock then 250000 else clock;
      }

  -- `update`
  unfoldable pub update :
      Mouse → Option ℕ → List ActorIconSlot → ActorIcons → Option IconCall × ActorIcons
  unfolding slide click_icons
  update mouse current slots icons =
      let moved = slide mouse current slots icons in
      if moved.is_inside && not moved.is_mouse_button_pressed && mouse.is_down
      then (none, record moved { is_mouse_button_pressed = true })
      else if moved.is_mouse_button_pressed && not mouse.is_down
      then (
        click_icons (is_enabled icons.mode) mouse.on_icon current slots 1,
        record moved { is_mouse_button_pressed = false },
      )
      else (none, moved)
