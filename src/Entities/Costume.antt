-- ===== src/Entities/Costume.antt =====
-- `Costume` (include/engge/Entities/Costume.hpp, src/Entities/Actor/Costume.cpp): which animation an
-- actor shows, and which of its layers. The control that plays it is a parameter. A pointer to an
-- animation is its index.
pub mod Layers
pub mod Calls
use engge.Base.{
  ℕ, zero, suc, ◌+◌, Bool, true, false, not, ◌&&◌, ◌||◌, Option, none, some, List, [], ◌∷◌, ◌++◌,
  map, Bytes, bytes_eq, codes, ◌==◌, if◌then◌else◌, length, get_elem?, set,
}
use engge.Dialog.Ast.{ℤ, pos, negsuc}
use engge.Scripting.Verbs.World.{Reaching, high, medium, low}
use engge.Util.Conversions.{Facing}
use engge.Util.Strings.{starts_with}
use engge.Entities.CostumeLayers.{
  Layer, CostumeAnimation, contains, hide, unhide, set_layer, show_unhidden, find_animation, passes,
  head_layer, head_is, same_facing, facings_of, direction_name, on_animation, is_null, same_index,
  new_name,
}

-- `AnimControl`
pub record Control : Type 1 where
  pub State : Type 0
  pub set_animation : ℕ → State → State
  pub play : Bool → State → State
  pub get_loop : State → Bool

-- `hidden_layers` is a `std::set`; `control` is `_animControl`.
pub record Costume (player : Control) : Type 0 where
  pub animations : List CostumeAnimation
  pub current : Option ℕ
  pub facing : Facing
  pub hidden_layers : List Bytes
  pub animation : Bytes
  pub stand_name : Bytes
  pub head_name : Bytes
  pub walk_name : Bytes
  pub reach_name : Bytes
  pub head_index : ℤ
  pub facings : Facing → Facing
  pub lock_facing : Bool
  pub control : Control.State player

module _ {player : Control} where
  abbrev pub on_current : (List Layer → List Layer) → Costume player → Costume player
  on_current f c = elim c.current [
    | none ↦ c
    | some i ↦ record c { animations = on_animation i f c.animations }
  ]

  -- The name of the current animation.
  abbrev pub current_name : Costume player → Option Bytes
  current_name c = elim c.current [
    | none ↦ none
    | some i ↦ elim (get_elem? c.animations i) [ none ↦ none | some a ↦ some a.name ]
  ]

  abbrev pub current_layers : Costume player → List Layer
  current_layers c = elim c.current [
    | none ↦ []
    | some i ↦ elim (get_elem? c.animations i) [ none ↦ [] | some a ↦ a.layers ]
  ]

  -- `setLayerVisible`
  unfoldable pub set_layer_visible : Bytes → Bool → Costume player → Costume player
  unfolding hide unhide set_layer
  set_layer_visible name visible c = on_current (set_layer name visible) (record c {
    hidden_layers = if visible then unhide name c.hidden_layers else hide name c.hidden_layers;
  })

  -- `getFacing`
  unfoldable pub get_facing : Costume player → Facing
  get_facing c = if c.lock_facing then c.facings c.facing else c.facing

  -- `setAnimation` and `setMatchingAnimation`, which differ in their test of the name.
  unfoldable pub choose_animation : (Bytes → Bool) → Costume player → Bool × Costume player
  unfolding find_animation show_unhidden
  choose_animation test c =
      let is_current = passes test (current_name c) in
      if is_current then (true, c) else elim (find_animation test c.animations) [
        | none ↦ (false, c)
        | some i ↦ (
          true,
          record c {
            current = some i;
            animations = on_animation i (show_unhidden c.hidden_layers) c.animations;
            control = Control.play player false (Control.set_animation player i c.control);
          },
        )
      ]

  unfoldable pub set_animation : Bytes → Costume player → Bool × Costume player
  unfolding choose_animation
  set_animation name = choose_animation (λ n. bytes_eq n name)

  unfoldable pub set_matching_animation : Bytes → Costume player → Bool × Costume player
  unfolding choose_animation
  set_matching_animation name = choose_animation (λ n. starts_with n name)

  -- The loop of `setHeadIndex` over the heads from `i` on, `n` of them.
  unfoldable pub show_heads : ℕ → ℕ → ℤ → Costume player → Costume player
  unfolding head_layer set_layer_visible
  show_heads zero i index c = c
  show_heads (suc n) i index c =
      show_heads n (suc i) index (set_layer_visible (head_layer c.head_name i) (head_is index i) c)

  unfoldable pub set_head_index : ℤ → Costume player → Costume player
  unfolding show_heads
  set_head_index index c =
      let moved = record c { head_index = index } in
      elim moved.current [ none ↦ moved | some i ↦ show_heads 6 0 index moved ]

  -- The loop over the layers whose name starts with "eyes_".
  unfoldable pub hide_eyes : List Layer → Costume player → Costume player
  unfolding set_layer_visible
  hide_eyes [] c = c
  hide_eyes (l ∷ ls) c =
      hide_eyes ls
        (if starts_with l.name (codes "eyes_") then set_layer_visible l.name false c else c)

  -- The name that a state stands for.
  unfoldable pub animation_name : Costume player → Bytes
  animation_name c =
      if bytes_eq c.animation (codes "stand")
      then c.stand_name
      else if bytes_eq c.animation (codes "head")
      then c.head_name
      else if bytes_eq c.animation (codes "walk")
      then c.walk_name
      else if bytes_eq c.animation (codes "reach")
      then c.reach_name
      else c.animation

  -- The animation of the name, or else that with the direction behind it.
  unfoldable pub find_facing : Bytes → Costume player → Costume player
  unfolding direction_name get_facing set_animation set_matching_animation
  find_facing name c =
      let (found, d) = set_animation name c in
      let facing_name = name ++ (codes "_" ++ direction_name (get_facing d)) in
      let (found', e) = set_animation facing_name d in
      if found then d else if found' then e else (set_matching_animation facing_name e).1

  -- `updateAnimation`
  unfoldable pub update_animation : Costume player → Costume player
  unfolding animation_name hide_eyes find_facing set_head_index
  update_animation c =
      let name = animation_name c in
      if not (is_null c.current) && starts_with name (codes "eyes_")
      then set_layer_visible name true (hide_eyes (current_layers c) c)
      else let d = find_facing name c in set_head_index d.head_index d

  -- `setState`
  unfoldable pub set_state : Bytes → Bool → Costume player → Costume player
  unfolding update_animation
  set_state name loop c =
      let d = update_animation (record c { animation = name }) in
      if same_index c.current d.current
      then d
      else record d { control = Control.play player loop d.control }

  unfoldable pub set_facing : Facing → Costume player → Costume player
  unfolding update_animation
  set_facing facing c =
      if same_facing c.facing facing then c else update_animation (record c { facing = facing })

  unfoldable pub lock_facing : Facing → Facing → Facing → Facing → Costume player → Costume player
  lock_facing left right front back c = record c {
    facings = facings_of left right front back;
    lock_facing = true;
  }

  unfoldable pub reset_lock_facing : Costume player → Costume player
  reset_lock_facing c = record c {
    facings = facings_of Facing.face_left Facing.face_right Facing.face_front Facing.face_back;
  }

  unfoldable pub unlock_facing : Costume player → Costume player
  unlock_facing c = record c { lock_facing = false }

  -- `getLockFacing`
  unfoldable pub get_lock_facing : Costume player → Option Facing
  get_lock_facing c =
      let front = c.facings Facing.face_front in
      let back = c.facings Facing.face_back in
      if not c.lock_facing then none else if not (same_facing front back) then none else some front

  unfoldable pub reach_state_name : Reaching → Costume player → Bytes
  reach_state_name high c = c.reach_name ++ codes "_high"
  reach_state_name medium c = c.reach_name ++ codes "_med"
  reach_state_name low c = c.reach_name ++ codes "_low"

  -- `setReachState`
  unfoldable pub set_reach_state : Reaching → Costume player → Costume player
  unfolding reach_state_name set_state
  set_reach_state reaching c =
      let d = set_state (reach_state_name reaching c) false c in
      if is_null d.current then set_state d.reach_name false d else d

  -- `loadCostume`, once the animations are read.
  unfoldable pub load_costume : List CostumeAnimation → Costume player → Costume player
  unfolding set_state set_head_index
  load_costume animations c =
      let d = set_head_index c.head_index (record c { animations = []; current = none }) in
      set_state d.stand_name false (record d { animations = animations })

  -- `setAnimationNames`
  unfoldable pub set_animation_names :
      Bytes → Bytes → Bytes → Bytes → Costume player → Costume player
  unfolding set_state
  set_animation_names head stand walk reach c =
      let d = record c {
        head_name = new_name head c.head_name;
        stand_name = new_name stand c.stand_name;
        walk_name = new_name walk c.walk_name;
        reach_name = new_name reach c.reach_name;
      } in
      if is_null d.current
      then d
      else set_state d.animation (Control.get_loop player d.control) (record d { current = none })
