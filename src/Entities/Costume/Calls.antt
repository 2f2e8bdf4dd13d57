-- ===== src/Entities/Costume/Calls.antt =====
-- The calls on a costume, in any order.
use engge.Base.{
  ℕ, zero, suc, inl, inr, Bool, true, false, not, ◌&&◌, none, List, [], ◌∷◌, ◌++◌, Bool-cases,
  Option-cases, All, Bytes, bytes_eq, codes, if◌then◌else◌,
}
use engge.Dialog.Ast.{ℤ}
use engge.Scripting.Verbs.World.{Reaching}
use engge.Util.Conversions.{Facing}
use engge.Util.Strings.{starts_with}
use engge.Entities.CostumeLayers.{
  Layer, CostumeAnimation, set_layer, show_unhidden, find_animation, passes, head_layer, head_is,
  same_facing, direction_name, new_name, is_null, same_index,
}
use engge.Entities.Costume.{
  Control, Costume, current_name, current_layers, set_layer_visible, choose_animation,
  set_animation, set_matching_animation, show_heads, set_head_index, hide_eyes, animation_name,
  get_facing, find_facing, update_animation, set_state, set_facing, lock_facing, reset_lock_facing,
  unlock_facing, reach_state_name, set_reach_state, load_costume, set_animation_names,
}
use engge.Entities.Costume.Layers.{
  AllDistinct, Shows, set_layer-Distinct, show_unhidden-Distinct, on_animation-Distinct,
  set_layer-ShowsAt, show_unhidden-ShowsAt,
}

-- In each animation the layers have names of their own, and in the current one a layer is visible just
-- where its name is not hidden.
pub record IsShown {player : Control} (c : Costume player) : Type 0 where
  pub distinct : AllDistinct c.animations
  pub shown : Shows c.hidden_layers c.current c.animations

pub data Call : Type 0 where
  shows_layer : (name : Bytes) → (visible : Bool) → Call
  sets_state : (name : Bytes) → (loop : Bool) → Call
  sets_facing : Facing → Call
  locks_facing : (left : Facing) → (right : Facing) → (front : Facing) → (back : Facing) → Call
  resets_facing unlocks_facing : Call
  reaches : Reaching → Call
  shows_head : (index : ℤ) → Call
  names : (head : Bytes) → (stand : Bytes) → (walk : Bytes) → (reach : Bytes) → Call
  sets_animation sets_matching_animation : (name : Bytes) → Call
  loads : List CostumeAnimation → Call

-- The animations that are loaded have layers with names of their own.
abbrev pub Allowed : Call → Type 0
Allowed (loads animations) = AllDistinct animations
Allowed _ = Unit

module _ {player : Control} where
  unfoldable pub make : Call → Costume player → Costume player
  unfolding set_layer_visible set_state set_facing lock_facing reset_lock_facing unlock_facing
      set_reach_state set_head_index set_animation_names set_animation set_matching_animation
      load_costume
  make (shows_layer name visible) c = set_layer_visible name visible c
  make (sets_state name loop) c = set_state name loop c
  make (sets_facing facing) c = set_facing facing c
  make (locks_facing left right front back) c = lock_facing left right front back c
  make resets_facing c = reset_lock_facing c
  make unlocks_facing c = unlock_facing c
  make (reaches reaching) c = set_reach_state reaching c
  make (shows_head index) c = set_head_index index c
  make (names head stand walk reach) c = set_animation_names head stand walk reach c
  make (sets_animation name) c = (set_animation name c).1
  make (sets_matching_animation name) c = (set_matching_animation name c).1
  make (loads animations) c = load_costume animations c

  unfoldable pub make_all : List Call → Costume player → Costume player
  unfolding make
  make_all [] c = c
  make_all (x ∷ xs) c = make_all xs (make x c)

  pub set_layer_visible-IsShown :
      (name : Bytes) (visible : Bool) (c : Costume player)
      → IsShown c
      → IsShown (set_layer_visible name visible c)
  unfolding set_layer_visible
  set_layer_visible-IsShown name visible c h = elim (Option-cases c.current) [
    | inl e ↦ rw (set_layer_visible, e) (record { distinct = h.distinct; shown = rw e tt })
    | inr (i, e) ↦
        rw (set_layer_visible, e)
          (record {
            distinct =
                on_animation-Distinct i (set_layer name visible) c.animations
                  (set_layer-Distinct name visible) h.distinct;
            shown = rw e (
                set_layer-ShowsAt name visible c.hidden_layers i c.animations h.distinct
                  (rw e at h.shown));
          })
  ]

  choose_animation-IsShown :
      (test : Bytes → Bool) (c : Costume player) → IsShown c → IsShown (choose_animation test c).1
  unfolding choose_animation
  choose_animation-IsShown test c h = elim (Bool-cases (passes test (current_name c))) [
    | inl e ↦ rw (choose_animation, e) h
    | inr e ↦ elim (Option-cases (find_animation test c.animations)) [
      | inl f ↦ rw (choose_animation, e, f) h
      | inr (i, f) ↦
          rw (choose_animation, e, f)
            (record {
              distinct =
                  on_animation-Distinct i (show_unhidden c.hidden_layers) c.animations
                    (show_unhidden-Distinct c.hidden_layers) h.distinct;
              shown = show_unhidden-ShowsAt c.hidden_layers i c.animations;
            })
    ]
  ]

  show_heads-IsShown :
      (n i : ℕ) (index : ℤ) (c : Costume player) → IsShown c → IsShown (show_heads n i index c)
  unfolding show_heads
  show_heads-IsShown zero i index c h = h
  show_heads-IsShown (suc n) i index c h =
      show_heads-IsShown n (suc i) index
        (set_layer_visible (head_layer c.head_name i) (head_is index i) c)
        (set_layer_visible-IsShown (head_layer c.head_name i) (head_is index i) c h)

  set_head_index-IsShown :
      (index : ℤ) (c : Costume player) → IsShown c → IsShown (set_head_index index c)
  unfolding set_head_index
  set_head_index-IsShown index c h =
      let moved : IsShown (record c { head_index = index }) = record {
        distinct = h.distinct;
        shown = h.shown;
      } in
      elim (Option-cases c.current) [
        | inl e ↦ rw (set_head_index, e) moved
        | inr (i, e) ↦
            rw (set_head_index, e)
              (show_heads-IsShown 6 0 index (record c { head_index = index }) moved)
      ]

  hide_eyes-IsShown : (ls : List Layer) (c : Costume player) → IsShown c → IsShown (hide_eyes ls c)
  unfolding hide_eyes
  hide_eyes-IsShown [] c h = h
  hide_eyes-IsShown (l ∷ ls) c h = elim (Bool-cases (starts_with l.name (codes "eyes_"))) [
    | inl e ↦
        rw (hide_eyes, e)
          (hide_eyes-IsShown ls (set_layer_visible l.name false c)
            (set_layer_visible-IsShown l.name false c h))
    | inr e ↦ rw (hide_eyes, e) (hide_eyes-IsShown ls c h)
  ]

  if-IsShown :
      (b : Bool) (c d : Costume player) → IsShown c → IsShown d → IsShown (if b then c else d)
  if-IsShown true c d h k = h
  if-IsShown false c d h k = k

  set_animation-IsShown :
      (name : Bytes) (c : Costume player) → IsShown c → IsShown (set_animation name c).1
  unfolding set_animation
  set_animation-IsShown name = choose_animation-IsShown (λ n. bytes_eq n name)

  set_matching_animation-IsShown :
      (name : Bytes) (c : Costume player) → IsShown c → IsShown (set_matching_animation name c).1
  unfolding set_matching_animation
  set_matching_animation-IsShown name = choose_animation-IsShown (λ n. starts_with n name)

  find_facing-IsShown :
      (name : Bytes) (c : Costume player) → IsShown c → IsShown (find_facing name c)
  unfolding find_facing
  find_facing-IsShown name c h =
      let (found, d) = set_animation name c in
      let facing_name = name ++ (codes "_" ++ direction_name (get_facing d)) in
      let (found', e) = set_animation facing_name d in
      let m = (set_matching_animation facing_name e).1 in
      let hd = set_animation-IsShown name c h in
      let he = set_animation-IsShown facing_name d hd in
      if-IsShown found d (if found' then e else m) hd
        (if-IsShown found' e m he (set_matching_animation-IsShown facing_name e he))

  update_animation-IsShown : (c : Costume player) → IsShown c → IsShown (update_animation c)
  unfolding update_animation
  update_animation-IsShown c h =
      let name = animation_name c in
      let eyes = hide_eyes (current_layers c) c in
      let d = find_facing name c in
      if-IsShown (not (is_null c.current) && starts_with name (codes "eyes_"))
        (set_layer_visible name true eyes) (set_head_index d.head_index d)
        (set_layer_visible-IsShown name true eyes (hide_eyes-IsShown (current_layers c) c h))
        (set_head_index-IsShown d.head_index d (find_facing-IsShown name c h))

  set_state-IsShown :
      (name : Bytes) (loop : Bool) (c : Costume player)
      → IsShown c
      → IsShown (set_state name loop c)
  unfolding set_state
  set_state-IsShown name loop c h =
      let named = record c { animation = name } in
      let d : IsShown (update_animation named) =
        update_animation-IsShown named (record { distinct = h.distinct; shown = h.shown }) in
      let e = update_animation named in
      if-IsShown (same_index c.current e.current) e
        (record e { control = Control.play player loop e.control }) d
        (record { distinct = d.distinct; shown = d.shown })

  make-IsShown : (x : Call) (c : Costume player) → Allowed x → IsShown c → IsShown (make x c)
  unfolding make set_facing lock_facing reset_lock_facing unlock_facing set_reach_state load_costume
      set_animation_names set_head_index
  make-IsShown (shows_layer name visible) c a h = set_layer_visible-IsShown name visible c h
  make-IsShown (sets_state name loop) c a h = set_state-IsShown name loop c h
  make-IsShown (sets_facing facing) c a h =
      let turned = record c { facing = facing } in
      if-IsShown (same_facing c.facing facing) c (update_animation turned) h
        (update_animation-IsShown turned (record { distinct = h.distinct; shown = h.shown }))
  make-IsShown (locks_facing left right front back) c a h = record {
    distinct = h.distinct;
    shown = h.shown;
  }
  make-IsShown resets_facing c a h = record { distinct = h.distinct; shown = h.shown }
  make-IsShown unlocks_facing c a h = record { distinct = h.distinct; shown = h.shown }
  make-IsShown (reaches reaching) c a h =
      let d = set_state (reach_state_name reaching c) false c in
      let k = set_state-IsShown (reach_state_name reaching c) false c h in
      if-IsShown (is_null d.current) (set_state d.reach_name false d) d
        (set_state-IsShown d.reach_name false d k) k
  make-IsShown (shows_head index) c a h = set_head_index-IsShown index c h
  make-IsShown (names head stand walk reach) c a h =
      let d = record c {
        head_name = new_name head c.head_name;
        stand_name = new_name stand c.stand_name;
        walk_name = new_name walk c.walk_name;
        reach_name = new_name reach c.reach_name;
      } in
      let loop = Control.get_loop player c.control in
      let restarted = record d { current = none } in
      if-IsShown (is_null c.current) d (set_state c.animation loop restarted)
        (record { distinct = h.distinct; shown = h.shown })
        (set_state-IsShown c.animation loop restarted
          (record { distinct = h.distinct; shown = tt }))
  make-IsShown (sets_animation name) c a h = set_animation-IsShown name c h
  make-IsShown (sets_matching_animation name) c a h = set_matching_animation-IsShown name c h
  make-IsShown (loads animations) c a h =
      let empty : Costume player = record c { animations = []; current = none } in
      let d = record (set_head_index c.head_index empty) { animations = animations } in
      set_state-IsShown c.stand_name false d (record { distinct = a; shown = tt })

  -- Whatever is called on a costume, in any order: if before the layers of each of its animations had
  -- names of their own, as have those that are loaded, and each layer of the current animation was
  -- visible just where its name was not hidden, then so it is afterwards.
  pub make_all-IsShown :
      (xs : List Call) (c : Costume player) → All Allowed xs → IsShown c → IsShown (make_all xs c)
  unfolding make_all
  make_all-IsShown [] c a h = h
  make_all-IsShown (x ∷ xs) c a h = make_all-IsShown xs (make x c) a.1 (make-IsShown x c a.0 h)
