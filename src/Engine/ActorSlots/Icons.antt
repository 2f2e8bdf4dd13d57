-- ===== src/Engine/ActorSlots/Icons.antt =====
-- What a click on the icons of the actors does, and what is drawn there.
use engge.Base.{
  ℕ, zero, suc, ◌+◌, ◌*◌, ◌<◌, sym, ◌≡◌, ap, ◌∙◌, inl, inr, Bool, true, false, Option, none, some,
  List, [], ◌∷◌, arith, Bool-cases, ◌==◌, if◌then◌else◌, get_elem?,
}
use mathlib.Core.Path.{fun_ext}
use engge.Base.Outcome.{done}
use engge.Engine.ActorSlots.{
  draw_column, place_icons, get_offset_y, row_top, slide, ActorIconSlot, is_passed, Icon,
  actor_icon, gear, is_enabled, ActorIcons, IconCall, set_current_actor, show_options, Mouse,
  drawn_icons, draw, click_icons, update,
}

-- What a click on an icon means: the actor is chosen, where that is enabled, or the options show.
abbrev pub icon_call : Bool → Option Icon → Option IconCall
icon_call enabled none = none
icon_call enabled (some gear) = some show_options
icon_call enabled (some (actor_icon a)) = if enabled then some (set_current_actor a) else none

module _ (in_room : ℕ → Bool) (enabled : Bool) (k : ℕ) (current : Option ℕ) where
  abbrev click : List ActorIconSlot → ℕ → Option IconCall
  click slots j = click_icons in_room enabled (λ i. i == k) current slots j

  click_behind : (slots : List ActorIconSlot) (j : ℕ) → k < j → click slots j ≡ none
  unfolding click_icons
  click_behind [] j h = ground arith
  click_behind (s ∷ ss) j h = elim (Bool-cases (is_passed in_room current s)) [
    | inl passed ↦ rw (click_icons, passed) (click_behind ss j h)
    | inr shown ↦
        let e = click_behind ss (suc j) (omega arith) in rw (click_icons, shown) (ground arith)
  ]

  click-drawn :
      (slots : List ActorIconSlot) (j d : ℕ)
      → j + d ≡ k
      → click slots j ≡ icon_call enabled (get_elem? (drawn_icons in_room current slots) d)
  unfolding click_icons drawn_icons
  click-drawn [] j zero h = ground arith
  click-drawn [] j (suc d) h = ground arith
  click-drawn (s ∷ ss) j zero h = elim (Bool-cases (is_passed in_room current s)) [
    | inl passed ↦ rw (click_icons, drawn_icons, passed) (click-drawn ss j zero h)
    | inr shown ↦
        let e = click_behind ss (suc j) (omega arith) in
        rw (click_icons, drawn_icons, shown) (ground arith)
  ]
  click-drawn (s ∷ ss) j (suc d) h = elim (Bool-cases (is_passed in_room current s)) [
    | inl passed ↦ rw (click_icons, drawn_icons, passed) (click-drawn ss j (suc d) h)
    | inr shown ↦
        let e = click-drawn ss (suc j) d (omega arith) in
        rw (click_icons, drawn_icons, shown) (ground arith)
  ]

get_elem?-place_icons :
    (icons : ActorIcons) (num k : ℕ) (is : List Icon) (i : Icon) (y : ℕ)
    → get_elem? (place_icons icons num is) k ≡ some (i, y)
    → (get_elem? is k ≡ some i) × (y ≡ get_offset_y icons (num + k))
unfolding place_icons
get_elem?-place_icons icons num k [] i y e = absurd (ground arith)
get_elem?-place_icons icons num zero (x ∷ xs) i y e =
    let same : ◌≡◌ {A = Icon × ℕ} (x, get_offset_y icons num) (i, y) = cc in
    let n : num + 0 ≡ num = omega arith in
    (ap (λ r. some r.0) same, sym (ap (λ r. r.1) same) ∙ ap (get_offset_y icons) (sym n))
get_elem?-place_icons icons num (suc k) (x ∷ xs) i y e =
    let n : suc num + k ≡ num + suc k = omega arith in
    let (shown, at) = get_elem?-place_icons icons (suc num) k xs i y e in
    (shown, at ∙ ap (get_offset_y icons) n)

done-injective : {A : Type 0} {a b : A} → done a ≡ done b → a ≡ b
done-injective e = cc

offset_inside :
    (icons : ActorIcons) (n : ℕ)
    → icons.is_inside ≡ true
    → get_offset_y icons n ≡ (row_top n + 27) * icons.position
unfolding get_offset_y
offset_inside icons n inside =
    let same : 4 + 27 + 60 * n ≡ 4 + 60 * n + 27 = omega arith in
    rw inside (ap (λ q. q * icons.position) same)

module _ (in_room : ℕ → Bool) where
  drawn_in_column :
      (current : Option ℕ) (slots : List ActorIconSlot) (icons : ActorIcons)
      (drawn : List (Icon × ℕ)) (k : ℕ) (icon : Icon) (y : ℕ)
      → draw_column in_room current slots icons ≡ done drawn
      → get_elem? drawn (suc k) ≡ some (icon, y)
      → (get_elem? (drawn_icons in_room current slots) k ≡ some icon)
        × (y ≡ (row_top (suc k) + 27) * icons.position)
  unfolding draw_column
  drawn_in_column none slots icons drawn k icon y d e = absurd (ground arith)
  drawn_in_column (some actor) slots icons drawn k icon y d e =
      let below = if icons.is_inside then drawn_icons in_room (some actor) slots else [] in
      let column : place_icons icons 0 (actor_icon (some actor) ∷ below) ≡ drawn =
        done-injective d in
      let (shown, at) =
        get_elem?-place_icons icons 0 (suc k) (actor_icon (some actor) ∷ below) icon y
          (ap (λ l. get_elem? l (suc k)) column ∙ e) in
      elim (Bool-cases icons.is_inside) [
        | inl inside ↦
            let row : 0 + suc k ≡ suc k = omega arith in
            (
              rw inside at shown,
              at ∙ ap (get_offset_y icons) row ∙ offset_inside icons (suc k) inside,
            )
        | inr out ↦ absurd (ground (arith, rw out at shown))
      ]

  drawn_icon :
      (current : Option ℕ) (slots : List ActorIconSlot) (icons : ActorIcons)
      (drawn : List (Icon × ℕ)) (k : ℕ) (icon : Icon) (y : ℕ)
      → draw in_room current slots icons ≡ done drawn
      → get_elem? drawn (suc k) ≡ some (icon, y)
      → (get_elem? (drawn_icons in_room current slots) k ≡ some icon)
        × (y ≡ (row_top (suc k) + 27) * icons.position)
  unfolding draw
  drawn_icon current slots icons drawn k icon y d e =
      let column : draw_column in_room current slots icons ≡ done drawn = ground arith in
      drawn_in_column current slots icons drawn k icon y column e

  -- The icons were drawn, one of them below that of the current actor, with its middle at some height:
  -- that is the height of the middle of the rectangle of its row, times the share of their way that
  -- the icons have slid. When the mouse, which was pressed, is let go in the rectangle of that row and of no other,
  -- the actor of the icon is chosen, where the icons are enabled, and nothing happens, where they are
  -- not; on the last icon, the options show. The button is up again then.
  pub update-drawn :
      (mouse : Mouse) (current : Option ℕ) (slots : List ActorIconSlot) (icons : ActorIcons)
      (drawn : List (Icon × ℕ)) (k : ℕ) (icon : Icon) (y : ℕ)
      → icons.is_mouse_button_pressed ≡ true
      → mouse.is_down ≡ false
      → ((j : ℕ) → mouse.on_icon j ≡ (j == suc k))
      → draw in_room current slots icons ≡ done drawn
      → get_elem? drawn (suc k) ≡ some (icon, y)
      → (y ≡ (row_top (suc k) + 27) * icons.position)
        × ((update in_room mouse current slots icons).0
            ≡ icon_call (is_enabled icons.mode) (some icon))
        × ((update in_room mouse current slots icons).1.is_mouse_button_pressed ≡ false)
  unfolding update slide
  update-drawn mouse current slots icons drawn k icon y pressed up on d e =
      let enabled = is_enabled icons.mode in
      let (shown, at) = drawn_icon current slots icons drawn k icon y d e in
      let clicked = click-drawn in_room enabled (suc k) current slots 1 k (omega arith) in
      let call : click_icons in_room enabled mouse.on_icon current slots 1
          ≡ icon_call enabled (some icon) =
        rw (fun_ext on) (clicked ∙ ap (icon_call enabled) shown) in
      (at, ground arith, ground arith)
