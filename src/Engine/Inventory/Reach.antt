-- ===== src/Engine/Inventory/Reach.antt =====
-- Clicks on the arrow that leads down.
use engge.Base.{
  ℕ, zero, suc, ◌+◌, ◌-◌, ◌*◌, ◌/◌, ◌<◌, ◌≤◌, ◌≡◌, refl, sym, ap, ◌∙◌, inl, inr, Bool, true, false,
  ◌==◌, Option, none, some, List, ltb, length, get_elem?, lt-get_elem?, drop, arith, Bool-cases,
}
use engge.Dialog.Ast.{ℤ, pos}
use engge.Engine.Inventory.{
  View, Mouse, get_inventory_offset, has_up_arrow, has_down_arrow, object_under, scroll, update,
}
use engge.Engine.Inventory.Scroll.{shown, get_elem?-take, get_elem?-drop}

-- The mouse on the arrow.
abbrev on_down_arrow : Bool → Mouse
on_down_arrow is_down = record {
  on_slot = λ i. false;
  on_up = false;
  on_down = true;
  is_down = is_down;
}

-- The button goes down and up there.
unfoldable pub click_down : View → View
unfolding update
click_down v = (update (on_down_arrow false) (update (on_down_arrow true) v).1).1

unfoldable pub clicks_down : ℕ → View → View
unfolding click_down
clicks_down zero v = v
clicks_down (suc n) v = click_down (clicks_down n v)

abbrev view : List ℕ → ℕ → Option ℕ → Bool → View
view os offset current down = record {
  objects = os;
  offset = pos offset;
  current_object = current;
  mouse_was_down = down;
}

update-pressed :
    (os : List ℕ) (offset : ℕ) (current : Option ℕ) (down : Bool)
    → offset * 4 ≤ length os
    → update (on_down_arrow true) (view os offset current down) ≡ (false, view os offset none true)
unfolding update object_under get_inventory_offset
update-pressed os offset current down h =
    let fits : ltb (length os) (offset * 4) ≡ false = ground arith in
    elim (Bool-cases down) [ inl e ↦ rw (fits, e) refl | inr e ↦ rw (fits, e) refl ]

scroll-down :
    (os : List ℕ) (offset : ℕ)
    → offset * 4 + 8 < length os
    → scroll (pos offset) (on_down_arrow false) (view os offset none false)
      ≡ (true, view os (offset + 1) none false)
unfolding scroll has_up_arrow has_down_arrow get_inventory_offset
scroll-down os offset h =
    let fits : ltb (length os) (offset * 4) ≡ false = ground arith in
    let more : ltb (offset * 4 + 8) (length os) ≡ true = ground arith in
    elim (Bool-cases (offset == 0)) [
      | inl e ↦ rw (fits, e, more) refl
      | inr e ↦ rw (fits, e, more) refl
    ]

update-released :
    (os : List ℕ) (offset : ℕ) (current : Option ℕ)
    → offset * 4 + 8 < length os
    → update (on_down_arrow false) (view os offset current true)
      ≡ (true, view os (offset + 1) none false)
unfolding update object_under get_inventory_offset
update-released os offset current h =
    let fits : ltb (length os) (offset * 4) ≡ false = ground arith in
    rw fits (scroll-down os offset h)

click_down-view :
    (os : List ℕ) (offset : ℕ) (current : Option ℕ) (down : Bool)
    → offset * 4 + 8 < length os
    → click_down (view os offset current down) ≡ view os (offset + 1) none false
unfolding click_down
click_down-view os offset current down h =
    ap (λ r. (update (on_down_arrow false) r.1).1)
      (update-pressed os offset current down (omega (arith, h)))
    ∙ ap (λ r. r.1) (update-released os offset none h)

clicks_down-offset :
    (n : ℕ) (os : List ℕ) (current : Option ℕ) (down : Bool)
    → (0 < n → n * 4 + 4 < length os)
    → (c : Option ℕ) × (d : Bool) × (clicks_down n (view os 0 current down) ≡ view os n c d)
unfolding clicks_down
clicks_down-offset zero os current down h = (current, down, refl)
clicks_down-offset (suc n) os current down h =
    let long = h (omega arith) in
    let (c, d, e) = clicks_down-offset n os current down (λ k. omega (arith, long)) in
    let next : suc n ≡ n + 1 = omega arith in
    (
      none,
      false,
      ap click_down e
          ∙ click_down-view os n c d (omega (arith, long))
          ∙ ap (λ (q : ℕ). view os q none false) (sym next),
    )

-- Every object can be scrolled to: from the offset 0 some number of clicks on the lower arrow leads to
-- where the object is one of the eight that are shown.
pub clicks_down-shown :
    (v : View) (i o : ℕ)
    → v.offset ≡ pos 0
    → get_elem? v.objects i ≡ some o
    → (n : ℕ) × (k : ℕ) × (get_elem? (shown (clicks_down n v)) k ≡ some o)
unfolding get_inventory_offset
clicks_down-shown v i o z e =
    let n = i / 4 - 1 in
    let size = lt-get_elem? v.objects i e in
    let (c, d, f) =
      clicks_down-offset n v.objects v.current_object v.mouse_was_down
        (λ k. omega (arith, k, size)) in
    let start : v ≡ view v.objects 0 v.current_object v.mouse_was_down =
      ap (λ (q : ℤ). record v { offset = q }) z in
    let fits : ltb (length v.objects) (n * 4) ≡ false = ground (arith, size) in
    let at : n * 4 + (i - n * 4) ≡ i = omega arith in
    let there : get_elem? (shown (view v.objects n c d)) (i - n * 4) ≡ some o = rw fits (
      get_elem?-take 8 (i - n * 4) (drop (n * 4) v.objects) (omega arith)
      ∙ get_elem?-drop (n * 4) (i - n * 4) v.objects
      ∙ ap (get_elem? v.objects) at
      ∙ e) in
    (
      n,
      i - n * 4,
      ap (λ (w : View). get_elem? (shown w) (i - n * 4)) (ap (clicks_down n) start ∙ f) ∙ there,
    )
