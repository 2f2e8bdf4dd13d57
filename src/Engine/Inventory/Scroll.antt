-- ===== src/Engine/Inventory/Scroll.antt =====
-- What the inventory shows of the objects.
use engge.Base.{
  ℕ, zero, suc, ◌+◌, ◌-◌, ◌*◌, ◌<◌, ◌≤◌, ◌≡◌, refl, ap, ◌∙◌, inl, inr, true, false, ◌&&◌, some,
  none, sym, ◌^◌, if◌then◌else◌, List, [], ◌∷◌, ltb, leb, ◌==◌, ==_iff, length, get_elem?,
  get_elem?-lt, take, drop, length-drop, arith, Bool-cases,
}
use engge.Base.Outcome.{done, fault}
use engge.Dialog.Ast.{ℤ, pos, negsuc}
use engge.Engine.Inventory.{
  View, get_inventory_offset, size_left, objects_at, draw_objects, index_of, Slot, icon_place,
  get_position,
}

lt_of_ltb : {a b : ℕ} → ltb a b ≡ true → a ≤ b
lt_of_ltb h = ground arith

le_of_ltb : {a b : ℕ} → ltb a b ≡ false → b ≤ a
le_of_ltb h = ground arith

-- An offset that is not negative stays in the objects, or is set to 0.
get_inventory_offset-pos :
    (v : View) (n : ℕ)
    → v.offset ≡ pos n
    → (m : ℕ) × ((get_inventory_offset v).0 ≡ pos m)
      × (m * 4 ≤ length v.objects)
      × ((get_inventory_offset v).1.objects ≡ v.objects)
unfolding get_inventory_offset
get_inventory_offset-pos v n e = elim (Bool-cases (ltb (length v.objects) (n * 4))) [
  | inl behind ↦ rw (get_inventory_offset, e, behind) (0, refl, omega arith, refl)
  | inr there ↦ rw (get_inventory_offset, e, there) (n, refl, le_of_ltb there, refl)
]

-- The eight objects from an offset on, or those that there are.
abbrev pub shown_from : ℤ → List ℕ → List ℕ
shown_from (pos n) os = take 8 (drop (n * 4) os)
shown_from (negsuc n) os = []

abbrev pub shown : View → List ℕ
shown v = shown_from (get_inventory_offset v).0 v.objects

drop-cons :
    {A : Type 0} (i : ℕ) (xs : List A) {x : A}
    → get_elem? xs i ≡ some x
    → drop i xs ≡ x ∷ drop (suc i) xs
drop-cons i [] e = cc
drop-cons zero (y ∷ xs) e = ap (λ z. z ∷ xs) (cc)
drop-cons (suc i) (y ∷ xs) e = drop-cons i xs e

take-beyond : {A : Type 0} (n m : ℕ) (xs : List A) → length xs ≤ n → n ≤ m → take n xs ≡ take m xs
take-beyond zero zero xs h k = refl
take-beyond zero (suc m) [] h k = refl
take-beyond zero (suc m) (x ∷ xs) h k = absurd (omega (arith, h))
take-beyond (suc n) zero xs h k = absurd (omega (arith, k))
take-beyond (suc n) (suc m) [] h k = refl
take-beyond (suc n) (suc m) (x ∷ xs) h k =
    ap (λ l. x ∷ l) (take-beyond n m xs (omega (arith, h)) (omega (arith, k)))

objects_at-take :
    (n i k : ℕ) (os : List ℕ)
    → k * 4 + i + n ≤ length os
    → objects_at n i (pos k) os ≡ done (take n (drop (k * 4 + i) os))
unfolding objects_at
objects_at-take zero i k os h = refl
objects_at-take (suc n) i k os h =
    let (o, e) = get_elem?-lt os (k * 4 + i) (omega (arith, h)) in
    let next : k * 4 + suc i ≡ suc (k * 4 + i) = omega arith in
    rw (e, objects_at, objects_at-take n (suc i) k os (omega (arith, h)), next)
      (rw (drop-cons (k * 4 + i) os e) refl)

draw_from :
    (m : ℕ) (os : List ℕ)
    → m * 4 ≤ length os
    → objects_at
        (if ltb (size_left (pos m) (length os)) 8 then size_left (pos m) (length os) else 8)
        0
        (pos m)
        os
      ≡ done (take 8 (drop (m * 4) os))
draw_from m os low =
    let fits : ltb (length os) (m * 4) ≡ false = ground (arith, low) in
    let rest = drop (m * 4) os in
    let start : m * 4 + 0 ≡ m * 4 = omega arith in
    let size : length rest ≡ length os - m * 4 = length-drop (m * 4) os in
    rw fits (elim (Bool-cases (ltb (length os - m * 4) 8)) [
      | inl few ↦ rw few (
          objects_at-take (length os - m * 4) 0 m os (omega (arith, low))
          ∙ ap (λ (q : ℕ). done (take (length os - m * 4) (drop q os))) start
          ∙ ap done (take-beyond (length os - m * 4) 8 rest (omega (arith, size)) (lt_of_ltb few)))
      | inr many ↦ rw many (
          objects_at-take 8 0 m os (omega (arith, low, le_of_ltb many))
          ∙ ap (λ (q : ℕ). done (take 8 (drop q os))) start)
    ])

get_elem?-beyond : {A : Type 0} (xs : List A) (i : ℕ) → length xs ≤ i → get_elem? xs i ≡ none
get_elem?-beyond [] i h = refl
get_elem?-beyond (x ∷ xs) zero h = absurd (omega (arith, h))
get_elem?-beyond (x ∷ xs) (suc i) h = get_elem?-beyond xs i (omega (arith, h))

objects_at-negative :
    (k n : ℕ) (os : List ℕ)
    → n < 2 ^ 29
    → length os < 2 ^ 63
    → objects_at (suc k) 0 (negsuc n) os ≡ fault
unfolding objects_at
objects_at-negative k n os h few =
    let below : ltb 0 (suc n * 4) ≡ true = ground arith in
    let beyond = get_elem?-beyond os (2 ^ 64 + 0 - suc n * 4) (omega (arith, h, few)) in
    rw (below, objects_at, beyond) refl

draw_negative :
    (v : View) (n : ℕ)
    → n < 2 ^ 29
    → length v.objects < 2 ^ 63
    → draw_objects (record v { offset = negsuc n }) ≡ fault
unfolding draw_objects get_inventory_offset
draw_negative v n h few = elim (Bool-cases (ltb (length v.objects + suc n * 4) 8)) [
  | inl less ↦
      let k = length v.objects + suc n * 4 - 1 in
      let some_left : length v.objects + suc n * 4 ≡ suc k = omega arith in
      rw less (
        ap (λ (q : ℕ). objects_at q 0 (negsuc n) v.objects) some_left
        ∙ objects_at-negative k n v.objects h few)
  | inr more ↦ rw more (objects_at-negative 7 n v.objects h few)
]

-- With an offset that is not negative, `draw` shows the eight objects from four times the offset on, or
-- those that there are: it takes none out of range, and its count does not wrap around, whatever
-- objects were lost since it was set. With a negative offset it takes an object out of range. An `int`
-- holds four times the offset, and the number of objects.
pub draw_objects-shown :
    (v : View) (n : ℕ)
    → n < 2 ^ 29
    → length v.objects < 2 ^ 31
    → (draw_objects (record v { offset = pos n }) ≡ done (shown (record v { offset = pos n })))
      × (draw_objects (record v { offset = negsuc n }) ≡ fault)
unfolding draw_objects
draw_objects-shown v n h few =
    let w : View = record v { offset = pos n } in
    let (m, e, low, same) = get_inventory_offset-pos w n refl in
    (rw (e, same) (draw_from m v.objects low), draw_negative v n h (omega (arith, few)))

pub get_elem?-drop :
    {A : Type 0} (n k : ℕ) (xs : List A) → get_elem? (drop n xs) k ≡ get_elem? xs (n + k)
get_elem?-drop zero k xs = let e : 0 + k ≡ k = omega arith in rw e refl
get_elem?-drop (suc n) k [] = refl
get_elem?-drop (suc n) k (x ∷ xs) =
    let e : suc n + k ≡ suc (n + k) = omega arith in rw e (get_elem?-drop n k xs)

pub get_elem?-take :
    {A : Type 0} (n k : ℕ) (xs : List A) → k < n → get_elem? (take n xs) k ≡ get_elem? xs k
get_elem?-take zero k xs h = absurd (omega (arith, h))
get_elem?-take (suc n) k [] h = refl
get_elem?-take (suc n) zero (x ∷ xs) h = refl
get_elem?-take (suc n) (suc k) (x ∷ xs) h = get_elem?-take n k xs (omega (arith, h))

-- The index found holds the object, if it is there.
index_of-get :
    (object : ℕ) (os : List ℕ)
    → index_of object os < length os
    → get_elem? os (index_of object os) ≡ some object
unfolding index_of
index_of-get object [] h = absurd (omega (arith, h))
index_of-get object (o ∷ os) h = elim (Bool-cases (o == object)) [
  | inl e ↦ rw e (ap some ((==_iff o object).0 e))
  | inr e ↦
      let shorter : suc (index_of object os) < suc (length os) = rw e at h in
      rw e (index_of-get object os (omega (arith, shorter)))
]

window : {a b c : ℕ} → (leb a b && ltb b c) ≡ true → (a ≤ b) × (b < c)
window h = (ground arith, ground arith)

-- With an offset that is not negative, `getPosition` of an object that is carried gives the middle of the
-- slot in which `draw` shows it, or nothing; `draw` centres its icon at the corner of that slot, half
-- its size to the left and above. An `int` holds four times the offset.
pub get_position-shown :
    (slots : ℕ → Slot) (v : View) (object n : ℕ) (p : ℕ × ℕ)
    → v.offset ≡ pos n
    → n < 2 ^ 29
    → index_of object v.objects < length v.objects
    → get_position slots object v ≡ some p
    → (k : ℕ) × (get_elem? (shown v) k ≡ some object)
      × (p.0 ≡ (icon_place (slots k)).0 + (slots k).half_width)
      × (p.1 ≡ (icon_place (slots k)).1 + (slots k).half_height)
unfolding get_position icon_place
get_position-shown slots v object n p z small h e =
    let (m, f, low, same) = get_inventory_offset-pos v n z in
    let start = m * 4 in
    let index = index_of object v.objects in
    elim (Bool-cases (leb start index && ltb index (start + 8))) [
      | inr out ↦ cc (rw (get_position, f, same, out) at e)
      | inl inside ↦
          let k = index - start in
          let at : some
                ((slots k).left + (slots k).half_width, (slots k).top + (slots k).half_height)
              ≡ some p =
            rw (get_position, f, same, inside) at e in
          let less : (start ≤ index) × (index < start + 8) = window inside in
          let index_is : start + k ≡ index = omega (arith, less.0) in
          let q : ((slots k).left + (slots k).half_width, (slots k).top + (slots k).half_height)
              ≡ p =
            cc in
          (
            k,
            rw f (
                get_elem?-take 8 k (drop start v.objects) (omega (arith, less.0, less.1))
                ∙ get_elem?-drop start k v.objects
                ∙ ap (get_elem? v.objects) index_is
                ∙ index_of-get object v.objects h),
            ap (λ r. r.0) (sym q),
            ap (λ r. r.1) (sym q),
          )
    ]
