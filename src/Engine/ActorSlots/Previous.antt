-- ===== src/Engine/ActorSlots/Previous.antt =====
-- Which actor `selectPreviousActor` chooses.
use engge.Base.{
  ℕ, zero, suc, ◌+◌, ◌-◌, ◌≤◌, ◌<◌, ◌≡◌, refl, sym, ◌∙◌, inr, Option, some, List, [], ◌∷◌, ◌++◌,
  arith, length, get_elem?, lt-get_elem?, take, drop, length-append, length-take, length-drop,
}
use mathlib.Core.List.{reverse, reverse-cons}
use native.Mathlib.Decide.{dec_lt}
use engge.Base.Outcome.{done}
use engge.Engine.ActorSlots.{
  ActorIconSlot, get_current_actor_index, select_from, previous_index, select_previous_actor,
}
use engge.Engine.ActorSlots.Next.{
  first_selectable, Visits, select_from-first, get_elem?-append_left, get_elem?-append_right,
  get_elem?-drop, get_elem?-take,
}

module _ {A : Type 0} where
  length-reverse : (xs : List A) → length (reverse xs) ≡ length xs
  length-reverse [] = refl
  length-reverse (x ∷ xs) =
      rw (reverse-cons x xs)
        (omega (arith, length-append {0} (reverse xs) (x ∷ []), length-reverse xs))

  get_elem?-reverse :
      (xs : List A) (i j : ℕ) → i + suc j ≡ length xs → get_elem? (reverse xs) i ≡ get_elem? xs j
  get_elem?-reverse [] i j h = absurd (omega arith)
  get_elem?-reverse (x ∷ xs) i zero h =
      rw (reverse-cons x xs)
        (get_elem?-append_right (reverse xs) (x ∷ []) i 0 (omega (arith, length-reverse xs)))
  get_elem?-reverse (x ∷ xs) i (suc j) h = rw (reverse-cons x xs) (
      get_elem?-append_left (reverse xs) (x ∷ []) i (omega (arith, length-reverse xs))
      ∙ get_elem?-reverse xs i j (omega arith))

module _ (slots : List ActorIconSlot) (c : ℕ) (in_range : suc c < length slots) where
  abbrev before : List ActorIconSlot
  before = take c slots

  abbrev behind : List ActorIconSlot
  behind = drop (suc c) (take (length slots - 1) slots)

  abbrev visited : List ActorIconSlot
  visited = reverse before ++ reverse behind

  length-before : length before ≡ c
  length-before = omega (arith, length-take {0} c slots)

  length-behind : length behind ≡ length slots - 1 - suc c
  length-behind = omega (
    arith,
    length-drop {0} (suc c) (take (length slots - 1) slots),
    length-take {0} (length slots - 1) slots,
  )

  length-visited : suc (suc (length visited)) ≡ length slots
  length-visited = omega (
    arith,
    length-append {0} (reverse before) (reverse behind),
    length-reverse before,
    length-reverse behind,
    length-before,
    length-behind,
  )

  visited-before :
      (k : ℕ) {s : ActorIconSlot}
      → k < c
      → get_elem? visited k ≡ some s
      → get_elem? slots (c - k - 1) ≡ some s
  visited-before k h f =
      sym (get_elem?-take c slots (c - k - 1) (omega arith))
      ∙ sym (get_elem?-reverse before k (c - k - 1) (omega (arith, length-before)))
      ∙ sym (
          get_elem?-append_left (reverse before) (reverse behind) k
            (omega (arith, length-reverse before, length-before)))
      ∙ f

  visited-behind :
      (k : ℕ) {s : ActorIconSlot}
      → c ≤ k
      → get_elem? visited k ≡ some s
      → (c < c + length slots - 1 - (k + 1))
        × (get_elem? slots (c + length slots - 1 - (k + 1)) ≡ some s)
  visited-behind k h f =
      let size = length slots in
      let j = c + size - 1 - (k + 1) in
      let l : suc (suc k) < size = omega (arith, lt-get_elem? visited k f, length-visited) in
      (
        omega arith,
        sym (get_elem?-take (size - 1) slots j (omega arith))
            ∙ sym (get_elem?-drop (suc c) (take (size - 1) slots) (j - suc c) j (omega arith))
            ∙ sym (get_elem?-reverse behind (k - c) (j - suc c) (omega (arith, length-behind)))
            ∙ sym (
                get_elem?-append_right (reverse before) (reverse behind) k (k - c)
                  (omega (arith, length-reverse before, length-before)))
            ∙ f,
      )

  visited-Visits : Visits (previous_index (length slots) c) c slots 0 visited
  unfolding previous_index
  visited-Visits k m s e f = elim (dec_lt k c) [
    | yes l ↦ (c - k - 1, ground arith, ground arith, visited-before k l f)
    | no l ↦
        let (other, found) = visited-behind k (omega arith) f in
        (c + length slots - 1 - (k + 1), ground arith, ground arith, found)
  ]

  select_previous_index :
      select_from (previous_index (length slots) c) c slots (length slots) 0
      ≡ done (first_selectable visited)
  unfolding previous_index
  select_previous_index =
      select_from-first (previous_index (length slots) c) c slots visited (length slots) 0
        visited-Visits (omega (arith, length-visited))
        (inr λ m e. let l = length-visited in ground arith)

-- If the slot of the current actor is not the last one, `selectPreviousActor` returns and chooses the
-- actor of the first selectable slot among those before it, from it backwards, and then those behind
-- it, from the last but one backwards; it chooses nothing if none of them is selectable. The last slot
-- is never one of them.
pub select_previous_actor-first :
    (actor : Option ℕ) (slots : List ActorIconSlot) {c : ℕ}
    → get_current_actor_index actor slots ≡ some c
    → suc c < length slots
    → select_previous_actor actor slots
      ≡ done (
          first_selectable
            (reverse (take c slots) ++ reverse (drop (suc c) (take (length slots - 1) slots))))
unfolding select_previous_actor
select_previous_actor-first actor slots {c} e h =
    rw (select_previous_actor, e) (select_previous_index slots c h)
