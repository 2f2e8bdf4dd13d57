-- ===== src/Engine/ActorSlots/Next.antt =====
-- Which actor `selectNextActor` chooses.
use engge.Base.{
  ℕ, zero, suc, ◌+◌, ◌-◌, ◌%◌, ◌≤◌, ◌<◌, ◌≡◌, refl, sym, ap, ◌∙◌, inl, inr, ◌⊎◌, true, false,
  Option, none, some, List, [], ◌∷◌, ◌++◌, arith, Bool-cases, Option-cases, ◌==◌, if◌then◌else◌,
  length, get_elem?, lt-get_elem?, take, drop, length-append, length-take, length-drop,
}
use native.Mathlib.Nat.{mod-eq_of_lt}
use native.Mathlib.Decide.{dec_lt}
use engge.Base.Outcome.{done}
use engge.Engine.ActorSlots.{
  ActorIconSlot, Choice, get_current_actor_index, select_from, next_index, select_next_actor,
}

==_refl : (n : ℕ) → (n == n) ≡ true
==_refl n = ground arith

-- The actor of the first slot that is selectable.
abbrev pub first_selectable : List ActorIconSlot → Choice
first_selectable [] = none
first_selectable (s ∷ ss) = if s.selectable then some s.actor else first_selectable ss

module _ (index_at : ℕ → Option ℕ) (current : ℕ) (slots : List ActorIconSlot) where
  -- From the round `i` on, the indices are those of the slots of the list, none of them the current.
  abbrev pub Visits : ℕ → List ActorIconSlot → Type 0
  Visits i visited =
      (k m : ℕ) (s : ActorIconSlot)
      → m ≡ i + k
      → get_elem? visited k ≡ some s
      → (j : ℕ) × (index_at m ≡ some j) × ((j == current) ≡ false) × (get_elem? slots j ≡ some s)

  -- The loop chooses the first selectable of the slots that it visits, after which the rounds are
  -- over or it is back at the current one.
  pub select_from-first :
      (visited : List ActorIconSlot) (n i : ℕ)
      → Visits i visited
      → length visited ≤ n
      → (n ≡ length visited) ⊎ ((m : ℕ) → m ≡ i + length visited → index_at m ≡ some current)
      → select_from index_at current slots n i ≡ done (first_selectable visited)
  unfolding select_from
  select_from-first [] zero i v l e = refl
  select_from-first [] (suc n) i v l (inl e) = absurd (omega arith)
  select_from-first [] (suc n) i v l (inr e) =
      rw (select_from, e i (omega arith), ==_refl current) refl
  select_from-first (s ∷ ss) zero i v l e = absurd (omega arith)
  select_from-first (s ∷ ss) (suc n) i v l e =
      let (j, at_j, other, found) = v 0 i s (omega arith) refl in
      let rest =
        select_from-first ss n (suc i) (λ k m t p q. v (suc k) m t (omega arith) q) (omega arith)
          (elim e [ inl p ↦ inl (omega arith) | inr p ↦ inr (λ m q. p m (omega arith)) ]) in
      rw (select_from, at_j, other, found)
        (elim (Bool-cases s.selectable) [
          | inl here ↦ rw here refl
          | inr not_here ↦ rw not_here rest
        ])

-- The index of the current actor is one of a slot.
pub get_current_actor_index-lt :
    (actor : Option ℕ) (slots : List ActorIconSlot) {c : ℕ}
    → get_current_actor_index actor slots ≡ some c
    → c < length slots
unfolding get_current_actor_index
get_current_actor_index-lt actor [] e = cc
get_current_actor_index-lt actor (s ∷ ss) {c} e =
    elim (Option-cases (get_current_actor_index actor ss)) [
      | inl absent ↦ ground arith
      | inr (i, found) ↦ let l = get_current_actor_index-lt actor ss found in ground arith
    ]

module _ {A : Type 0} where
  pub get_elem?-append_left :
      (xs ys : List A) (i : ℕ) → i < length xs → get_elem? (xs ++ ys) i ≡ get_elem? xs i
  get_elem?-append_left [] ys i h = absurd (omega arith)
  get_elem?-append_left (x ∷ xs) ys zero h = refl
  get_elem?-append_left (x ∷ xs) ys (suc i) h = get_elem?-append_left xs ys i (omega arith)

  pub get_elem?-append_right :
      (xs ys : List A) (i j : ℕ) → i ≡ length xs + j → get_elem? (xs ++ ys) i ≡ get_elem? ys j
  get_elem?-append_right [] ys i j h = let e : i ≡ j = omega arith in rw e refl
  get_elem?-append_right (x ∷ xs) ys zero j h = absurd (omega arith)
  get_elem?-append_right (x ∷ xs) ys (suc i) j h = get_elem?-append_right xs ys i j (omega arith)

  pub get_elem?-drop :
      (n : ℕ) (xs : List A) (i j : ℕ) → j ≡ n + i → get_elem? (drop n xs) i ≡ get_elem? xs j
  get_elem?-drop zero xs i j h = let e : j ≡ i = omega arith in rw e refl
  get_elem?-drop (suc n) [] i j h = refl
  get_elem?-drop (suc n) (x ∷ xs) i zero h = absurd (omega arith)
  get_elem?-drop (suc n) (x ∷ xs) i (suc j) h = get_elem?-drop n xs i j (omega arith)

  pub get_elem?-take :
      (n : ℕ) (xs : List A) (i : ℕ) → i < n → get_elem? (take n xs) i ≡ get_elem? xs i
  get_elem?-take zero xs i h = absurd (omega arith)
  get_elem?-take (suc n) [] i h = refl
  get_elem?-take (suc n) (x ∷ xs) zero h = refl
  get_elem?-take (suc n) (x ∷ xs) (suc i) h = get_elem?-take n xs i (omega arith)

next-mod : (n size : ℕ) → size ≤ n → n - size < size → n % size ≡ n - size
next-mod n size h k = grind arith

module _ (slots : List ActorIconSlot) (c : ℕ) (in_range : c < length slots) where
  abbrev others : List ActorIconSlot
  others = drop (suc c) slots ++ take c slots

  length-others : suc (length others) ≡ length slots
  length-others = omega (
    arith,
    length-append {0} (drop (suc c) slots) (take c slots),
    length-drop {0} (suc c) slots,
    length-take {0} c slots,
  )

  others-Visits_before :
      (k : ℕ) {s : ActorIconSlot}
      → c + suc k < length slots
      → get_elem? others k ≡ some s
      → get_elem? slots (c + suc k) ≡ some s
  others-Visits_before k h f =
      sym (get_elem?-drop (suc c) slots k (c + suc k) (omega arith))
      ∙ sym (
          get_elem?-append_left (drop (suc c) slots) (take c slots) k
            (omega (arith, length-drop {0} (suc c) slots)))
      ∙ f

  others-Visits_behind :
      (k : ℕ) {s : ActorIconSlot}
      → length slots ≤ c + suc k
      → get_elem? others k ≡ some s
      → (c + suc k - length slots < c) × (get_elem? slots (c + suc k - length slots) ≡ some s)
  others-Visits_behind k h f =
      let j = c + suc k - length slots in
      let small : j < c = omega (arith, lt-get_elem? others k f, length-others) in
      (
        small,
        sym (get_elem?-take c slots j small)
            ∙ sym (
                get_elem?-append_right (drop (suc c) slots) (take c slots) k j
                  (omega (arith, length-drop {0} (suc c) slots)))
            ∙ f,
      )

  others-Visits : Visits (next_index (length slots) c) c slots 0 others
  unfolding next_index
  others-Visits k m s e f =
      let size = length slots in
      let round : c + m + 1 ≡ c + suc k = omega arith in
      elim (dec_lt (c + suc k) size) [
        | yes before ↦ (
          c + suc k,
          rw round (ap some (mod-eq_of_lt before)),
          ground arith,
          others-Visits_before k before f,
        )
        | no behind ↦
            let (small, found) = others-Visits_behind k (omega arith) f in
            (
              c + suc k - size,
              rw round (ap some (next-mod (c + suc k) size (omega arith) (omega arith))),
              ground arith,
              found,
            )
      ]

  select_next_index :
      select_from (next_index (length slots) c) c slots (length slots) 0
      ≡ done (first_selectable others)
  unfolding next_index
  select_next_index =
      select_from-first (next_index (length slots) c) c slots others (length slots) 0 others-Visits
        (omega (arith, length-others))
        (inr λ m e.
          let round : c + m + 1 ≡ c + length slots = omega (arith, length-others) in
          let back : c + length slots - length slots ≡ c = omega arith in
          rw round (
            ap some
              (next-mod (c + length slots) (length slots) (omega arith) (omega arith) ∙ back)))

-- If there is a slot of the current actor, `selectNextActor` returns and chooses the actor of the
-- first selectable slot among those behind it, in their order, and then those before it, in their
-- order; it chooses nothing if none of them is selectable.
pub select_next_actor-first :
    (actor : Option ℕ) (slots : List ActorIconSlot) {c : ℕ}
    → get_current_actor_index actor slots ≡ some c
    → select_next_actor actor slots ≡ done (first_selectable (drop (suc c) slots ++ take c slots))
unfolding select_next_actor
select_next_actor-first actor slots {c} e =
    rw (select_next_actor, e) (select_next_index slots c (get_current_actor_index-lt actor slots e))
