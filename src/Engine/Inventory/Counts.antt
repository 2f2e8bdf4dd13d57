-- ===== src/Engine/Inventory/Counts.antt =====
-- How often an object is in a vector.
use engge.Base.{
  ℕ, suc, ◌+◌, ◌≡◌, ◌≢◌, refl, subst, ◌∙◌, inl, inr, true, false, Option, none, some, List, [], ◌∷◌,
  ◌++◌, ◌==◌, ==_iff, if◌then◌else◌, arith, Bool-cases, Option-cases,
}
use engge.Engine.Inventory.{Game, replace, split_at, remove}

-- How often the object is in the vector.
unfoldable pub count : ℕ → List ℕ → ℕ
count o [] = 0
count o (p ∷ os) = let rest = count o os in if p == o then suc rest else rest

-- How often an actor carries an object with that owner.
unfoldable pub shares : ℕ → Option ℕ → ℕ
shares actor none = 0
shares actor (some a) = if a == actor then 1 else 0

-- Every actor carries what it owns, once, and nothing else.
abbrev pub AllOwned : Game → Type 0
AllOwned g = (a o : ℕ) → count o (g.objects a) ≡ shares a (g.owner o)

pub ==_refl : (a : ℕ) → (a == a) ≡ true
==_refl a = (==_iff a a).1 refl

pub ==_sym : (a b : ℕ) → (a == b) ≡ (b == a)
==_sym a b = ground arith

pub ne_of_false : {a b : ℕ} → (a == b) ≡ false → a ≢ b
ne_of_false {a} {b} h e = cc (h, (==_iff a b).1 e)

pub not_same : {a b : ℕ} → a ≢ b → (b == a) ≡ false
not_same h = ground arith

pub count-append : (o : ℕ) (xs ys : List ℕ) → count o (xs ++ ys) ≡ count o xs + count o ys
unfolding count
count-append o [] ys = omega arith
count-append o (x ∷ xs) ys = elim (Bool-cases (x == o)) [
  | inl e ↦ rw e (omega (arith, count-append o xs ys))
  | inr e ↦ rw e (count-append o xs ys)
]

pub count-remove :
    (o object : ℕ) (os : List ℕ)
    → count o (remove object os) ≡ (if object == o then 0 else count o os)
unfolding count remove
count-remove o object [] = ground arith
count-remove o object (p ∷ os) = ground (arith, count-remove o object os)

pub count-split_at :
    (o object : ℕ) (os : List ℕ) (parts : List ℕ × List ℕ)
    → split_at object os ≡ some parts
    → count o os ≡ count o (parts.0 ++ parts.1) + (if object == o then 1 else 0)
unfolding count split_at
count-split_at o object [] parts e = cc
count-split_at o object (p ∷ os) parts e = elim (Bool-cases (p == object)) [
  | inl same ↦
      let at : some ([], os) ≡ some parts = rw (same, split_at) at e in
      let here : ([], os) ≡ parts = cc in
      subst
        (λ (q : List ℕ × List ℕ).
          count o (p ∷ os) ≡ count o (q.0 ++ q.1) + (if object == o then 1 else 0))
        here (ground arith)
  | inr other ↦ elim (Option-cases (split_at object os)) [
    | inl n ↦ cc (rw (other, n, split_at) at e)
    | inr (r, n) ↦
        let at : some (p ∷ r.0, r.1) ≡ some parts = rw (other, n, split_at) at e in
        let here : (p ∷ r.0, r.1) ≡ parts = cc in
        subst
          (λ (q : List ℕ × List ℕ).
            count o (p ∷ os) ≡ count o (q.0 ++ q.1) + (if object == o then 1 else 0))
          here (ground (arith, count-split_at o object os r n))
  ]
]

pub count-replace :
    (o old new : ℕ) (os : List ℕ)
    → old ≢ new
    → count o (replace old new os)
      ≡ (if old == o then 0 else count o os + (if new == o then count old os else 0))
unfolding count replace
count-replace o old new [] h = ground arith
count-replace o old new (p ∷ os) h = ground (arith, count-replace o old new os h)

pub split_at-none : (object : ℕ) (os : List ℕ) → split_at object os ≡ none → count object os ≡ 0
unfolding split_at count
split_at-none object [] e = refl
split_at-none object (o ∷ os) e = elim (Bool-cases (o == object)) [
  | inl f ↦ cc (rw (f, split_at) at e)
  | inr f ↦ elim (Option-cases (split_at object os)) [
    | inl n ↦ rw f (split_at-none object os n)
    | inr (r, n) ↦ cc (rw (f, n, split_at) at e)
  ]
]

pub shares_other : (a b : ℕ) (owner : Option ℕ) → a ≢ b → shares b owner ≢ 0 → shares a owner ≡ 0
unfolding shares
shares_other a b none h k = refl
shares_other a b (some c) h k = elim (Bool-cases (c == b)) [
  | inr e ↦ absurd (k (rw e refl))
  | inl e ↦ let away : (c == a) ≡ false = not_same (λ f. h (f ∙ (==_iff c b).0 e)) in rw away refl
]
