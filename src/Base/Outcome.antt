-- ===== src/Base/Outcome.antt =====
-- What a call of the program may come to: a value; undefined behaviour (an index out of bounds, a null
-- pointer that is followed) or an exception; or fuel that ran out before the call returned.
use mathlib.Core.Path.{◌≡◌, refl}

pub data Outcome {ℓ} (A : Type ℓ) : Type ℓ where
  done : A → Outcome A
  fault : Outcome A
  unfinished : Outcome A

infixl 5 ◌>>=◌
abbrev pub ◌>>=◌ {ℓ κ} : {A : Type ℓ} {B : Type κ} → Outcome A → (A → Outcome B) → Outcome B
done a >>= f = f a
fault >>= f = fault
unfinished >>= f = unfinished

-- Inversion of a bind that returns.
pub >>=-eq-done {ℓ κ} :
    {A : Type ℓ} {B : Type κ} (m : Outcome A) (f : A → Outcome B) {b : B}
    → (m >>= f) ≡ done b
    → (a : A) × (m ≡ done a) × (f a ≡ done b)
>>=-eq-done (done a) f h = (a, refl, h)
>>=-eq-done fault f h = cc
>>=-eq-done unfinished f h = cc

-- The call does not fault, and if it returns, its value has the property. `T` says what running out
-- of fuel is.
abbrev pub Meets {ℓ} : {A : Type ℓ} → Type 0 → (A → Type 0) → Outcome A → Type 0
Meets T P (done a) = P a
Meets T P fault = ⊥
Meets T P unfinished = T

-- Nothing is said where the fuel runs out.
abbrev pub Safe {ℓ} : {A : Type ℓ} → (A → Type 0) → Outcome A → Type 0
Safe P = Meets Unit P

-- The fuel does not run out.
abbrev pub Returns {ℓ} : {A : Type ℓ} → (A → Type 0) → Outcome A → Type 0
Returns P = Meets ⊥ P

pub Meets-bind {ℓ κ} :
    {A : Type ℓ} {B : Type κ} (T : Type 0) (P : A → Type 0) (Q : B → Type 0) (m : Outcome A)
    (f : A → Outcome B)
    → Meets T P m
    → ((a : A) → P a → Meets T Q (f a))
    → Meets T Q (m >>= f)
Meets-bind T P Q (done a) f h k = k a h
Meets-bind T P Q fault f h k = absurd h
Meets-bind T P Q unfinished f h k = h

pub Meets-map {ℓ} :
    {A : Type ℓ} (T : Type 0) {P Q : A → Type 0} (m : Outcome A)
    → Meets T P m
    → ((a : A) → P a → Q a)
    → Meets T Q m
Meets-map T (done a) h k = k a h
Meets-map T fault h k = h
Meets-map T unfinished h k = h
