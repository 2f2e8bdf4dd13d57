-- ===== src/Engine/SavedDialogs/Numbers.antt =====
-- The line of a saved state in its key.
use engge.Base.{
  ℕ, zero, suc, ◌+◌, ◌-◌, ◌*◌, ◌/◌, ◌%◌, ◌^◌, ◌≤◌, ◌<◌, ◌≡◌, ◌≢◌, ◌↔◌, refl, ap, subst, ◌∙◌, inl,
  inr, ◌⊎◌, Bool, true, false, not, Option, none, some, List, [], ◌∷◌, ◌++◌, map, Bytes, codes,
  arith, Bool-cases, Option-cases, length, In, take, length-append, take-append_add, All,
  append_assoc, All-append, All-In,
}
use engge.Parsers.Cursor.{digits_from, at_most}
use engge.Parsers.Tokens.{is_digit}
use engge.Engine.SavedDialogs.{decimal, print_line}
use engge.Engine.SavedDialogs.Names.{Stops}

abbrev pub IsDigit : ℕ → Type 0
IsDigit c = is_digit c ≡ true

-- The number has at most one digit more than the fuel.
abbrev pub Fits : ℕ → ℕ → Type 0
Fits zero n = n < 10
Fits (suc f) n = Fits f (n / 10)

pub decimal-All : (f n : ℕ) → All IsDigit (decimal f n)
unfolding decimal
decimal-All zero n = (ground arith, tt)
decimal-All (suc f) n = elim (Bool-cases (engge.Base.ltb n 10)) [
  | inl small ↦ rw small (ground arith, tt)
  | inr large ↦
      rw large
        (All-append IsDigit (decimal f (n / 10)) _ (decimal-All f (n / 10)) (ground arith, tt))
]

digits_from-snoc :
    (m : ℕ) (ds : Bytes) (c : ℕ)
    → All IsDigit ds
    → IsDigit c
    → digits_from m (ds ++ c ∷ []) ≡ digits_from m ds * 10 + (c - b'0')
digits_from-snoc m [] c h k = rw k refl
digits_from-snoc m (d ∷ ds) c h k = rw h.0 (digits_from-snoc (m * 10 + (d - b'0')) ds c h.1 k)

pub digits_from-decimal : (f n : ℕ) → Fits f n → digits_from 0 (decimal f n) ≡ n
unfolding decimal
digits_from-decimal zero n h = ground arith
digits_from-decimal (suc f) n h = elim (Bool-cases (engge.Base.ltb n 10)) [
  | inl small ↦ rw small (ground arith)
  | inr large ↦ rw large (
      digits_from-snoc 0 (decimal f (n / 10)) (b'0' + n % 10) (decimal-All f (n / 10))
        (ground arith)
      ∙ omega (arith, digits_from-decimal f (n / 10) h))
]

pub print_line-decimal : (line : ℕ) → line < 2 ^ 31 → print_line line ≡ decimal 10 line
unfolding print_line
print_line-decimal line h = ground arith

pub decimal-Stops : (f n : ℕ) (r : Bytes) → Stops (λ d. not (is_digit d)) (decimal f n ++ r)
unfolding decimal
decimal-Stops zero n r = ground arith
decimal-Stops (suc f) n r = elim (Bool-cases (engge.Base.ltb n 10)) [
  | inl small ↦ rw small (ground arith)
  | inr large ↦ rw large (
      rw (append_assoc (decimal f (n / 10)) ((b'0' + n % 10) ∷ []) r)
        (decimal-Stops f (n / 10) ((b'0' + n % 10) ∷ r)))
]

pub small_line-kept : (n : ℕ) → n < 2 ^ 31 → at_most (2 ^ 63 - 1) n % 2 ^ 32 ≡ n
small_line-kept n h = ground arith
