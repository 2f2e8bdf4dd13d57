-- ===== src/Engine/Callbacks/Alone.antt =====
-- The identifiers of callbacks: lists in which one has none, or stands alone.
use engge.Base.{
  ℕ, ◌+◌, ◌≡◌, ◌≢◌, ◌⊎◌, ap, inl, inr, List, [], ◌∷◌, ◌++◌, ◌==◌, if◌then◌else◌, All, All-append,
  Bool-cases, arith,
}
use engge.Engine.Callbacks.{
  Clock, Callback, Request, adds, removes, new_callback, add_callback, remove_callback, carry_out,
  advance, advance_all,
}

-- How often the identifier stands in the list.
abbrev pub count : ℕ → List ℕ → ℕ
count i [] = 0
count i (j ∷ js) = (if j == i then 1 else 0) + count i js

pub count-append : (i : ℕ) (xs ys : List ℕ) → count i (xs ++ ys) ≡ count i xs + count i ys
count-append i [] ys = omega arith
count-append i (x ∷ xs) ys = omega (arith, count-append i xs ys)

-- How often a callback is called in updates that take so long: once, when its time is over.
unfoldable pub rings :
    (clock : Clock) → List (Clock.TimeSpan clock) → Clock.TimeSpan clock → Clock.TimeSpan clock → ℕ
rings clock [] elapsed time = 0
rings clock (e ∷ es) elapsed time =
    let waited = Clock.plus clock elapsed e in
    let later = rings clock es waited time in if Clock.greater clock waited time then 1 else later

module _ {clock : Clock} where
  open clock use {TimeSpan}

  -- No callback has the identifier.
  abbrev pub Free : ℕ → List (Callback clock) → Type 0
  Free i cs = All (λ c. c.id ≢ i) cs

  -- The callback is there, and no other has its identifier.
  abbrev pub Alone : ℕ → Callback clock → List (Callback clock) → Type 0
  Alone i c [] = ⊥
  Alone i c (x ∷ xs) = ((x ≡ c) × Free i xs) ⊎ ((x.id ≢ i) × Alone i c xs)

  -- The scripts do not ask for another callback with the identifier.
  abbrev pub Spares : ℕ → Request clock → Type 0
  Spares i (adds id time method arg) = id ≢ i
  Spares i (removes id) = Unit

  pub remove_callback-Free :
      (i id : ℕ) (cs : List (Callback clock)) → Free i cs → Free i (remove_callback id cs)
  unfolding remove_callback
  remove_callback-Free i id [] f = tt
  remove_callback-Free i id (c ∷ cs) f = elim (Bool-cases (c.id == id)) [
    | inl same ↦ rw same f.1
    | inr other ↦ rw other (f.0, remove_callback-Free i id cs f.1)
  ]

  pub carry_out-Free :
      (i : ℕ) (rs : List (Request clock)) (cs : List (Callback clock))
      → All (Spares i) rs
      → Free i cs
      → Free i (carry_out rs cs)
  unfolding carry_out add_callback new_callback
  carry_out-Free i [] cs s f = f
  carry_out-Free i (adds id time method arg ∷ rs) cs s f =
      carry_out-Free i rs _ s.1 (All-append _ cs _ f (s.0, tt))
  carry_out-Free i (removes id ∷ rs) cs s f =
      carry_out-Free i rs _ s.1 (remove_callback-Free i id cs f)

  pub advance_all-Free :
      (i : ℕ) (e : TimeSpan) (cs : List (Callback clock)) → Free i cs → Free i (advance_all e cs)
  unfolding advance_all advance
  advance_all-Free i e [] f = tt
  advance_all-Free i e (c ∷ cs) f = (f.0, advance_all-Free i e cs f.1)

  pub advance_all-Alone :
      (i : ℕ) (c : Callback clock) (e : TimeSpan) (cs : List (Callback clock))
      → Alone i c cs
      → Alone i (advance e c) (advance_all e cs)
  unfolding advance_all advance
  advance_all-Alone i c e [] a = absurd a
  advance_all-Alone i c e (x ∷ xs) (inl (same, f)) =
      inl (ap (advance e) same, advance_all-Free i e xs f)
  advance_all-Alone i c e (x ∷ xs) (inr (other, a)) = inr (other, advance_all-Alone i c e xs a)

  pub Free-append-Alone :
      (i : ℕ) (c : Callback clock) (xs ys : List (Callback clock))
      → Free i xs
      → Alone i c ys
      → Alone i c (xs ++ ys)
  Free-append-Alone i c [] ys f a = a
  Free-append-Alone i c (x ∷ xs) ys f a = inr (f.0, Free-append-Alone i c xs ys f.1 a)
