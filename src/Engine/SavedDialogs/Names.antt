-- ===== src/Engine/SavedDialogs/Names.antt =====
-- How the key of a saved state is cut into its parts.
use engge.Base.{
  ℕ, suc, ◌<◌, ◌≡◌, refl, ap, ◌∙◌, inl, inr, Bool, true, false, [], ◌∷◌, ◌++◌, Bytes, codes, arith,
  Bool-cases, length, take, All, append_assoc,
}
use mathlib.Core.List.{append-nil}
use engge.Base.Outcome.{done}
use engge.Engine.SavedDialogs.{split_while, grow_name}

-- The text does not go on with a byte of the kind.
abbrev pub Stops : (ℕ → Bool) → Bytes → Type 0
Stops p [] = Unit
Stops p (c ∷ cs) = p c ≡ false

split_while-stop : (p : ℕ → Bool) (r : Bytes) → Stops p r → split_while p r ≡ ([], r)
unfolding split_while
split_while-stop p [] h = refl
split_while-stop p (c ∷ cs) h = rw h refl

pub split_while-append :
    (p : ℕ → Bool) (xs r : Bytes)
    → Stops p r
    → split_while p (xs ++ r) ≡ ((split_while p xs).0, (split_while p xs).1 ++ r)
unfolding split_while
split_while-append p [] r h = split_while-stop p r h
split_while-append p (x ∷ xs) r h = elim (Bool-cases (p x)) [
  | inl in_kind ↦ rw (in_kind, split_while-append p xs r h) refl
  | inr out ↦ rw out refl
]

pub split_while-All :
    (p : ℕ → Bool) (xs : Bytes) → All (λ c. p c ≡ true) xs → split_while p xs ≡ (xs, [])
unfolding split_while
split_while-All p [] h = refl
split_while-All p (x ∷ xs) h = rw (h.0, split_while-All p xs h.1) refl

pub split_while-join :
    (p : ℕ → Bool) (xs : Bytes) → (split_while p xs).0 ++ (split_while p xs).1 ≡ xs
unfolding split_while
split_while-join p [] = refl
split_while-join p (x ∷ xs) = elim (Bool-cases (p x)) [
  | inl in_kind ↦ rw in_kind (ap (λ l. x ∷ l) (split_while-join p xs))
  | inr out ↦ rw out refl
]

grow_name-found :
    (has_entry : Bytes → Bool) (name r : Bytes)
    → has_entry (name ++ codes ".byack") ≡ true
    → grow_name has_entry name r ≡ done (name, r)
unfolding grow_name
grow_name-found has_entry name [] h = rw h refl
grow_name-found has_entry name (c ∷ r) h = rw h refl

pub grow_name-append :
    (has_entry : Bytes → Bool) (name tail r : Bytes)
    → has_entry ((name ++ tail) ++ codes ".byack") ≡ true
    → ((k : ℕ) → k < length tail → has_entry ((name ++ take k tail) ++ codes ".byack") ≡ false)
    → grow_name has_entry name (tail ++ r) ≡ done (name ++ tail, r)
unfolding grow_name
grow_name-append has_entry name [] r h misses =
    rw (append-nil name) (grow_name-found has_entry name r (rw (append-nil name) at h))
grow_name-append has_entry name (c ∷ tail) r h misses =
    let e = append_assoc name (c ∷ []) tail in
    let longer =
      grow_name-append has_entry (name ++ c ∷ []) tail r (rw e h)
        (λ k l. rw (append_assoc name (c ∷ []) (take k tail)) (misses (suc k) (omega arith))) in
    rw (rw (append-nil name) at (misses 0 (omega arith))) (longer ∙ ap (λ l. done (l, r)) e)
