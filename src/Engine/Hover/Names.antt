-- ===== src/Engine/Hover/Names.antt =====
-- The names of objects with their marks.
use engge.Base.{
  ℕ, suc, ◌+◌, ◌-◌, ◌≡◌, ◌≢◌, refl, ap, ◌∙◌, true, false, some, [], ◌∷◌, ◌++◌, arith, Bytes, ltb,
  ◌==◌, length, length-append, get_elem?, take-append, Bool-cases, inl, inr,
}
use engge.Engine.Hover.{get_display_name}

get_elem?-append : (s t : Bytes) (i : ℕ) → get_elem? (s ++ t) (length s + i) ≡ get_elem? t i
get_elem?-append [] t i = let e : 0 + i ≡ i = omega arith in rw e refl
get_elem?-append (c ∷ s) t i =
    let e : suc (length s) + i ≡ suc (length s + i) = omega arith in rw e (get_elem?-append s t i)

module _ (s : Bytes) (e d : ℕ) where
  -- A name that ends in two units.
  abbrev ending : Bytes
  ending = s ++ e ∷ d ∷ []

  length-ending : length ending ≡ length s + 2
  length-ending = length-append s (e ∷ d ∷ [])

  at_first : get_elem? ending (length s) ≡ some e
  at_first =
      let i : length s ≡ length s + 0 = omega arith in
      ap (get_elem? ending) i ∙ get_elem?-append s (e ∷ d ∷ []) 0

  at_second : get_elem? ending (suc (length s)) ≡ some d
  at_second =
      let i : suc (length s) ≡ length s + 1 = omega arith in
      ap (get_elem? ending) i ∙ get_elem?-append s (e ∷ d ∷ []) 1

  more_ending : ltb 1 (suc (length ending)) ≡ true
  more_ending = let l = length-ending in ground arith

  enough_ending : ltb 2 (suc (length ending)) ≡ true
  enough_ending = let l = length-ending in ground arith

  index_ending : suc (length ending) - 2 ≡ suc (length s)
  index_ending = omega (arith, length-ending)

-- Without "^" before it, the mark behind it is taken off.
unmarked : (c d : ℕ) (s : Bytes) → c ≢ b'^' → get_display_name (c ∷ ending s b'#' d) ≡ c ∷ s
unfolding get_display_name
unmarked c d s h =
    let other : (c == b'^') ≡ false = ground arith in
    rw
      (
        get_display_name,
        enough_ending s b'#' d,
        more_ending s b'#' d,
        other,
        index_ending s b'#' d,
        at_first s b'#' d,
      )
      (ap (λ l. c ∷ l) (take-append (length s) s (b'#' ∷ d ∷ []) refl))

plain :
    (c e d : ℕ) (s : Bytes)
    → c ≢ b'^'
    → e ≢ b'#'
    → get_display_name (c ∷ ending s e d) ≡ c ∷ ending s e d
unfolding get_display_name
plain c e d s h k =
    let other : (c == b'^') ≡ false = ground arith in
    let no : (e == b'#') ≡ false = ground arith in
    rw
      (
        get_display_name,
        enough_ending s e d,
        more_ending s e d,
        other,
        index_ending s e d,
        at_first s e d,
        no,
      )
      refl

-- With "^" before it, it is the last unit that counts as the mark.
half_marked : (d : ℕ) (s : Bytes) → d ≢ b'#' → get_display_name (b'^' ∷ (s ++ d ∷ [])) ≡ s ++ d ∷ []
unfolding get_display_name
half_marked d s h =
    let size : length (s ++ d ∷ []) ≡ length s + 1 = length-append s (d ∷ []) in
    let more : ltb 1 (suc (length (s ++ d ∷ []))) ≡ true = ground (arith, size) in
    let index : suc (length (s ++ d ∷ [])) - 2 ≡ length s = omega (arith, size) in
    let zero_more : length s ≡ length s + 0 = omega arith in
    let at : get_elem? (s ++ d ∷ []) (length s) ≡ some d =
      ap (get_elem? (s ++ d ∷ [])) zero_more ∙ get_elem?-append s (d ∷ []) 0 in
    let no : (d == b'#') ≡ false = ground arith in
    elim (Bool-cases (ltb 2 (suc (length (s ++ d ∷ []))))) [
      | inl enough ↦ rw (get_display_name, enough, more, index, at, no) refl
      | inr few ↦ rw (get_display_name, few, more) refl
    ]

cut : (e : ℕ) (s : Bytes) → get_display_name (b'^' ∷ ending s e b'#') ≡ b'^' ∷ s
unfolding get_display_name
cut e s =
    rw
      (
        get_display_name,
        enough_ending s e b'#',
        more_ending s e b'#',
        index_ending s e b'#',
        at_second s e b'#',
      )
      (ap (λ l. b'^' ∷ l) (take-append (length s) s (e ∷ b'#' ∷ []) refl))

-- What is shown of each name. One of three units or more that starts with another unit than "^" loses a
-- "#" and the unit behind it at its end, and stays if there is no "#" before the last unit. One that
-- starts with "^" and goes on loses that unit only, even if there is a "#" before the last unit; but if its last
-- unit is a "#" and it has three units or more, it keeps the "^" and loses the last two units. The
-- other names of at most two units stay as they are, and "^#" becomes "#".
pub get_display_name-marks :
    (c d e : ℕ) (s : Bytes)
    → c ≢ b'^'
    → d ≢ b'#'
    → (get_display_name (c ∷ (s ++ b'#' ∷ e ∷ [])) ≡ c ∷ s)
      × (get_display_name (c ∷ (s ++ d ∷ e ∷ [])) ≡ c ∷ (s ++ d ∷ e ∷ []))
      × (get_display_name (b'^' ∷ (s ++ d ∷ [])) ≡ s ++ d ∷ [])
      × (get_display_name (b'^' ∷ (s ++ e ∷ b'#' ∷ [])) ≡ b'^' ∷ s)
      × (get_display_name (c ∷ e ∷ []) ≡ c ∷ e ∷ [])
      × (get_display_name (b'^' ∷ b'#' ∷ []) ≡ b'#' ∷ [])
      × (get_display_name (e ∷ []) ≡ e ∷ [])
      × (get_display_name [] ≡ [])
unfolding get_display_name
get_display_name-marks c d e s h k =
    let other : (c == b'^') ≡ false = ground arith in
    (
      unmarked c e s h,
      plain c d e s h k,
      half_marked d s k,
      cut e s,
      rw other refl,
      refl,
      refl,
      refl,
    )
