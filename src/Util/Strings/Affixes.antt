-- ===== src/Util/Strings/Affixes.antt =====
-- `startsWith`, `endsWith`, `checkLanguage` and `removeFirstParenthesis` on texts put together.
use engge.Base.{
  ℕ, zero, suc, ◌-◌, ◌<◌, ◌≡◌, ◌≢◌, ◌↔◌, refl, sym, ap, subst, ◌∙◌, inl, inr, true, false, [], ◌∷◌,
  ◌++◌, Bytes, bytes_eq, bytes_eq_iff, bytes_eq_refl, codes, ltb, leb, length, take, drop, arith,
  Bool-cases, length-append, drop-append, take-append, take-drop, append_assoc,
}
use engge.Util.Strings.{starts_with, ends_with, has_at, check_language}

starts_with-append : (affix rest : Bytes) → starts_with (affix ++ rest) affix ≡ true
unfolding starts_with
starts_with-append affix rest =
    let long : leb (length affix) (length (affix ++ rest)) ≡ true =
      ground (arith, length-append affix rest) in
    rw (long, take-append (length affix) affix rest refl) (bytes_eq_refl affix)

ends_with-append : (front affix : Bytes) → ends_with (front ++ affix) affix ≡ true
unfolding ends_with
ends_with-append front affix =
    let long : leb (length affix) (length (front ++ affix)) ≡ true =
      ground (arith, length-append front affix) in
    let at : length front ≡ length (front ++ affix) - length affix =
      omega (arith, length-append front affix) in
    rw (long, drop-append _ front affix at) (bytes_eq_refl affix)

-- `startsWith` holds exactly of what is the prefix and something behind it, and `endsWith` of what is
-- something and the suffix behind it.
pub starts_with-ends_with :
    (str affix : Bytes)
    → ((starts_with str affix ≡ true) ↔ ((rest : Bytes) × (str ≡ affix ++ rest)))
      × ((ends_with str affix ≡ true) ↔ ((front : Bytes) × (str ≡ front ++ affix)))
unfolding starts_with ends_with
starts_with-ends_with str affix = (
  (
    λ h.
        let same = (bytes_eq_iff (take (length affix) str) affix).0 (ground arith) in
        (
          drop (length affix) str,
          sym (take-drop (length affix) str) ∙ ap (λ l. l ++ drop (length affix) str) same,
        ),
    λ (rest, e). ap (λ s. starts_with s affix) e ∙ starts_with-append affix rest,
  ),
  (
    λ h.
        let at = length str - length affix in
        let same = (bytes_eq_iff (drop at str) affix).0 (ground arith) in
        (take at str, sym (take-drop at str) ∙ ap (λ l. take at str ++ l) same),
    λ (front, e). ap (λ s. ends_with s affix) e ∙ ends_with-append front affix,
  ),
)

take_all : (n : ℕ) (xs : Bytes) → length xs ≡ n → take n xs ≡ xs
take_all zero [] h = refl
take_all zero (x ∷ xs) h = absurd (omega (arith, h))
take_all (suc n) [] h = refl
take_all (suc n) (x ∷ xs) h = ap (λ l. x ∷ l) (take_all n xs (omega (arith, h)))

-- Another ending of three units is not `_en`.
ends_with-other :
    (name ending : Bytes)
    → length ending ≡ 3
    → ending ≢ codes "_en"
    → ends_with (name ++ (codes "_en." ++ ending)) (codes "_en") ≡ false
ends_with-other name ending three other =
    let dotted = name ++ (codes "_en." ++ ending) in
    let front = name ++ codes "_en." in
    let joined : front ++ ending ≡ dotted = append_assoc name (codes "_en.") ending in
    elim (Bool-cases (ends_with dotted (codes "_en"))) [
      | inr differs ↦ differs
      | inl ends ↦
          let (start, e) = (starts_with-ends_with dotted (codes "_en")).1.0 ends in
          let same : length start ≡ length front = omega (
            arith,
            ap length (joined ∙ e),
            length-append start (codes "_en"),
            length-append front ending,
            three,
          ) in
          absurd (
            other (
              sym (drop-append (length front) front ending refl)
              ∙ ap (drop (length front)) (joined ∙ e)
              ∙ drop-append (length front) start (codes "_en") same))
    ]

has_at-append :
    (front : Bytes) (c : ℕ) (cs : Bytes) (i : ℕ)
    → length front ≡ i
    → has_at (front ++ c ∷ cs) i c ≡ true
has_at-append [] c cs zero h = ground arith
has_at-append [] c cs (suc i) h = absurd (omega (arith, h))
has_at-append (d ∷ front) c cs zero h = absurd (omega (arith, h))
has_at-append (d ∷ front) c cs (suc i) h = has_at-append front c cs i (omega (arith, h))

-- A file of the English language becomes that of the language of the preferences: `_en` at the end of
-- the name, or before a dot and an ending of three units, makes place for the language, if something
-- stands before it and the ending is not itself `_en`.
pub check_language-file :
    (lang name ending : Bytes)
    → 0 < length name
    → length ending ≡ 3
    → ending ≢ codes "_en"
    → (check_language lang (name ++ codes "_en") ≡ name ++ (codes "_" ++ lang))
      × (check_language lang (name ++ (codes "_en." ++ ending))
          ≡ name ++ (codes "_" ++ (lang ++ (codes "." ++ ending))))
unfolding check_language bytes_eq
check_language-file lang name ending some_name three other =
    let plain = name ++ codes "_en" in
    let dotted = name ++ (codes "_en." ++ ending) in
    let n3 : length name ≡ length plain - 3 = omega (arith, length-append name (codes "_en")) in
    let n7 : length name ≡ length dotted - 7 =
      omega (arith, length-append name (codes "_en." ++ ending), three) in
    let n4 : length (name ++ codes "_en") ≡ length dotted - 4 = omega (
      arith,
      length-append name (codes "_en." ++ ending),
      length-append name (codes "_en"),
      three,
    ) in
    let joined : plain ++ 46 ∷ ending ≡ dotted = append_assoc name (codes "_en") (46 ∷ ending) in
    let long : ltb 7 (length dotted) ≡ true =
      ground (arith, length-append name (codes "_en." ++ ending), some_name, three) in
    let dot : has_at dotted (length dotted - 4) 46 ≡ true =
      subst (λ (s : Bytes). has_at s (length dotted - 4) 46 ≡ true) joined
        (has_at-append plain 46 ending (length dotted - 4) n4) in
    let behind : drop (length dotted - 4) dotted ≡ 46 ∷ ending =
      subst (λ (s : Bytes). drop (length dotted - 4) s ≡ 46 ∷ ending) joined
        (drop-append (length dotted - 4) plain (46 ∷ ending) n4) in
    let before = drop-append (length dotted - 7) name (codes "_en." ++ ending) n7 in
    let english = ends_with-append name (codes "_en") in
    (
      rw (english, take-append (length plain - 3) name (codes "_en") n3) refl,
      rw
          (
            ends_with-other name ending three other,
            long,
            dot,
            before,
            behind,
            take-append (length dotted - 7) name (codes "_en." ++ ending) n7,
            take_all 3 ending three,
          )
          refl,
    )
