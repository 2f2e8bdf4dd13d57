-- ===== src/Util/Strings/ReplaceAll.antt =====
-- `replaceAll` against a replacement in one pass.
use engge.Base.{
  ℕ, zero, suc, ◌+◌, ◌-◌, ◌<◌, ◌≤◌, ◌≡◌, refl, sym, ap, subst, ◌∙◌, inl, inr, true, false, Option,
  none, some, [], ◌∷◌, ◌++◌, Bytes, ltb, if◌then◌else◌, length, take, drop, arith, Bool-cases,
  Option-cases, length-append, drop-append, length-take, length-drop, append_assoc, take-append_add,
  drop-append_add,
}
use engge.Base.Outcome.{done}
use engge.Util.Strings.{starts_with, find, find_from, replace_at, replace_loop, replace_all}

-- One pass from left to right: what starts with `search` gives `replace`, and the rest of it, `skip`
-- units, is passed over.
unfoldable pub substitute : Bytes → Bytes → ℕ → Bytes → Bytes
substitute search replace skip [] = []
substitute search replace (suc skip) (c ∷ cs) = substitute search replace skip cs
substitute search replace zero (c ∷ cs) =
    let plain = substitute search replace 0 cs in
    let matched = substitute search replace (length search - 1) cs in
    if starts_with (c ∷ cs) search then replace ++ matched else c ∷ plain

module _ (search replace : Bytes) (positive : 0 < length search) where
  substitute-drop :
      (k : ℕ) (cs : Bytes)
      → substitute search replace k cs ≡ substitute search replace 0 (drop k cs)
  unfolding substitute
  substitute-drop zero cs = refl
  substitute-drop (suc k) [] = refl
  substitute-drop (suc k) (c ∷ cs) = substitute-drop k cs

  find-none : (cs : Bytes) → find cs search ≡ none → substitute search replace 0 cs ≡ cs
  unfolding find substitute
  find-none [] e = refl
  find-none (c ∷ cs) e = elim (Bool-cases (starts_with (c ∷ cs) search)) [
    | inl s ↦ cc (rw (s, find) at e)
    | inr s ↦ elim (Option-cases (find cs search)) [
      | inl n ↦ rw (s, substitute) (ap (λ l. c ∷ l) (find-none cs n))
      | inr (k, n) ↦ cc (rw (s, n, find) at e)
    ]
  ]

  empty_search : starts_with [] search ≡ false
  unfolding starts_with
  empty_search = ground arith

  drop-pred : (c : ℕ) (cs : Bytes) → drop (length search - 1) cs ≡ drop (length search) (c ∷ cs)
  drop-pred c cs =
      let split : length search ≡ suc (length search - 1) = omega (arith, positive) in
      ap (λ n. drop n (c ∷ cs)) (sym split)

  -- The pass replaces what starts at the index, and goes on behind it.
  abbrev Replaces : Bytes → ℕ → Type 0
  Replaces cs k =
      (k + length search ≤ length cs)
      × (substitute search replace 0 cs
          ≡ take k cs ++ (replace ++ substitute search replace 0 (drop (k + length search) cs)))

  starts_with-le : (cs : Bytes) → starts_with cs search ≡ true → length search ≤ length cs
  unfolding starts_with
  starts_with-le cs h = ground arith

  find-some : (cs : Bytes) (k : ℕ) → find cs search ≡ some k → Replaces cs k
  unfolding find substitute
  find-some [] k e = cc (rw (empty_search, find) at e)
  find-some (c ∷ cs) k e = elim (Bool-cases (starts_with (c ∷ cs) search)) [
    | inl s ↦
        let at : some 0 ≡ some k = rw (s, find) at e in
        let zeroth : 0 ≡ k = cc in
        let none_before : 0 + length search ≡ length search = omega arith in
        let long = starts_with-le (c ∷ cs) s in
        subst (Replaces (c ∷ cs)) zeroth (
          omega (arith, long),
          rw (s, none_before)
              (ap (λ l. replace ++ l)
                (substitute-drop (length search - 1) cs
                  ∙ ap (substitute search replace 0) (drop-pred c cs))),
        )
    | inr s ↦ elim (Option-cases (find cs search)) [
      | inl n ↦ cc (rw (s, n, find) at e)
      | inr (i, n) ↦
          let at : some (suc i) ≡ some k = rw (s, n, find) at e in
          let next : suc i ≡ k = cc in
          let further : suc i + length search ≡ suc (i + length search) = omega arith in
          let (long, rest) = find-some cs i n in
          subst (Replaces (c ∷ cs)) next
            (omega (arith, long), rw (s, further) (ap (λ l. c ∷ l) rest))
    ]
  ]

  -- What was done already stays, and the loop does to the rest what the pass does.
  find_from-append :
      (front cs : Bytes) (pos : ℕ)
      → length front ≡ pos
      → find_from (front ++ cs) search pos
        ≡ elim (find cs search) as (λ o. Option ℕ) [ none ↦ none | some i ↦ some (pos + i) ]
  unfolding find_from
  find_from-append front cs pos h =
      let inside : ltb (length (front ++ cs)) pos ≡ false =
        ground (arith, length-append front cs) in
      rw (inside, drop-append pos front cs h) refl

  replace_at-append :
      (front cs : Bytes) (k : ℕ)
      → replace_at (front ++ cs) (length front + k) (length search) replace
        ≡ (front ++ (take k cs ++ replace)) ++ drop (k + length search) cs
  replace_at-append front cs k =
      let at : length front + k + length search ≡ length front + (k + length search) =
        omega arith in
      let rest = drop (k + length search) cs in
      rw (at, take-append_add front cs k, drop-append_add front cs (k + length search))
        (append_assoc front (take k cs) (replace ++ rest)
          ∙ ap (λ l. front ++ l) (sym (append_assoc (take k cs) replace rest))
          ∙ sym (append_assoc front (take k cs ++ replace) rest))

  replace_loop-substitute :
      (fuel : ℕ) (front cs : Bytes)
      → length cs < fuel
      → replace_loop fuel search replace
          (find_from (front ++ cs) search (length front))
          (front ++ cs)
        ≡ done (front ++ substitute search replace 0 cs)
  unfolding replace_loop
  replace_loop-substitute zero front cs h = absurd (omega arith)
  replace_loop-substitute (suc fuel) front cs h = elim (Option-cases (find cs search)) [
    | inl n ↦
        rw (find_from-append front cs (length front) refl, n)
          (ap (λ l. done (front ++ l)) (sym (find-none cs n)))
    | inr (k, n) ↦
        let (long, split) = find-some cs k n in
        let rest = drop (k + length search) cs in
        let front' = front ++ (take k cs ++ replace) in
        let at : length front + k + length replace ≡ length front' = omega (
          arith,
          length-append front (take k cs ++ replace),
          length-append (take k cs) replace,
          length-take k cs,
          long,
        ) in
        let shorter : length rest < fuel =
          omega (arith, length-drop (k + length search) cs, long, positive, h) in
        let found : find_from (front ++ cs) search (length front) ≡ some (length front + k) =
          find_from-append front cs (length front) refl ∙ rw n refl in
        let joined =
          append_assoc front (take k cs ++ replace) (substitute search replace 0 rest)
          ∙ ap (λ l. front ++ l)
              (append_assoc (take k cs) replace (substitute search replace 0 rest) ∙ sym split) in
        ap (λ o. replace_loop (suc fuel) search replace o (front ++ cs)) found
        ∙ ap
            (λ t.
              replace_loop fuel search replace
                (find_from t search (length front + k + length replace)) t)
            (replace_at-append front cs k)
        ∙ ap
            (λ q.
              replace_loop fuel search replace (find_from (front' ++ rest) search q)
                (front' ++ rest))
            at
        ∙ replace_loop-substitute fuel front' rest shorter
        ∙ ap done joined
  ]

whole : (text search : Bytes) → find_from text search 0 ≡ find text search
unfolding find_from
whole text search = elim (Option-cases (find text search)) [
  | inl e ↦ rw e (ground arith)
  | inr (i, e) ↦ rw e (ground arith)
]

-- `replaceAll` of a text that is not empty returns, after at most as many rounds as the text has
-- units, and gives what one pass from left to right does, which replaces each place that it comes to
-- and looks again behind it, whether or not what it puts there holds the text that is looked for.
pub replace_all-substitute :
    (fuel : ℕ) (text search replace : Bytes)
    → 0 < length search
    → length text < fuel
    → replace_all fuel text search replace ≡ done (substitute search replace 0 text)
unfolding replace_all
replace_all-substitute fuel text search replace positive h =
    ap (λ o. replace_loop fuel search replace o text) (sym (whole text search))
    ∙ replace_loop-substitute search replace positive fuel [] text h
