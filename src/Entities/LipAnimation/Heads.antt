-- ===== src/Entities/LipAnimation/Heads.antt =====
-- The head that is shown, and the place in the data.
use engge.Base.{
  ℕ, suc, ◌-◌, if◌then◌else◌, ◌≤◌, ◌<◌, ◌≡◌, ◌⊎◌, refl, ap, inl, inr, true, ◌&&◌, ◌||◌, some, List,
  length, ltb, leb, ◌==◌, get_elem?-lt, All, All-get, arith, Bool-cases,
}
use engge.Base.Outcome.{Outcome, done, Returns}
use engge.Dialog.Ast.{pos}
use engge.Entities.LipAnimation.{
  Clock, NgLipData, LipAnimation, head_of, update_head, load, clear, end_talk, update,
}

-- The letters of the mouth shapes: `A` to `H`, and `X`.
abbrev pub IsShape : ℕ → Type 0
IsShape letter = ((65 ≤ letter) × (letter ≤ 72)) ⊎ (letter ≡ 88)

-- The letter by which `updateHead` goes.
abbrev shown_as : ℕ → ℕ
shown_as letter =
    let first = if letter == 88 || letter == 71 then 65 else letter in
    if first == 72 then 68 else first

shown_as-range : (letter : ℕ) → IsShape letter → (65 ≤ shown_as letter) × (shown_as letter ≤ 70)
shown_as-range letter h = ground arith

head_of-shape : (letter : ℕ) → IsShape letter → (k : ℕ) × (head_of letter ≡ pos k) × (k ≤ 5)
unfolding head_of
head_of-shape letter h =
    let (low, high) = shown_as-range letter h in
    let above : leb 65 (shown_as letter) ≡ true = ground (arith, low) in
    (shown_as letter - 65, rw above refl, omega (arith, low, high))

-- The place is in the data or at its end, the letters are mouth shapes, and the actor shows one of its
-- first six heads.
pub record IsWf {clock : Clock} (l : LipAnimation clock) : Type 0 where
  pub in_range : l.index ≤ length l.lip
  pub shapes : All (λ d. IsShape d.letter) l.lip
  pub head : (k : ℕ) × (l.head_index ≡ some (pos k)) × (k ≤ 5)

module _ {clock : Clock} where
  update_head-IsWf :
      (l : LipAnimation clock)
      → IsWf l
      → (length l.lip ≡ 0) ⊎ (l.index < length l.lip)
      → Returns IsWf (update_head l)
  unfolding update_head
  update_head-IsWf l w h = elim (Bool-cases (length l.lip == 0 && leb (length l.lip) l.index)) [
    | inl e ↦ rw e w
    | inr e ↦
        let inside : l.index < length l.lip = elim h [
          | inr there ↦ there
          | inl nothing ↦ ground (arith, e, nothing)
        ] in
        let (d, f) = get_elem?-lt l.lip l.index inside in
        let (k, g, small) = w.head in
        let (n, m, low) = head_of-shape d.letter (All-get _ l.lip l.index w.shapes f) in
        rw (e, f, update_head, g)
          (record { in_range = w.in_range; shapes = w.shapes; head = (n, ap some m, low) })
  ]

some_or_none : {A : Type 0} (xs : List A) → (length xs ≡ 0) ⊎ (0 < length xs)
some_or_none xs = ground arith

-- What is called while there is an actor.
pub data Call (clock : Clock) : Type 0 where
  loads : (lip : List (NgLipData clock)) → Call clock
  updates : (e : Clock.TimeSpan clock) → Call clock
  clears : Call clock

-- What is loaded has the letters of mouth shapes.
abbrev pub IsAllowed : {clock : Clock} → Call clock → Type 0
IsAllowed (Call.loads lip) = All (λ d. IsShape d.letter) lip
IsAllowed c = Unit

module _ {clock : Clock} where
  unfoldable pub make : Call clock → LipAnimation clock → Outcome (LipAnimation clock)
  make (Call.loads lip) l = load lip l
  make (Call.updates e) l = update e l
  make Call.clears l = done (clear l)

  -- With an actor, and data whose letters are mouth shapes, A to H or X, `load`, `update` and `clear`
  -- return, never read behind the data, and leave the actor one of its first six heads, if it showed one of these
  -- before and the place in the data was not behind its end.
  pub make-IsWf :
      (c : Call clock) (l : LipAnimation clock) → IsAllowed c → IsWf l → Returns IsWf (make c l)
  unfolding make load clear update end_talk
  make-IsWf (Call.loads lip) l a w =
      update_head-IsWf _ (record { in_range = omega arith; shapes = a; head = w.head })
        (some_or_none lip)
  make-IsWf Call.clears l a w = record { in_range = omega arith; shapes = tt; head = w.head }
  make-IsWf (Call.updates e) l a w =
      elim (Bool-cases (length l.lip == 0 || l.index == length l.lip)) [
        | inl over ↦ rw over w
        | inr more ↦
            let inside : l.index < length l.lip = ground (arith, more, w.in_range) in
            let (d, f) = get_elem?-lt l.lip l.index inside in
            let (k, g, low) = w.head in
            let late = Clock.greater clock (Clock.plus clock l.elapsed e) d.time in
            let next = if late && ltb l.index (length l.lip) then suc l.index else l.index in
            let bound : next ≤ length l.lip = ground (arith, inside) in
            rw (more, f, update)
              (elim (Bool-cases (next == length l.lip)) [
                | inl end ↦
                    rw (end, g)
                      (record {
                        in_range = bound;
                        shapes = w.shapes;
                        head = (0, refl, omega arith);
                      })
                | inr there ↦ rw there (
                    update_head-IsWf _
                      (record { in_range = bound; shapes = w.shapes; head = w.head })
                      (inr (ground (arith, bound, there))))
              ])
      ]
