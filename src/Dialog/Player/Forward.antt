-- ===== src/Dialog/Player/Forward.antt =====
-- Scripts whose gotos lead to later labels, and how deep `selectLabel` calls itself on them.
use engge.Base.{
  ℕ, zero, suc, ◌+◌, ◌<◌, ◌≤◌, ◌≡◌, refl, sym, subst, inl, inr, Option, none, some, List, [], ◌∷◌,
  Bytes, bytes_eq_refl, length, get_elem?, All, arith, Option-cases,
}
use engge.Base.Outcome.{Returns}
use engge.Dialog.Ast.{Label, CompilationUnit}
use engge.Dialog.Script.{DialogScript}
use engge.Dialog.Player.State.{Player}
use engge.Dialog.Player.Visit.{Go}
use engge.Dialog.Player.Loop.{running}
use engge.Dialog.Player.Flow.{find_last, select_label}
use engge.Dialog.Player.Playable.{GoesTo, IsPlayable, InRange, IsWf, Rests, find_last-lt}
use engge.Dialog.Player.Rounds.{GoIsSafe}
use engge.Dialog.Player.Running.{
  running-Rests, running-Rests-none, select_found-Rests, select_found-Rests-none,
}
use engge.Dialog.Player.Safety.{label_at}

-- The label that is found, if any, is behind the label `i`.
abbrev pub IsBehind : ℕ → Option ℕ → Type 0
IsBehind i none = Unit
IsBehind i (some j) = i < j

abbrev pub LeadsOn : CompilationUnit → ℕ → Bytes → Type 0
LeadsOn u i name = IsBehind i (find_last name u.labels)

abbrev pub AreForward : CompilationUnit → ℕ → List Label → Type 0
AreForward u i [] = Unit
AreForward u i (l ∷ ls) =
    All (λ st. GoesTo (LeadsOn u i) st.expression) l.statements × AreForward u (suc i) ls

-- Each goto of the script leads to a later label, or to none. Choices may lead anywhere.
abbrev pub IsForward : CompilationUnit → Type 0
IsForward u = AreForward u 0 u.labels

AreForward-get :
    (u : CompilationUnit) (k : ℕ) (ls : List Label) (i at : ℕ) {l : Label}
    → at ≡ i + k
    → AreForward u k ls
    → get_elem? ls i ≡ some l
    → All (λ st. GoesTo (LeadsOn u at) st.expression) l.statements
AreForward-get u k [] i at same h e = cc
AreForward-get u k (m ∷ ls) zero at {l} same h e =
    let here : k ≡ at = omega arith in
    let found : m ≡ l = cc in
    subst (λ (x : Label). All (λ st. GoesTo (LeadsOn u at) st.expression) x.statements) found
      (subst (λ (x : ℕ). All (λ st. GoesTo (LeadsOn u x) st.expression) m.statements) here h.0)
AreForward-get u k (m ∷ ls) (suc i) at same h e =
    AreForward-get u (suc k) ls i at (omega arith) h.1 e

-- The search from the back finds a label of the name that stands there or behind.
find_last-ge :
    (ls : List Label) (i : ℕ) {l : Label}
    → get_elem? ls i ≡ some l
    → (j : ℕ) × (find_last l.name ls ≡ some j) × (i ≤ j)
unfolding find_last
find_last-ge [] i e = cc
find_last-ge (m ∷ ls) zero {l} e = elim (Option-cases (find_last l.name ls)) [
  | inr (j, f) ↦ (suc j, rw (f, find_last) refl, omega arith)
  | inl n ↦
      let same : m.name ≡ l.name = ground arith in
      (0, rw (n, find_last, same, bytes_eq_refl l.name) refl, omega arith)
]
find_last-ge (m ∷ ls) (suc i) {l} e =
    let (j, f, h) = find_last-ge ls i e in (suc j, rw (f, find_last) refl, omega arith)

-- The fuel is enough where `n` labels are left to go through from the label that is found.
abbrev IsEnough : ℕ → ℕ → Option ℕ → Type 0
IsEnough n fuel none = Unit
IsEnough n fuel (some j) = n < fuel + j

IsBehind-IsEnough :
    (n fuel i : ℕ) (o : Option ℕ) → n < suc fuel + i → IsBehind i o → IsEnough n fuel o
IsBehind-IsEnough n fuel i none h k = tt
IsBehind-IsEnough n fuel i (some j) h k = omega arith

module _ {script : DialogScript} {u : CompilationUnit} (playable : IsPlayable u)
    (forward : IsForward u) where
  running-Returns :
      (go : Go script) (i : ℕ) (p : Player script)
      → GoIsSafe ⊥ u (LeadsOn u i) go
      → IsWf u p
      → p.label ≡ some i
      → Returns (Rests u) (running go p)
  running-Returns go i p safe w e =
      let h : i < length u.labels = subst (InRange u) e w.in_range in
      let (l, at, can) = label_at u i h playable in
      let to = AreForward-get u 0 u.labels i i (omega arith) forward at in
      running-Rests ⊥ (LeadsOn u i) i l at can to
        (λ m next.
          let (j, f, k) = find_last-ge u.labels (suc i) next in
          subst (IsBehind i) (sym f) (omega arith))
        go safe p w e

  select_label-Returns_enough :
      (fuel : ℕ) (name : Bytes) (p : Player script)
      → p.compilation_unit ≡ some u
      → 0 < fuel
      → IsEnough (length u.labels) fuel (find_last name u.labels)
      → Returns (Rests u) (select_label fuel name p)
  unfolding select_label
  select_label-Returns_enough zero name p w f h = absurd (omega arith)
  select_label-Returns_enough (suc fuel) name p w f h =
      elim (Option-cases (find_last name u.labels)) [
        | inl n ↦ rw (w, select_label, n) (select_found-Rests-none ⊥ (select_label fuel) p w)
        | inr (i, n) ↦
            let lt = find_last-lt name u.labels n in
            let left : length u.labels < suc fuel + i =
              subst (IsEnough (length u.labels) (suc fuel)) n h in
            rw (w, select_label, n)
              (select_found-Rests ⊥ (select_label fuel) i p w lt λ q w' e.
                running-Returns (select_label fuel) i q
                  (λ name' behind r v.
                    select_label-Returns_enough fuel name' r v.has_unit (omega arith)
                      (IsBehind-IsEnough (length u.labels) fuel i _ left behind))
                  w' e)
      ]

  -- In a script that can be played and whose gotos lead to later labels, `selectLabel` returns, with
  -- the player at rest, once its fuel is more than the number of labels, whatever the name and
  -- wherever the choices lead.
  pub select_label-Returns :
      (fuel : ℕ) (name : Bytes) (p : Player script)
      → length u.labels < fuel
      → p.compilation_unit ≡ some u
      → Returns (Rests u) (select_label fuel name p)
  select_label-Returns fuel name p h w =
      select_label-Returns_enough fuel name p w (omega arith)
        (elim (Option-cases (find_last name u.labels)) [
          | inl n ↦ subst (IsEnough (length u.labels) fuel) (sym n) tt
          | inr (i, n) ↦ subst (IsEnough (length u.labels) fuel) (sym n) (omega arith)
        ])

  pub running-Returns_fuel :
      (fuel : ℕ) (p : Player script)
      → length u.labels < fuel
      → IsWf u p
      → Returns (Rests u) (running (select_label fuel) p)
  running-Returns_fuel fuel p h w = elim (Option-cases p.label) [
    | inl e ↦ running-Rests-none ⊥ (select_label fuel) p w e
    | inr (i, e) ↦
        running-Returns (select_label fuel) i p
          (λ name _ q v. select_label-Returns fuel name q h v.has_unit) w e
  ]
