-- ===== src/Dialog/Player/Playable.antt =====
-- Scripts that can be played, and what the player keeps true of itself while it plays one.
use engge.Base.{
  ℕ, ◌<◌, ◌≡◌, refl, sym, ap, subst, ◌∙◌, ◌⊎◌, inl, inr, true, Option, none, some, List, [], ◌∷◌,
  Bytes, length, get_elem?, All, All-set, get_elem?-lt, length-set, arith, Bool-cases, Option-cases,
}
use engge.Base.Outcome.{Meets}
use engge.Dialog.Ast.{ℤ, Expression, choice, goto, Statement, Label, CompilationUnit}
use engge.Dialog.Script.{DialogScript}
use engge.Dialog.States.{DialogPlayerState, state_is}
use engge.Dialog.Player.State.{Player}
use engge.Dialog.Player.Frame.{SameButMemory}
use engge.Dialog.Player.Choices.{
  choices_ready, slot_of, count_set, reaches, add_choice, add_choice_at,
}
use engge.Dialog.Player.Loop.{as_choice, statements_of}
use engge.Dialog.Player.Flow.{find_last}

-- The statement has an expression, and the number of a choice is that of a slot.
abbrev pub CanPlay : Option Expression → Type 0
CanPlay none = ⊥
CanPlay (some (choice number text name)) = (i : ℕ) × (slot_of number ≡ some i) × (i < 9)
CanPlay (some e) = Unit

-- A label that the expression goes to.
abbrev pub GoesTo : (Bytes → Type 0) → Option Expression → Type 0
GoesTo Leads (some (goto name)) = Leads name
GoesTo Leads e = Unit

abbrev pub IsPlayable : CompilationUnit → Type 0
IsPlayable u = All (λ l. All (λ st. CanPlay st.expression) l.statements) u.labels

abbrev pub HoldsChoice : Option Statement → Type 0
HoldsChoice none = Unit
HoldsChoice (some st) = (c : ℤ × Bytes × Bytes) × (as_choice st.expression ≡ some c)

abbrev pub InRange : CompilationUnit → Option ℕ → Type 0
InRange u none = Unit
InRange u (some i) = i < length u.labels

-- The pointers of the player are null or point into the script, and each slot holds a choice.
pub record IsWf {script : DialogScript} (u : CompilationUnit) (p : Player script) : Type 0 where
  pub has_unit : p.compilation_unit ≡ some u
  pub nine : length p.choices ≡ 9
  pub held : All HoldsChoice p.choices
  pub in_range : InRange u p.label

-- The player waits, or the dialog is over.
abbrev pub IsSettled : {script : DialogScript} → Player script → Type 0
IsSettled p =
    (p.state ≡ DialogPlayerState.inactive)
    ⊎ ((p.state ≡ DialogPlayerState.waiting_for_choice) × (choices_ready p ≡ true))
    ⊎ (p.state ≡ DialogPlayerState.waiting_end_animation)

abbrev pub Rests : {script : DialogScript} → CompilationUnit → Player script → Type 0
Rests u p = IsWf u p × IsSettled p

pub IsSettled-not_running :
    {script : DialogScript} (p : Player script)
    → IsSettled p
    → p.state ≡ DialogPlayerState.running
    → ⊥
IsSettled-not_running p h e = ground arith

pub state_is-eq : (a b : DialogPlayerState) → state_is a b ≡ true → a ≡ b
state_is-eq a b h = ground arith

pub find_last-lt :
    (name : Bytes) (ls : List Label) {i : ℕ} → find_last name ls ≡ some i → i < length ls
unfolding find_last
find_last-lt name [] e = cc
find_last-lt name (l ∷ ls) e = elim (Option-cases (find_last name ls)) [
  | inl n ↦ ground (arith)
  | inr (j, f) ↦ ground (arith, find_last-lt name ls f)
]

as_choice-slot :
    (e : Option Expression) (number : ℤ) (text name : Bytes)
    → as_choice e ≡ some (number, text, name)
    → CanPlay e
    → (i : ℕ) × (slot_of number ≡ some i) × (i < 9)
unfolding as_choice
as_choice-slot (some (choice n t g)) number text name e (i, s, lt) = (i, ap slot_of (cc) ∙ s, lt)
as_choice-slot _ number text name e c = cc

module _ {script : DialogScript} {u : CompilationUnit} where
  pub SameButMemory-IsWf : {p q : Player script} → SameButMemory p q → IsWf u p → IsWf u q
  SameButMemory-IsWf s w = record {
    has_unit = s.compilation_unit ∙ w.has_unit;
    nine = ap length s.choices ∙ w.nine;
    held = subst (All HoldsChoice) (sym s.choices) w.held;
    in_range = subst (InRange u) (sym s.label) w.in_range;
  }

  -- The statements of a label of the script.
  pub statements_of-some :
      (p : Player script) (i : ℕ)
      → IsWf u p
      → p.label ≡ some i
      → (l : Label) × (get_elem? u.labels i ≡ some l) × (statements_of p ≡ some l.statements)
  unfolding statements_of
  statements_of-some p i w e =
      let r : i < length u.labels = subst (InRange u) e w.in_range in
      let (l, g) = get_elem?-lt u.labels i r in (l, g, rw (w.has_unit, e, g, statements_of))

  add_choice_at-IsWf :
      (i : ℕ) (old : Option Statement) (st : Statement) (p : Player script)
      → IsWf u p
      → HoldsChoice (some st)
      → IsWf u (add_choice_at i old st p)
        × ((add_choice_at i old st p).state ≡ p.state)
        × ((add_choice_at i old st p).label ≡ p.label)
        × ((add_choice_at i old st p).current_statement ≡ p.current_statement)
  unfolding add_choice_at
  add_choice_at-IsWf i (some old) st p w h = (w, refl, refl, refl)
  add_choice_at-IsWf i none st p w h =
      elim (Bool-cases (reaches (count_set p.choices) p.choice_limit)) [
        | inl full ↦ rw full (w, refl, refl, refl)
        | inr room ↦ rw room (
          record {
            has_unit = w.has_unit;
            nine = length-set p.choices i (some st) ∙ w.nine;
            held = All-set HoldsChoice p.choices i w.held h;
            in_range = w.in_range;
          },
          refl,
          refl,
          refl,
        )
      ]

  pub add_choice-IsWf :
      (T : Type 0) (st : Statement) (number : ℤ) (text name : Bytes) (p : Player script)
      → IsWf u p
      → as_choice st.expression ≡ some (number, text, name)
      → CanPlay st.expression
      → Meets T
          (λ q.
            IsWf u q
            × (q.state ≡ p.state)
            × (q.label ≡ p.label)
            × (q.current_statement ≡ p.current_statement))
          (add_choice st number p)
  unfolding add_choice
  add_choice-IsWf T st number text name p w e c =
      let (i, s, lt) = as_choice-slot st.expression number text name e c in
      let (old, g) = get_elem?-lt p.choices i (subst (λ (n : ℕ). i < n) (sym w.nine) lt) in
      rw (s, g, add_choice) (add_choice_at-IsWf i old st p w ((number, text, name), e))
