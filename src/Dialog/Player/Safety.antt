-- ===== src/Dialog/Player/Safety.antt =====
-- `selectLabel`, on scripts that can be played.
use engge.Base.{
  ℕ, zero, suc, ◌<◌, ◌≡◌, inl, inr, Option, none, some, Bytes, length, get_elem?, All, All-get,
  subst, [], ◌∷◌, List, get_elem?-lt, Option-cases,
}
use engge.Base.Outcome.{Safe}
use engge.Dialog.Ast.{Expression, goto, Statement, Label, CompilationUnit}
use engge.Dialog.Script.{DialogScript}
use engge.Dialog.Player.State.{Player}
use engge.Dialog.Player.Visit.{Go}
use engge.Dialog.Player.Loop.{running}
use engge.Dialog.Player.Flow.{find_last, select_label}
use engge.Dialog.Player.Playable.{CanPlay, GoesTo, IsPlayable, InRange, IsWf, Rests, find_last-lt}
use engge.Dialog.Player.Running.{
  running-Rests, running-Rests-none, select_found-Rests, select_found-Rests-none,
}
use engge.Dialog.Player.Rounds.{GoIsSafe}

-- Every statement of the label that is reached meets what holds of all statements.
pub label_at :
    (u : CompilationUnit) (i : ℕ)
    → i < length u.labels
    → IsPlayable u
    → (l : Label) × (get_elem? u.labels i ≡ some l) × All (λ st. CanPlay st.expression) l.statements
label_at u i h playable =
    let (l, g) = get_elem?-lt u.labels i h in (l, g, All-get _ u.labels i playable g)

GoesTo-any : (e : Option Expression) → GoesTo (λ _. Unit) e
GoesTo-any none = tt
GoesTo-any (some (goto name)) = tt
GoesTo-any (some _) = tt

All-GoesTo : (sts : List Statement) → All (λ st. GoesTo (λ _. Unit) st.expression) sts
All-GoesTo [] = tt
All-GoesTo (st ∷ sts) = (GoesTo-any st.expression, All-GoesTo sts)

module _ {script : DialogScript} {u : CompilationUnit} (playable : IsPlayable u) where
  running-Rests_any :
      (go : Go script) (i : ℕ) (p : Player script)
      → GoIsSafe Unit u (λ _. Unit) go
      → IsWf u p
      → p.label ≡ some i
      → Safe (Rests u) (running go p)
  running-Rests_any go i p safe w e =
      let h : i < length u.labels = subst (InRange u) e w.in_range in
      let (l, at, can) = label_at u i h playable in
      running-Rests Unit (λ _. Unit) i l at can (All-GoesTo l.statements) (λ _ _. tt) go safe p w e

  -- In a script that can be played, from any player, `selectLabel` faults nowhere. If it returns, the
  -- pointers of the player are null or in range, its slots hold choices only, and it is at rest: the
  -- dialog is over, or it waits for an animation, or it waits for a choice and has one to offer.
  pub select_label-Rests :
      (fuel : ℕ) (name : Bytes) (p : Player script)
      → p.compilation_unit ≡ some u
      → Safe (Rests u) (select_label fuel name p)
  unfolding select_label
  select_label-Rests zero name p w = tt
  select_label-Rests (suc fuel) name p w = elim (Option-cases (find_last name u.labels)) [
    | inl n ↦ rw (w, select_label, n) (select_found-Rests-none Unit (select_label fuel) p w)
    | inr (i, n) ↦
        rw (w, select_label, n)
          (select_found-Rests Unit (select_label fuel) i p w (find_last-lt name u.labels n)
            λ q w' e.
              running-Rests_any (select_label fuel) i q
                (λ name' _ r v. select_label-Rests fuel name' r v.has_unit) w' e)
  ]

  pub running-Rests_fuel :
      (fuel : ℕ) (p : Player script) → IsWf u p → Safe (Rests u) (running (select_label fuel) p)
  running-Rests_fuel fuel p w = elim (Option-cases p.label) [
    | inl e ↦ running-Rests-none Unit (select_label fuel) p w e
    | inr (i, e) ↦
        running-Rests_any (select_label fuel) i p
          (λ name _ q v. select_label-Rests fuel name q v.has_unit) w e
  ]
