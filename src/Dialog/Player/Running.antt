-- ===== src/Dialog/Player/Running.antt =====
-- `running` at a label of a script that can be played. What it calls for `selectLabel` is a parameter,
-- and so is what running out of fuel is.
use engge.Base.{
  ℕ, zero, suc, ◌<◌, ◌≡◌, refl, inl, inr, true, ◌&&◌, none, some, Bytes, ltb, ◌==◌, length,
  get_elem?, All, All-get, ◌+◌, get_elem?-lt, arith, Bool-cases,
}
use engge.Base.Outcome.{Outcome, Meets, Meets-bind}
use engge.Dialog.Ast.{Statement, Label, CompilationUnit}
use engge.Dialog.Script.{DialogScript}
use engge.Dialog.States.{DialogPlayerState, state_is}
use engge.Dialog.Player.State.{Player}
use engge.Dialog.Player.Choices.{clear_choices}
use engge.Dialog.Player.Visit.{Go}
use engge.Dialog.Player.Loop.{
  Round, again, leave, statement_at, follow, loop, running_label, running,
}
use engge.Dialog.Player.Flow.{update_in, select_found}
use engge.Dialog.Player.Playable.{
  CanPlay, GoesTo, IsWf, Rests, state_is-eq, IsSettled-not_running, statements_of-some,
}
use engge.Dialog.Player.Rounds.{
  GoIsSafe, Plays, RoundRests, goto_next_label-Rests, after_loop-Rests, round-RoundRests,
}

module _ {script : DialogScript} {u : CompilationUnit} where
  statement_at-some :
      (p : Player script) (i : ℕ) (l : Label)
      → IsWf u p
      → p.label ≡ some i
      → get_elem? u.labels i ≡ some l
      → p.current_statement < length l.statements
      → (st : Statement) × (get_elem? l.statements p.current_statement ≡ some st)
        × (statement_at p ≡ some st)
  unfolding statement_at
  statement_at-some p i l w e g h =
      let (l', g', f) = statements_of-some p i w e in
      let (st, k) = get_elem?-lt l.statements p.current_statement h in
      let same : l'.statements ≡ l.statements = ground arith in
      (st, k, rw (f, same, statement_at) k)

  -- Where the test of the loop holds.
  loop_test :
      (i n c count : ℕ) (p : Player script)
      → Plays u i c p
      → (p.state ≡ DialogPlayerState.running → count ≡ n)
      → (ltb p.current_statement count && state_is p.state DialogPlayerState.running) ≡ true
      → (p.state ≡ DialogPlayerState.running)
        × (p.label ≡ some i)
        × (count ≡ n)
        × (p.current_statement ≡ c)
        × (p.current_statement < n)
  loop_test i n c count p (w, inl h) k e =
      absurd (IsSettled-not_running p h (state_is-eq _ _ (ground arith)))
  loop_test i n c count p (w, inr (s, l, m)) k e = (s, l, k s, m, ground (arith, k s))

-- The label `i` of a script that can be played, whose gotos lead to labels that `go` is safe for.
module _ {script : DialogScript} (T : Type 0) {u : CompilationUnit} (Leads : Bytes → Type 0) (i : ℕ)
    (l : Label) (at : get_elem? u.labels i ≡ some l)
    (can : All (λ st. CanPlay st.expression) l.statements)
    (to : All (λ st. GoesTo Leads st.expression) l.statements)
    (next : (m : Label) → get_elem? u.labels (suc i) ≡ some m → Leads m.name) (go : Go script)
    (safe : GoIsSafe T u Leads go) where
  follow-Rests :
      (step : ℕ → Player script → Outcome (Player script)) (c : ℕ)
      → ((count : ℕ) (p : Player script)
          → Plays u i (suc c) p
          → (p.state ≡ DialogPlayerState.running → count ≡ length l.statements)
          → Meets T (Rests u) (step count p))
      → (r : Round script) → RoundRests u i (length l.statements) c r
      → Meets T (Rests u) (follow step r)
  unfolding follow
  follow-Rests step c k (again count p) h = k count p h.0 h.1
  follow-Rests step c k (leave p) h = h

  loop-Rests :
      (fuel c count : ℕ) (p : Player script)
      → 0 < fuel
      → length l.statements < fuel + c
      → Plays u i c p
      → (p.state ≡ DialogPlayerState.running → count ≡ length l.statements)
      → Meets T (Rests u) (loop go fuel count p)
  unfolding loop
  loop-Rests zero c count p f g h k = absurd (omega arith)
  loop-Rests (suc fuel) c count p f g h k = elim (Bool-cases _) [
    | inr over ↦ rw (over, loop) (after_loop-Rests T Leads i go safe next c p h)
    | inl more ↦
        let (s, e, n, m, lt) = loop_test i (length l.statements) c count p h k more in
        let (st, a, b) = statement_at-some p i l h.0 e at lt in
        let can' = All-get _ l.statements p.current_statement can a in
        let to' = All-get _ l.statements p.current_statement to a in
        rw (more, loop, b)
          (rw n (
            Meets-bind T (RoundRests u i (length l.statements) c) (Rests u) _ _
              (round-RoundRests T Leads i go safe next l st c p at can' to' h.0 s e m)
              (follow-Rests (loop go fuel) c
                (λ count' q. loop-Rests fuel (suc c) count' q (omega arith) (omega arith)))))
  ]

  running_label-Rests :
      (p : Player script)
      → IsWf u p
      → p.label ≡ some i
      → Meets T (Rests u) (running_label go l.statements p)
  unfolding running_label
  running_label-Rests p w e = elim (Bool-cases (p.current_statement == length l.statements)) [
    | inl last ↦ rw last (goto_next_label-Rests T Leads i go safe next p w e)
    | inr more ↦ rw more (
        loop-Rests _ p.current_statement (length l.statements) _ (omega arith) (omega arith)
          (
            record { has_unit = w.has_unit; nine = w.nine; held = w.held; in_range = w.in_range },
            inr (refl, e, refl),
          )
          (λ _. refl))
  ]

  pub running-Rests :
      (p : Player script) → IsWf u p → p.label ≡ some i → Meets T (Rests u) (running go p)
  unfolding running
  running-Rests p w e =
      let (m, g, f) = statements_of-some p i w e in
      let same : m.statements ≡ l.statements = ground arith in
      rw (e, f, running, same) (running_label-Rests p w e)

module _ {script : DialogScript} (T : Type 0) {u : CompilationUnit} where
  pub running-Rests-none :
      (go : Go script) (p : Player script)
      → IsWf u p
      → p.label ≡ none
      → Meets T (Rests u) (running go p)
  unfolding running
  running-Rests-none go p w e =
      rw (e, running)
        (
          record { has_unit = w.has_unit; nine = w.nine; held = w.held; in_range = w.in_range },
          inl refl,
        )

  pub select_found-Rests-none :
      (go : Go script) (p : Player script)
      → p.compilation_unit ≡ some u
      → Meets T (Rests u) (select_found go none p)
  unfolding select_found clear_choices
  select_found-Rests-none go p w =
      (record { has_unit = w; nine = refl; held = omega arith; in_range = tt }, inl refl)

  pub select_found-Rests :
      (go : Go script) (i : ℕ) (p : Player script)
      → p.compilation_unit ≡ some u
      → i < length u.labels
      → ((q : Player script) → IsWf u q → q.label ≡ some i → Meets T (Rests u) (running go q))
      → Meets T (Rests u) (select_found go (some i) p)
  unfolding select_found clear_choices update_in
  select_found-Rests go i p w h k =
      k _ (record { has_unit = w; nine = refl; held = omega arith; in_range = h }) refl
