-- ===== src/Dialog/Player/Rounds.antt =====
-- One round of the loop in `running`, with the visitor and `goToNextLabel` under it.
use engge.Base.{
  ℕ, suc, ◌≡◌, refl, ap, ◌∙◌, ◌⊎◌, inl, inr, Option, none, some, Bytes, length, get_elem?, arith,
  Bool-cases, Option-cases,
}
use engge.Base.Outcome.{done, ◌>>=◌, Meets, Meets-bind}
use engge.Dialog.Ast.{ℤ, Expression, goto, Statement, Label, CompilationUnit}
use engge.Dialog.Script.{DialogScript}
use engge.Dialog.States.{DialogPlayerState, state_is}
use engge.Dialog.Player.State.{Player}
use engge.Dialog.Player.Memory.{accept_conditions}
use engge.Dialog.Player.Frame.{accept_conditions-SameButMemory}
use engge.Dialog.Player.Choices.{choices_ready, add_choice}
use engge.Dialog.Player.Visit.{Go, visit, after_visit, run_expression, run}
use engge.Dialog.Player.Loop.{
  Round, again, leave, as_choice, end_dialog, goto_next_label, goto_label_after, statement_count,
  next_statement, end_round, after_run, play, round, after_loop,
}
use engge.Dialog.Player.Playable.{
  CanPlay, GoesTo, IsWf, IsSettled, Rests, state_is-eq, IsSettled-not_running, SameButMemory-IsWf,
  statements_of-some, add_choice-IsWf,
}

module _ {script : DialogScript} (T : Type 0) (u : CompilationUnit) where
  -- A call of `selectLabel` that is safe for the labels that are led to.
  abbrev pub GoIsSafe : (Bytes → Type 0) → Go script → Type 0
  GoIsSafe Leads go =
      (name : Bytes) → Leads name → (p : Player script) → IsWf u p → Meets T (Rests u) (go name p)

module _ {script : DialogScript} (u : CompilationUnit) (i : ℕ) where
  -- Within the loop of `running`, at the label `i` and the statement `c`.
  abbrev pub Plays : ℕ → Player script → Type 0
  Plays c p =
      IsWf u p
      × (IsSettled p
          ⊎ ((p.state ≡ DialogPlayerState.running)
              × (p.label ≡ some i)
              × (p.current_statement ≡ c)))

  abbrev PlaysAfter : ℕ → Option (DialogScript.Action script) × Player script → Type 0
  PlaysAfter c r = Plays c r.1

  -- What a round of the loop hands on: the count is that of the label that is played.
  abbrev pub RoundRests : ℕ → ℕ → Round script → Type 0
  RoundRests n c (again count p) =
      Plays (suc c) p × (p.state ≡ DialogPlayerState.running → count ≡ n)
  RoundRests n c (leave p) = Rests u p

module _ {script : DialogScript} (T : Type 0) {u : CompilationUnit} (Leads : Bytes → Type 0) (i : ℕ)
    (go : Go script) (safe : GoIsSafe T u Leads go)
    (next : (l : Label) → get_elem? u.labels (suc i) ≡ some l → Leads l.name) where
  visit-Plays :
      (e : Expression) (p : Player script) (c : ℕ)
      → GoesTo Leads (some e)
      → IsWf u p
      → p.state ≡ DialogPlayerState.running
      → p.label ≡ some i
      → p.current_statement ≡ c
      → Meets T (PlaysAfter u i c) (visit go e p)
  unfolding visit
  visit-Plays (goto name) p c g w s l k =
      Meets-bind T (Rests u) (PlaysAfter u i c) (go name p) _ (safe name g p w)
        (λ q h. (h.0, inl h.1))
  visit-Plays _ p c g w s l k = (
    record { has_unit = w.has_unit; nine = w.nine; held = w.held; in_range = w.in_range },
    inr (s, l, k),
  )

  after_visit-Plays :
      (c : ℕ) (a : Option (DialogScript.Action script)) (p : Player script)
      → Plays u i c p
      → Plays u i c (after_visit (a, p))
  unfolding after_visit
  after_visit-Plays c none p (w, h) =
      (record { has_unit = w.has_unit; nine = w.nine; held = w.held; in_range = w.in_range }, h)
  after_visit-Plays c (some a) p (w, h) = (
    record { has_unit = w.has_unit; nine = w.nine; held = w.held; in_range = w.in_range },
    inl (inr (inr refl)),
  )

  run_expression-Plays :
      (e : Option Expression) (p : Player script) (c : ℕ)
      → CanPlay e
      → GoesTo Leads e
      → IsWf u p
      → p.state ≡ DialogPlayerState.running
      → p.label ≡ some i
      → p.current_statement ≡ c
      → Meets T (Plays u i c) (run_expression go e p)
  unfolding run_expression
  run_expression-Plays none p c can g w s l k = absurd can
  run_expression-Plays (some e) p c can g w s l k =
      Meets-bind T (PlaysAfter u i c) (Plays u i c) (visit go e p) _ (visit-Plays e p c g w s l k)
        (λ r h. after_visit-Plays c r.0 r.1 h)

  run-Plays :
      (st : Statement) (p : Player script) (c : ℕ)
      → CanPlay st.expression
      → GoesTo Leads st.expression
      → IsWf u p
      → p.state ≡ DialogPlayerState.running
      → p.label ≡ some i
      → p.current_statement ≡ c
      → Meets T (Plays u i c) (run go st p)
  unfolding run
  run-Plays st p c can g w s l k =
      let same = accept_conditions-SameButMemory st p in
      let w' = SameButMemory-IsWf same w in
      let s' = same.state ∙ s in
      let l' = same.label ∙ l in
      let k' = same.current_statement ∙ k in
      elim (Bool-cases (accept_conditions st p).0) [
        | inl e ↦ rw (e, run) (run_expression-Plays st.expression _ c can g w' s' l' k')
        | inr e ↦ rw (e, run) (w', inr (s', l', k'))
      ]

  goto_label_after-Rests :
      (p : Player script) → IsWf u p → Meets T (Rests u) (goto_label_after go i u p)
  unfolding goto_label_after end_dialog
  goto_label_after-Rests p w = elim (Option-cases (get_elem? u.labels (suc i))) [
    | inl e ↦
        rw (e, goto_label_after)
          (record { has_unit = w.has_unit; nine = w.nine; held = w.held; in_range = tt }, inl refl)
    | inr (l, e) ↦ rw (e, goto_label_after) (safe l.name (next l e) p w)
  ]

  pub goto_next_label-Rests :
      (p : Player script) → IsWf u p → p.label ≡ some i → Meets T (Rests u) (goto_next_label go p)
  unfolding goto_next_label
  goto_next_label-Rests p w e = rw (w.has_unit, e, goto_next_label) (goto_label_after-Rests p w)

  pub after_loop-Rests :
      (c : ℕ) (p : Player script) → Plays u i c p → Meets T (Rests u) (after_loop go p)
  unfolding after_loop
  after_loop-Rests c p (w, h) = elim (Bool-cases (choices_ready p)) [
    | inl ready ↦ rw ready (
      record { has_unit = w.has_unit; nine = w.nine; held = w.held; in_range = w.in_range },
      inr (inl (refl, ready)),
    )
    | inr empty ↦ rw empty (elim (Bool-cases (state_is p.state DialogPlayerState.running)) [
      | inl e ↦ rw e (elim h [
        | inl s ↦ absurd (IsSettled-not_running p s (state_is-eq _ _ e))
        | inr (s, l, k) ↦ goto_next_label-Rests p w l
      ])
      | inr e ↦ rw e (w, elim h [ inl s ↦ s | inr (s, l, k) ↦ ground arith ])
    ])
  ]

  statement_count-Meets :
      (l : Label) (c : ℕ) (p : Player script)
      → get_elem? u.labels i ≡ some l
      → Plays u i c p
      → Meets T
          (λ count. p.state ≡ DialogPlayerState.running → count ≡ length l.statements)
          (statement_count p)
  unfolding statement_count
  statement_count-Meets l c p g (w, inl h) = elim (Option-cases p.label) [
    | inl e ↦ rw (e, statement_count) (λ r. absurd (IsSettled-not_running p h r))
    | inr (j, e) ↦
        let (_, _, f) = statements_of-some p j w e in
        rw (e, f, statement_count) (λ r. absurd (IsSettled-not_running p h r))
  ]
  statement_count-Meets l c p g (w, inr (r, e, k)) =
      let (l', g', f) = statements_of-some p i w e in rw (e, f, statement_count) (λ _. ground arith)

  end_round-RoundRests :
      (n c count : ℕ) (p : Player script)
      → Plays u i c p
      → (p.state ≡ DialogPlayerState.running → count ≡ n)
      → RoundRests u i n c (end_round count p)
  unfolding end_round
  end_round-RoundRests n c count p (w, h) k =
      elim (Bool-cases (state_is p.state DialogPlayerState.waiting_end_animation)) [
        | inl e ↦ rw e ((w, inl (inr (inr (state_is-eq _ _ e)))), k)
        | inr e ↦ rw e (
          (
            record { has_unit = w.has_unit; nine = w.nine; held = w.held; in_range = w.in_range },
            elim h [ inl s ↦ inl s | inr (s, l, m) ↦ inr (s, l, ap suc m) ],
          ),
          k,
        )
      ]

  after_run-RoundRests :
      (l : Label) (c : ℕ) (p : Player script)
      → get_elem? u.labels i ≡ some l
      → Plays u i c p
      → Meets T (RoundRests u i (length l.statements) c) (after_run p)
  unfolding after_run
  after_run-RoundRests l c p g h =
      Meets-bind T _ (RoundRests u i (length l.statements) c) (statement_count p) _
        (statement_count-Meets l c p g h)
        (λ count. end_round-RoundRests (length l.statements) c count p h)

  play-RoundRests :
      (l : Label) (st : Statement) (c : ℕ) (p : Player script)
      → get_elem? u.labels i ≡ some l
      → CanPlay st.expression
      → GoesTo Leads st.expression
      → IsWf u p
      → p.state ≡ DialogPlayerState.running
      → p.label ≡ some i
      → p.current_statement ≡ c
      → Meets T (RoundRests u i (length l.statements) c) (play go st p)
  unfolding play
  play-RoundRests l st c p g can to w s e k = elim (Bool-cases (choices_ready p)) [
    | inl ready ↦ rw ready (
      record { has_unit = w.has_unit; nine = w.nine; held = w.held; in_range = w.in_range },
      inr (inl (refl, ready)),
    )
    | inr empty ↦ rw empty (
        Meets-bind T (Plays u i c) (RoundRests u i (length l.statements) c) (run go st p) after_run
          (run-Plays st p c can to w s e k) (λ q. after_run-RoundRests l c q g))
  ]

  -- A choice is offered.
  offer-RoundRests :
      (l : Label) (st : Statement) (a : ℤ × Bytes × Bytes) (c : ℕ) (p : Player script)
      → CanPlay st.expression
      → as_choice st.expression ≡ some a
      → IsWf u p
      → p.state ≡ DialogPlayerState.running
      → p.label ≡ some i
      → p.current_statement ≡ c
      → Meets T
          (RoundRests u i (length l.statements) c)
          (add_choice st a.0 p >>= λ r. done (again (length l.statements) (next_statement r)))
  offer-RoundRests l st (number, text, name) c p can a w s e k =
      Meets-bind T _ (RoundRests u i (length l.statements) c) (add_choice st number p) _
        (add_choice-IsWf T st number text name p w a can)
        λ q h. (
          (
            record {
              has_unit = h.0.has_unit;
              nine = h.0.nine;
              held = h.0.held;
              in_range = h.0.in_range;
            },
            inr (h.1 ∙ s, h.2 ∙ e, ap suc (h.3 ∙ k)),
          ),
          λ _. refl,
        )

  pub round-RoundRests :
      (l : Label) (st : Statement) (c : ℕ) (p : Player script)
      → get_elem? u.labels i ≡ some l
      → CanPlay st.expression
      → GoesTo Leads st.expression
      → IsWf u p
      → p.state ≡ DialogPlayerState.running
      → p.label ≡ some i
      → p.current_statement ≡ c
      → Meets T (RoundRests u i (length l.statements) c) (round go (length l.statements) st p)
  unfolding round
  round-RoundRests l st c p g can to w s e k =
      let same = accept_conditions-SameButMemory st p in
      let w' = SameButMemory-IsWf same w in
      let s' = same.state ∙ s in
      let e' = same.label ∙ e in
      let k' = same.current_statement ∙ k in
      elim (Bool-cases (accept_conditions st p).0) [
        | inr refused ↦
            rw (refused, round)
              (
                (
                  record {
                    has_unit = w'.has_unit;
                    nine = w'.nine;
                    held = w'.held;
                    in_range = w'.in_range;
                  },
                  inr (s', e', ap suc k'),
                ),
                λ _. refl,
              )
        | inl accepted ↦
            rw (accepted, round)
              (elim (Option-cases (as_choice st.expression)) [
                | inl a ↦ rw (a) (play-RoundRests l st c _ g can to w' s' e' k')
                | inr (o, a) ↦ rw (a) (offer-RoundRests l st o c _ can a w' s' e' k')
              ])
      ]
