-- ===== src/Dialog/Player/Calls.antt =====
-- The calls that the game makes on the player, in any order.
use engge.Base.{
  ℕ, suc, ◌≡◌, refl, sym, ap, subst, ◌∙◌, inl, inr, true, Option, none, some, List, [], ◌∷◌, ◌++◌,
  Bytes, ◌==◌, length, ◌<◌, codes, any, All, arith, Bool-cases, Option-cases,
}
use engge.Base.Outcome.{Outcome, done, fault, unfinished, ◌>>=◌, Meets, Safe, Returns, Meets-bind}
use engge.Dialog.Ast.{Statement, CompilationUnit}
use engge.Dialog.Script.{DialogScript}
use engge.Dialog.States.{DialogPlayerState, DialogSelectMode, state_is}
use engge.Dialog.Player.State.{Player}
use engge.Dialog.Player.Memory.{record_states}
use engge.Dialog.Player.Frame.{SameButMemory, record_states-SameButMemory}
use engge.Dialog.Player.Choices.{choices_ready, is_set}
use engge.Dialog.Player.Loop.{running}
use engge.Dialog.Player.Flow.{
  nth_choice, poll, update_in, select_label, update, start, choose_statement, choose,
}
use engge.Dialog.Player.Playable.{IsPlayable, HoldsChoice, IsWf, Rests, SameButMemory-IsWf}
use engge.Dialog.Player.Forward.{IsForward, select_label-Returns, running-Returns_fuel}
use engge.Dialog.Player.Safety.{select_label-Rests, running-Rests_fuel}

-- What holds between two calls.
pub record IsReady {script : DialogScript} (u : CompilationUnit) (p : Player script) : Type 0 where
  pub wf : IsWf u p
  pub offers : p.state ≡ DialogPlayerState.waiting_for_choice → choices_ready p ≡ true

pub data Call : Type 0 where
  chooses : (choice_id : ℕ) → Call
  updates : Call

nth_choice-HoldsChoice :
    (n i : ℕ) (cs : List (Option Statement)) {st : Statement}
    → All HoldsChoice cs
    → nth_choice n i cs ≡ some st
    → HoldsChoice (some st)
unfolding nth_choice
nth_choice-HoldsChoice n i [] h e = cc
nth_choice-HoldsChoice n i (none ∷ cs) h e = nth_choice-HoldsChoice n i cs h.1 e
nth_choice-HoldsChoice n i (some c ∷ cs) h e = elim (Bool-cases (i == n)) [
  | inl hit ↦ subst HoldsChoice (rw hit at e) h.0
  | inr miss ↦ nth_choice-HoldsChoice n (suc i) cs h.1 (rw miss at e)
]

module _ {script : DialogScript} where
  unfoldable pub make : ℕ → Call → Player script → Outcome (Player script)
  make fuel (chooses choice_id) p = choose fuel choice_id p
  make fuel updates p = update fuel p

  unfoldable pub make_all : ℕ → List Call → Player script → Outcome (Player script)
  unfolding make
  make_all fuel [] p = done p
  make_all fuel (c ∷ cs) p = make fuel c p >>= λ q. make_all fuel cs q

module _ {script : DialogScript} where
  poll-SameButMemory : (p : Player script) → SameButMemory p (poll p).1
  unfolding poll
  poll-SameButMemory p = elim (Option-cases p.wait_action) [
    | inl e ↦ rw (e, poll) (ground arith)
    | inr (a, e) ↦ rw (e, poll) (ground arith)
  ]

module _ {script : DialogScript} (u : CompilationUnit) where
  Rests-IsReady :
      (T : Type 0) (o : Outcome (Player script)) → Meets T (Rests u) o → Meets T (IsReady u) o
  Rests-IsReady T (done p) (w, h) = record { wf = w; offers = λ e. ground arith }
  Rests-IsReady T fault h = h
  Rests-IsReady T unfinished h = h

-- What the calls need of `selectLabel` and of `running`, with the fuel that they are given.
pub record IsFuel (script : DialogScript) (T : Type 0) (u : CompilationUnit) (fuel : ℕ)
    : Type 0 where
  pub selects :
      (name : Bytes) (p : Player script)
      → p.compilation_unit ≡ some u
      → Meets T (Rests u) (select_label fuel name p)
  pub runs : (p : Player script) → IsWf u p → Meets T (Rests u) (running (select_label fuel) p)

module _ {script : DialogScript} {u : CompilationUnit} where
  pub SameButMemory-IsReady : {p q : Player script} → SameButMemory p q → IsReady u p → IsReady u q
  SameButMemory-IsReady {p} {q} s r = record {
    wf = SameButMemory-IsWf s r.wf;
    offers = λ e. ap (any is_set) s.choices ∙ r.offers (sym s.state ∙ e);
  }

module _ {script : DialogScript} (T : Type 0) {u : CompilationUnit} (fuel : ℕ)
    (enough : IsFuel script T u fuel) where
  update_in-IsReady :
      (s : DialogPlayerState) (p : Player script)
      → IsReady u p
      → Meets T (IsReady u) (update_in (select_label fuel) s p)
  unfolding update_in
  update_in-IsReady DialogPlayerState.start p r = Rests-IsReady u T _ (enough.runs p r.wf)
  update_in-IsReady DialogPlayerState.running p r = Rests-IsReady u T _ (enough.runs p r.wf)
  update_in-IsReady DialogPlayerState.waiting_for_saying_choice p r =
      let q = SameButMemory-IsReady (poll-SameButMemory p) r in
      elim (Bool-cases (poll p).0) [
        | inl over ↦ rw over (Rests-IsReady u T _ (enough.selects _ _ q.wf.has_unit))
        | inr more ↦ rw more q
      ]
  update_in-IsReady DialogPlayerState.waiting_end_animation p r =
      let q = SameButMemory-IsReady (poll-SameButMemory p) r in
      elim (Bool-cases (poll p).0) [
        | inl over ↦ rw over (record {
          wf = record {
            has_unit = q.wf.has_unit;
            nine = q.wf.nine;
            held = q.wf.held;
            in_range = q.wf.in_range;
          };
          offers = λ e. cc;
        })
        | inr more ↦ rw more q
      ]
  update_in-IsReady _ p r = r

  choose_statement-IsReady :
      (st : Statement) (p : Player script)
      → HoldsChoice (some st)
      → IsReady u p
      → Meets T (IsReady u) (choose_statement fuel st p)
  unfolding choose_statement
  choose_statement-IsReady st p ((n, t, name), e) r =
      let same = record_states-SameButMemory DialogSelectMode.choose st.conditions p in
      let q = SameButMemory-IsReady same r in
      rw (e, choose_statement)
        (elim (Bool-cases (record_states DialogSelectMode.choose st.conditions p).parrot_on) [
          | inl parrot ↦ rw parrot (record {
            wf = record {
              has_unit = q.wf.has_unit;
              nine = q.wf.nine;
              held = q.wf.held;
              in_range = q.wf.in_range;
            };
            offers = λ e'. cc;
          })
          | inr silent ↦ rw silent (Rests-IsReady u T _ (enough.selects name _ q.wf.has_unit))
        ])

  choose-IsReady :
      (choice_id : ℕ) (p : Player script)
      → IsReady u p
      → Meets T (IsReady u) (choose fuel choice_id p)
  unfolding choose
  choose-IsReady choice_id p r =
      elim (Bool-cases (state_is p.state DialogPlayerState.waiting_for_choice)) [
        | inr other ↦ rw other r
        | inl waits ↦ rw waits (elim (Option-cases (nth_choice choice_id 1 p.choices)) [
          | inl e ↦ rw e r
          | inr (st, e) ↦ rw e (
              choose_statement-IsReady st p
                (nth_choice-HoldsChoice choice_id 1 p.choices r.wf.held e) r)
        ])
      ]

  pub make-IsReady :
      (c : Call) (p : Player script) → IsReady u p → Meets T (IsReady u) (make fuel c p)
  unfolding make update
  make-IsReady (chooses n) p r = choose-IsReady n p r
  make-IsReady updates p r = update_in-IsReady p.state p r

  make_all-IsReady :
      (cs : List Call) (p : Player script) → IsReady u p → Meets T (IsReady u) (make_all fuel cs p)
  unfolding make_all
  make_all-IsReady [] p r = r
  make_all-IsReady (c ∷ cs) p r =
      Meets-bind T (IsReady u) (IsReady u) (make fuel c p) _ (make-IsReady c p r)
        (λ q. make_all-IsReady cs q)

  start-IsReady :
      (load : Bytes → Outcome CompilationUnit) (actor name node : Bytes) (cs : List Call)
      (p : Player script)
      → load (name ++ codes ".byack") ≡ done u
      → Meets T (IsReady u) (start fuel load actor name node p >>= make_all fuel cs)
  unfolding start
  start-IsReady load actor name node cs p e =
      rw (e, start)
        (Meets-bind T (IsReady u) (IsReady u) _ (make_all fuel cs)
          (Rests-IsReady u T _ (enough.selects node _ refl)) (make_all-IsReady cs))

module _ {script : DialogScript} {u : CompilationUnit} (playable : IsPlayable u) where
  -- A dialog that can be played, in which no expression is null and the choices have numbers from 1 to
  -- 9, is started from any player, and then the game calls `update` and `choose` in any order, with
  -- any numbers: no call faults, and whenever they return the pointers of the player are null or in
  -- range, its slots hold choices only, and if it waits for a choice then it has one to offer.
  pub start-make_all-IsReady :
      (fuel : ℕ) (load : Bytes → Outcome CompilationUnit) (actor name node : Bytes) (cs : List Call)
      (p : Player script)
      → load (name ++ codes ".byack") ≡ done u
      → Safe (IsReady u) (start fuel load actor name node p >>= make_all fuel cs)
  start-make_all-IsReady fuel = start-IsReady Unit fuel (record {
    selects = select_label-Rests playable fuel;
    runs = running-Rests_fuel playable fuel;
  })

  -- If no expression of the dialog is null, its choices have numbers from 1 to 9, its gotos lead to
  -- later labels, and the fuel is more than the number of its labels, then `start` and all the calls of `update` and `choose` behind it return, in any order
  -- and with any numbers, and the player that they return has its pointers null or in range, holds
  -- choices only in its slots, and has one to offer if it waits for a choice.
  pub start-make_all-Returns :
      (fuel : ℕ) (load : Bytes → Outcome CompilationUnit) (actor name node : Bytes) (cs : List Call)
      (p : Player script)
      → IsForward u
      → length u.labels < fuel
      → load (name ++ codes ".byack") ≡ done u
      → Returns (IsReady u) (start fuel load actor name node p >>= make_all fuel cs)
  start-make_all-Returns fuel load actor name node cs p forward h =
      start-IsReady ⊥ fuel
        (record {
          selects = λ label q. select_label-Returns playable forward fuel label q h;
          runs = λ q. running-Returns_fuel playable forward fuel q h;
        })
        load actor name node cs p
