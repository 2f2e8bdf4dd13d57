-- ===== src/Dialog/Manager/Slots.antt =====
-- When the slots show the choices of the player.
use engge.Base.{
  ℕ, suc, ◌≡◌, ◌≢◌, ◌<◌, refl, sym, ap, ◌∙◌, ◌⊎◌, inl, inr, true, false, Option, none, some, List,
  [], ◌∷◌, ◌++◌, Bytes, codes, map, length, All, arith, Bool-cases, Option-cases,
}
use engge.Base.Outcome.{Outcome, done, fault, unfinished, ◌>>=◌, Meets, Returns, Meets-bind}
use engge.Dialog.Ast.{Statement, CompilationUnit}
use engge.Dialog.Script.{DialogScript}
use engge.Dialog.States.{DialogManagerState}
use engge.Dialog.Player.State.{Player}
use engge.Dialog.Player.Flow.{get_state}
use engge.Dialog.Player.Flow
use engge.Dialog.Player.Playable.{IsPlayable, HoldsChoice}
use engge.Dialog.Player.Forward.{IsForward, select_label-Returns, running-Returns_fuel}
use engge.Dialog.Player.Calls.{
  IsReady, updates, make, make_all, start-make_all-Returns, make-IsReady, SameButMemory-IsReady,
}
use engge.Dialog.Manager.{
  DialogUi, DialogSlot, DialogManager, manager_state_is, fill_slot, fill_slots, update_dialog_slots,
  on_ended, after_start, start, slide_slots, update_choices, after_update, update,
}
use engge.Dialog.Manager.Click.{InSync}

Meets-unit :
    {script : DialogScript} (fuel : ℕ) (P : Player script → Type 0) (o : Outcome (Player script))
    → Returns P (o >>= make_all {script = script} fuel [])
    → Returns P o
unfolding make_all
Meets-unit fuel P (done p) h = h
Meets-unit fuel P fault h = h
Meets-unit fuel P unfinished h = h

manager_state_is-eq : (a b : DialogManagerState) → manager_state_is a b ≡ true → a ≡ b
manager_state_is-eq a b h = ground arith

waits_ne :
    (a : DialogManagerState)
    → a ≡ DialogManagerState.waiting_for_choice
    → manager_state_is a DialogManagerState.waiting_for_choice ≡ false
    → ⊥
waits_ne a e h = cc (rw e at h)

state_cases :
    (a : DialogManagerState)
    → (a ≡ DialogManagerState.waiting_for_choice)
      ⊎ ((a ≡ DialogManagerState.inactive) ⊎ (a ≡ DialogManagerState.active))
state_cases DialogManagerState.waiting_for_choice = inl refl
state_cases DialogManagerState.inactive = inr (inl refl)
state_cases DialogManagerState.active = inr (inr refl)

module _ {script : DialogScript} {ui : DialogUi script} where
  -- Slots that show the choices.
  abbrev Shows : List (Option Statement) → List (DialogSlot ui) × DialogScript.World script → Type 0
  Shows cs (slots, w) = map (λ s. s.choice) slots ≡ cs

  length-choices :
      (slots : List (DialogSlot ui)) → length (map (λ s. s.choice) slots) ≡ length slots
  length-choices [] = refl
  length-choices (slot ∷ slots) = ap suc (length-choices slots)

  fill_slot-choice :
      (T : Type 0) (c : Option Statement) (slot : DialogSlot ui) (w : DialogScript.World script)
      → HoldsChoice c
      → Meets T (λ r. r.0.choice ≡ c) (fill_slot c slot w)
  unfolding fill_slot
  fill_slot-choice T none slot w h = refl
  fill_slot-choice T (some st) slot w ((n, t, name), e) = rw (e, fill_slot) refl

  fill_slots-Shows :
      (T : Type 0) (cs : List (Option Statement)) (slots : List (DialogSlot ui))
      (w : DialogScript.World script)
      → All HoldsChoice cs
      → length cs ≡ length slots
      → Meets T (Shows cs) (fill_slots cs slots w)
  unfolding fill_slots
  fill_slots-Shows T [] [] w h k = refl
  fill_slots-Shows T [] (slot ∷ slots) w h k = absurd (omega (arith, k))
  fill_slots-Shows T (c ∷ cs) [] w h k = absurd (omega (arith, k))
  fill_slots-Shows T (c ∷ cs) (slot ∷ slots) w h k =
      Meets-bind T (λ r. r.0.choice ≡ c) (Shows (c ∷ cs)) (fill_slot c slot w) _
        (fill_slot-choice T c slot w h.0)
        (λ (filled, v) e.
          Meets-bind T (Shows cs) (Shows (c ∷ cs)) (fill_slots cs slots v) _
            (fill_slots-Shows T cs slots v h.1 (omega (arith, k))) (λ (rest, u) f. rw (e, f) refl))

  slide_slots-choices :
      (mouse : DialogUi.Mouse ui) (elapsed : DialogUi.TimeSpan ui) (y : DialogUi.Line ui)
      (slots : List (DialogSlot ui))
      → map (λ s. s.choice) (slide_slots mouse elapsed y slots) ≡ map (λ s. s.choice) slots
  unfolding slide_slots
  slide_slots-choices mouse elapsed y [] = refl
  slide_slots-choices mouse elapsed y (slot ∷ slots) = elim (Option-cases slot.choice) [
    | inl e ↦
        rw (e, slide_slots, e) (ap (λ l. none ∷ l) (slide_slots-choices mouse elapsed y slots))
    | inr (st, e) ↦
        rw (e, slide_slots, e)
          (ap (λ l. some st ∷ l)
            (slide_slots-choices mouse elapsed (DialogUi.below ui slot.text slot.pos y) slots))
  ]

  -- Nine slots, and a player between two calls.
  pub record IsIdle (u : CompilationUnit) (m : DialogManager ui) : Type 0 where
    pub ready : IsReady u m.player
    pub nine : length m.slots ≡ 9

  -- The manager after a call: if it waits for a choice, it shows the choices.
  abbrev pub IsShown : CompilationUnit → DialogManager ui → Type 0
  IsShown u m = IsIdle u m × (m.state ≡ DialogManagerState.waiting_for_choice → InSync m)

  update_dialog_slots-IsShown :
      (T : Type 0) (u : CompilationUnit) (m : DialogManager ui)
      → IsIdle u m
      → Meets T (IsShown u) (update_dialog_slots m)
  unfolding update_dialog_slots
  update_dialog_slots-IsShown T u m i =
      Meets-bind T (Shows m.player.choices) (IsShown u)
        (fill_slots m.player.choices m.slots m.player.world) _
        (fill_slots-Shows T m.player.choices m.slots m.player.world i.ready.wf.held
          (i.ready.wf.nine ∙ sym i.nine))
        (λ (slots, w) e. (
          record {
            ready = SameButMemory-IsReady (ground arith) i.ready;
            nine = sym (length-choices slots) ∙ ap length e ∙ i.ready.wf.nine;
          },
          λ k. e,
        ))

  length-slide_slots :
      (mouse : DialogUi.Mouse ui) (elapsed : DialogUi.TimeSpan ui) (y : DialogUi.Line ui)
      (slots : List (DialogSlot ui))
      → length (slide_slots mouse elapsed y slots) ≡ length slots
  length-slide_slots mouse elapsed y slots =
      sym (length-choices (slide_slots mouse elapsed y slots))
      ∙ ap length (slide_slots-choices mouse elapsed y slots)
      ∙ length-choices slots

  update_choices-IsShown :
      (T : Type 0) (u : CompilationUnit) (fuel : ℕ) (elapsed : DialogUi.TimeSpan ui)
      (m : DialogManager ui)
      → IsShown u m
      → Meets T (IsShown u) (update_choices fuel elapsed false m)
  unfolding update_choices
  update_choices-IsShown T u fuel elapsed m (i, h) =
      elim (Bool-cases (manager_state_is m.state DialogManagerState.waiting_for_choice)) [
        | inr e ↦ rw e (i, h)
        | inl e ↦ rw e (
          record {
            ready = i.ready;
            nine = length-slide_slots m.mouse_pos elapsed (DialogUi.top ui) m.slots ∙ i.nine;
          },
          λ k. slide_slots-choices m.mouse_pos elapsed (DialogUi.top ui) m.slots ∙ h k,
        )
      ]

  after_update-IsShown :
      (T : Type 0) (u : CompilationUnit) (m : DialogManager ui) (old : DialogManagerState)
      → IsIdle u m
      → old ≢ DialogManagerState.waiting_for_choice
      → Meets T (IsShown u) (after_update m old)
  unfolding after_update
  after_update-IsShown T u m old i h = elim (Bool-cases (manager_state_is old m.state)) [
    | inl same ↦ rw same (i, λ k. absurd (h (manager_state_is-eq old m.state same ∙ k)))
    | inr changed ↦
        rw changed
          (elim (Bool-cases (manager_state_is m.state DialogManagerState.waiting_for_choice)) [
            | inl e ↦ rw e (update_dialog_slots-IsShown T u m i)
            | inr e ↦ rw e (i, λ k. absurd (waits_ne m.state k e))
          ])
  ]

  after_start-IsShown :
      (T : Type 0) (u : CompilationUnit) (m : DialogManager ui) (old : DialogManagerState)
      → IsIdle u m
      → old ≢ DialogManagerState.waiting_for_choice
      → Meets T (IsShown u) (after_start m old)
  unfolding after_start on_ended
  after_start-IsShown T u m old i h = elim (Bool-cases (manager_state_is old m.state)) [
    | inl same ↦ rw same (i, λ k. absurd (h (manager_state_is-eq old m.state same ∙ k)))
    | inr changed ↦ rw changed (elim (state_cases m.state) [
      | inl e ↦ rw (e, after_start) (update_dialog_slots-IsShown T u m i)
      | inr (inl e) ↦
          rw (e, after_start)
            (
              record { ready = SameButMemory-IsReady (ground arith) i.ready; nine = i.nine },
              λ k. absurd (cc (k, e)),
            )
      | inr (inr e) ↦ rw (e, after_start) (i, λ k. absurd (cc (k, e)))
    ])
  ]

module _ {script : DialogScript} {ui : DialogUi script} {u : CompilationUnit} (fuel : ℕ)
    (playable : IsPlayable u) (forward : IsForward u) (enough : length u.labels < fuel) where
  -- A manager that does not wait for a choice is updated while no button is pressed, between two calls
  -- of its player and with nine slots, in a dialog without null expressions whose choices have numbers
  -- from 1 to 9 and whose gotos lead to later labels, on fuel above the number of its labels: the call returns, and if the manager waits for a
  -- choice then its slots show the choices of the player.
  pub update-IsShown :
      (elapsed : DialogUi.TimeSpan ui) (m : DialogManager ui)
      → IsIdle u m
      → m.state ≢ DialogManagerState.waiting_for_choice
      → Returns (IsShown u) (update fuel elapsed false m)
  unfolding update make
  update-IsShown elapsed m i h =
      let ready =
        make-IsReady ⊥ fuel
          (record {
            selects = λ label q. select_label-Returns playable forward fuel label q enough;
            runs = λ q. running-Returns_fuel playable forward fuel q enough;
          })
          updates m.player i.ready in
      Meets-bind ⊥ (IsReady u) (IsShown u) (Flow.update fuel m.player) _ ready (λ p r.
        Meets-bind ⊥ (IsShown u) (IsShown u)
          (after_update (record m { player = p; state = get_state p }) m.state)
          (update_choices fuel elapsed false)
          (after_update-IsShown ⊥ u (record m { player = p; state = get_state p }) m.state
            (record { ready = r; nine = i.nine }) h)
          (update_choices-IsShown ⊥ u fuel elapsed))

  -- A manager with nine slots that does not wait for a choice starts a dialog that can be played, whose
  -- gotos lead to later labels, on fuel above the number of its labels: the call returns, and if the
  -- manager then waits for a choice, its slots show the choices of the player.
  pub start-IsShown :
      (load : Bytes → Outcome CompilationUnit) (actor name node : Bytes) (m : DialogManager ui)
      → load (name ++ codes ".byack") ≡ done u
      → length m.slots ≡ 9
      → m.state ≢ DialogManagerState.waiting_for_choice
      → Returns (IsShown u) (start fuel load actor name node m)
  unfolding start
  start-IsShown load actor name node m e n h =
      let started =
        start-make_all-Returns playable fuel load actor name node [] m.player forward enough e in
      Meets-bind ⊥ (IsReady u) (IsShown u) (Flow.start fuel load actor name node m.player) _
        (Meets-unit fuel (IsReady u) _ started)
        (λ p r.
          after_start-IsShown ⊥ u (record m { player = p; state = get_state p }) m.state
            (record { ready = r; nine = n }) h)
