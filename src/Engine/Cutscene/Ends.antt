-- ===== src/Engine/Cutscene/Ends.antt =====
-- The calls on a cutscene, in any order, and how it ends.
use engge.Base.{
  ℕ, suc, ◌+◌, ◌≤◌, ◌≡◌, refl, ap, ◌∙◌, inl, inr, ◌⊎◌, Bool, true, List, [], ◌∷◌, ◌++◌, ◌==◌,
  if◌then◌else◌, arith,
}
use engge.Engine.ThreadBase.{Squirrel, ThreadBase, stop, is_stopped, suspend, pause, resume}
use engge.Engine.Cutscene.{
  Event, set_input_state, Cutscene, new_cutscene, cutscene_override, is_elapsed, start_cutscene,
  check_end, do_cutscene_override, end_events, tick,
}

-- What is called on a cutscene; between the calls its machine may go on to any state.
pub data Call (machine : Squirrel) : Type 0 where
  ticks overrides stops suspends pauses resumes : Call machine
  goes_on : (vm : Squirrel.Vm machine) → Call machine

module _ {machine : Squirrel} where
  abbrev on_thread :
      (ThreadBase machine → ThreadBase machine) → Cutscene machine → Cutscene machine × List Event
  on_thread f c = (record c { thread = f c.thread }, [])

  unfoldable pub make : Call machine → Cutscene machine → Cutscene machine × List Event
  unfolding tick
  make ticks c = tick c
  make overrides c = (cutscene_override c, [])
  make stops c = on_thread stop c
  make suspends c = on_thread suspend c
  make pauses c = on_thread (λ t. (pause t).1) c
  make resumes c = on_thread resume c
  make (goes_on vm) c = on_thread (λ t. record t { vm = vm }) c

  unfoldable pub make_all : List (Call machine) → Cutscene machine → Cutscene machine × List Event
  unfolding make
  make_all [] c = (c, [])
  make_all (x ∷ xs) c = let (d, es) = make x c in let (e, fs) = make_all xs d in (e, es ++ fs)

  abbrev pub count_ticks : List (Call machine) → ℕ
  count_ticks [] = 0
  count_ticks (ticks ∷ xs) = suc (count_ticks xs)
  count_ticks (_ ∷ xs) = count_ticks xs

-- The states that the input is given back to.
abbrev pub restores : List Event → List ℕ
restores [] = []
restores (set_input_state s ∷ es) = s ∷ restores es
restores (_ ∷ es) = restores es

restores-append : (es fs : List Event) → restores (es ++ fs) ≡ restores es ++ restores fs
restores-append [] fs = refl
restores-append (set_input_state s ∷ es) fs = ap (λ l. s ∷ l) (restores-append es fs)
restores-append (_ ∷ es) fs = restores-append es fs

append_assoc : (xs ys zs : List ℕ) → xs ++ (ys ++ zs) ≡ (xs ++ ys) ++ zs
append_assoc [] ys zs = refl
append_assoc (x ∷ xs) ys zs = ap (λ l. x ∷ l) (append_assoc xs ys zs)

module _ {machine : Squirrel} where
  -- What was given back so far.
  abbrev restored : Cutscene machine → List ℕ
  restored c = if c.state == 5 then c.input_state ∷ [] else []

  tick-restored : (c : Cutscene machine) → restored c ++ restores (tick c).1 ≡ restored (tick c).0
  unfolding tick start_cutscene check_end do_cutscene_override end_events
  tick-restored c = ground arith

  make-restored :
      (x : Call machine) (c : Cutscene machine)
      → restored c ++ restores (make x c).1 ≡ restored (make x c).0
  unfolding make cutscene_override
  make-restored ticks c = tick-restored c
  make-restored overrides c = ground arith
  make-restored _ c = ground arith

  make-input_state :
      (x : Call machine) (c : Cutscene machine) → (make x c).0.input_state ≡ c.input_state
  unfolding make tick start_cutscene check_end do_cutscene_override cutscene_override
  make-input_state ticks c = ground arith
  make-input_state overrides c = ground arith
  make-input_state _ c = refl

  make_all-restored :
      (xs : List (Call machine)) (c : Cutscene machine)
      → (restored c ++ restores (make_all xs c).1 ≡ restored (make_all xs c).0)
        × ((make_all xs c).0.input_state ≡ c.input_state)
  unfolding make_all
  make_all-restored [] c = (ground arith, refl)
  make_all-restored (x ∷ xs) c =
      let d = (make x c).0 in
      let (h, k) = make_all-restored xs d in
      (
        ap (λ l. restored c ++ l) (restores-append (make x c).1 (make_all xs d).1)
            ∙ append_assoc (restored c) (restores (make x c).1) (restores (make_all xs d).1)
            ∙ ap (λ l. l ++ restores (make_all xs d).1) (make-restored x c)
            ∙ h,
        k ∙ make-input_state x c,
      )

  -- From its construction on, whatever is called on a cutscene and however its machine goes on, the
  -- input of the engine is given back once the cutscene is over, to the state that it had at the
  -- construction, and just once; before that it is not given back.
  pub make_all-restores :
      (vm : Squirrel.Vm machine) (input_state : ℕ) (has_override : Bool) (xs : List (Call machine))
      → restores (make_all xs (new_cutscene vm input_state has_override).0).1 ≡ (
          if is_elapsed (make_all xs (new_cutscene vm input_state has_override).0).0
          then input_state ∷ []
          else [])
  unfolding new_cutscene is_elapsed
  make_all-restores vm input_state has_override xs =
      let (h, k) = make_all-restored xs (new_cutscene vm input_state has_override).0 in
      let over = is_elapsed (make_all xs (new_cutscene vm input_state has_override).0).0 in
      h ∙ ap (λ s. if over then s ∷ [] else []) k

  -- The cutscene is on its way to the end, once its thread is stopped.
  abbrev Leaves : Cutscene machine → Type 0
  Leaves c = (c.thread.is_stopped_flag ≡ true) × (c.state ≤ 5)

  tick-Leaves :
      (c : Cutscene machine)
      → Leaves c
      → Leaves (tick c).0 × ((suc c.state ≤ (tick c).0.state) ⊎ ((tick c).0.state ≡ 5))
  unfolding tick start_cutscene check_end do_cutscene_override is_stopped
  tick-Leaves c h = ground arith

  make-Leaves :
      (x : Call machine) (c : Cutscene machine)
      → Leaves c
      → Leaves (make x c).0
        × ((c.state + count_ticks (x ∷ []) ≤ (make x c).0.state) ⊎ ((make x c).0.state ≡ 5))
  unfolding make cutscene_override stop suspend pause resume
  make-Leaves ticks c h =
      let (k, e) = tick-Leaves c h in (k, elim e [ inl l ↦ inl (omega arith) | inr r ↦ inr r ])
  make-Leaves overrides c h = ground arith
  make-Leaves stops c h = ground arith
  make-Leaves suspends c h = ground arith
  make-Leaves pauses c h = ground arith
  make-Leaves resumes c h = ground arith
  make-Leaves (goes_on vm) c h = ground arith

  count_ticks-cons :
      (x : Call machine) (xs : List (Call machine))
      → count_ticks (x ∷ xs) ≡ count_ticks (x ∷ []) + count_ticks xs
  count_ticks-cons ticks xs = omega arith
  count_ticks-cons _ xs = omega arith

  -- Once the thread of a cutscene is stopped, the cutscene is over after as many ticks as are left
  -- to 5 from its state, whatever else is called between them and however its machine goes on.
  pub make_all-ends :
      (xs : List (Call machine)) (c : Cutscene machine)
      → c.thread.is_stopped_flag ≡ true
      → c.state ≤ 5
      → 5 ≤ c.state + count_ticks xs
      → is_elapsed (make_all xs c).0 ≡ true
  unfolding make_all is_elapsed
  make_all-ends [] c s h k = ground arith
  make_all-ends (x ∷ xs) c s h k =
      let (l, e) = make-Leaves x c (s, h) in
      make_all-ends xs (make x c).0 l.0 l.1
        (elim e [ inl m ↦ omega (arith, count_ticks-cons x xs) | inr m ↦ omega arith ])
