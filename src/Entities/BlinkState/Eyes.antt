-- ===== src/Entities/BlinkState/Eyes.antt =====
-- The layer that shows the eyes shut.
use engge.Base.{zero, suc, ◌≡◌, refl, inl, inr, Bool, true, false, ◌&&◌, List, [], ◌∷◌, Bool-cases}
use engge.Dialog.Ast.{ℤ, pos, negsuc}
use engge.Entities.BlinkState.{Clock, BlinkState, set_rate, update_closed, update_open, update}

-- `setRate` or `update`, with a random number.
pub data Call (clock : Clock) : Type 0 where
  sets_rate :
      (random : Clock.Float clock)
      → (min : Clock.Float clock) → (max : Clock.Float clock) → Call clock
  updates : (random : Clock.Float clock) → (e : Clock.TimeSpan clock) → Call clock

-- What the state says of the layer: it is visible in the state 1, not in 0 or -1, and there are no
-- other states.
abbrev pub Shuts : Bool → ℤ → Type 0
Shuts visible (pos zero) = visible ≡ false
Shuts visible (pos (suc zero)) = visible ≡ true
Shuts visible (pos (suc (suc n))) = ⊥
Shuts visible (negsuc zero) = visible ≡ false
Shuts visible (negsuc (suc n)) = ⊥

module _ {clock : Clock} where
  unfoldable pub make : Call clock → BlinkState clock → BlinkState clock
  make (Call.sets_rate random min max) b = set_rate random min max b
  make (Call.updates random e) b = update random e b

  unfoldable pub make_all : List (Call clock) → BlinkState clock → BlinkState clock
  unfolding make
  make_all [] b = b
  make_all (c ∷ cs) b = make_all cs (make c b)

  update-Shuts :
      (random : Clock.Float clock) (e : Clock.TimeSpan clock) (b : BlinkState clock) (s : ℤ)
      → b.state ≡ s
      → Shuts b.blink_visible s
      → Shuts (update random e b).blink_visible (update random e b).state
  unfolding update update_closed update_open
  update-Shuts random e b (pos zero) f h =
      elim (Bool-cases (Clock.greater clock (Clock.plus clock b.elapsed e) b.value)) [
        | inl over ↦ rw (f, update, over) refl
        | inr waits ↦ rw (f, update, waits) (rw f h)
      ]
  update-Shuts random e b (pos (suc zero)) f h =
      elim (Bool-cases
        (Clock.greater clock (Clock.plus clock b.elapsed e) (Clock.blink_time clock))) [
          | inl over ↦ rw (f, update, over) refl
          | inr waits ↦ rw (f, update, waits) (rw f h)
        ]
  update-Shuts random e b (pos (suc (suc n))) f h = absurd h
  update-Shuts random e b (negsuc zero) f h = rw (f, update) (rw f h)
  update-Shuts random e b (negsuc (suc n)) f h = absurd h

  make-Shuts :
      (c : Call clock) (b : BlinkState clock)
      → Shuts b.blink_visible b.state
      → Shuts (make c b).blink_visible (make c b).state
  unfolding make set_rate
  make-Shuts (Call.updates random e) b h = update-Shuts random e b b.state refl h
  make-Shuts (Call.sets_rate random min max) b h =
      elim (Bool-cases (Clock.is_zero clock min && Clock.is_zero clock max)) [
        | inl e ↦ rw e refl
        | inr e ↦ rw e refl
      ]

  -- Whatever is called on a blink state, with whatever times and random numbers: if before the layer
  -- "blink" was visible just in the state 1 of the states -1, 0 and 1, then so it is afterwards.
  pub make_all-Shuts :
      (cs : List (Call clock)) (b : BlinkState clock)
      → Shuts b.blink_visible b.state
      → Shuts (make_all cs b).blink_visible (make_all cs b).state
  unfolding make_all
  make_all-Shuts [] b h = h
  make_all-Shuts (c ∷ cs) b h = make_all-Shuts cs (make c b) (make-Shuts c b h)
