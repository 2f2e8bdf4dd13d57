-- ===== src/Examples/Calls.antt =====
-- The theorem on callbacks, at two of which the first removes the second.
use engge.Base.{ℕ, ◌+◌, ◌≡◌, refl, inl, inr, List, [], ◌∷◌, codes, ltb, arith}
use engge.Engine.Callbacks.{Clock, Callback, removes, Scripts, new_callback}
use engge.Engine.Callbacks.Alone.{count, rings}
use engge.Engine.Callbacks.Once.{run, run-rings}

abbrev seconds : Clock
seconds = record { TimeSpan = ℕ; no_time = 0; plus = λ a b. a + b; greater = λ a b. ltb b a }

-- Each method removes the callback that its argument names.
abbrev removing : Scripts seconds
removing = record { World = ℕ; call = λ method arg w. (removes arg ∷ [], w + 1) }

abbrev pending : List (Callback seconds)
pending =
    new_callback {clock = seconds} 1 3 (codes "close") 2
    ∷ new_callback {clock = seconds} 2 3 (codes "open") 1
    ∷ []

run-rings_example :
    count 2 (run removing (2 ∷ 2 ∷ 2 ∷ []) pending 0).0 ≡ rings seconds (2 ∷ 2 ∷ 2 ∷ []) 0 3
unfolding new_callback
run-rings_example =
    run-rings removing 2 (λ method arg w. (tt, tt)) (2 ∷ 2 ∷ 2 ∷ [])
      (new_callback {clock = seconds} 2 3 (codes "open") 1) pending 0
      (record { has_id = refl; not_done = refl; not_called = refl })
      (inr (omega arith, inl (refl, tt)))

-- It is called, though the first was called before it in the same update and removed it.
called_in_order : (run removing (2 ∷ 2 ∷ 2 ∷ []) pending 0).0 ≡ 1 ∷ 2 ∷ []
unfolding run new_callback
called_in_order = refl
