-- ===== src/Engine/Cutscene/Input.antt =====
-- What a cutscene does to the input of the engine: its events, carried out by `Engine`.
use engge.Base.{ℕ, ◌≡◌, refl, Bool, List, [], ◌∷◌, ◌++◌}
use engge.Engine.InputState as Input
use engge.Engine.InputState.{InputState, set_input_active, set_input_verbs}
use engge.Engine.Cutscene.{Event, Cutscene}

-- The engine carries an event out; `in_cutscene` is whether another cutscene goes on.
unfoldable pub carry_out : Bool → Event → InputState → InputState
unfolding set_input_active set_input_verbs Input.set_input_state
carry_out in_cutscene (Event.set_input_active b) i = set_input_active in_cutscene b i
carry_out in_cutscene (Event.set_input_verbs b) i = set_input_verbs b i
carry_out in_cutscene (Event.set_input_state s) i = Input.set_input_state s i
carry_out in_cutscene _ i = i

unfoldable pub carry_out_all : Bool → List Event → InputState → InputState
unfolding carry_out
carry_out_all in_cutscene [] i = i
carry_out_all in_cutscene (e ∷ es) i = carry_out_all in_cutscene es (carry_out in_cutscene e i)

-- The event is not one of the constructor.
abbrev IsLater : Event → Type 0
IsLater (Event.set_input_active b) = ⊥
IsLater (Event.set_input_verbs b) = ⊥
IsLater _ = Unit

abbrev give_back : List ℕ → InputState → InputState
give_back [] i = i
give_back (s ∷ ss) i = give_back ss (Input.set_input_state s i)

carry_out_all-append :
    (b : Bool) (es fs : List Event) (i : InputState)
    → carry_out_all b (es ++ fs) i ≡ carry_out_all b fs (carry_out_all b es i)
unfolding carry_out_all
carry_out_all-append b [] fs i = refl
carry_out_all-append b (e ∷ es) fs i = carry_out_all-append b es fs (carry_out b e i)
