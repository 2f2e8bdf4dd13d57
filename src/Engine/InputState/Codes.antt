-- ===== src/Engine/InputState/Codes.antt =====
-- The code of the flags, and what is made of it.
use engge.Base.{◌≡◌, refl, Bool, true, false}
use engge.Engine.InputState.{InputState, set_input_state, get_input_state}

flags_back :
    (input verbs cursor hud : Bool) (i : InputState)
    → let given : InputState = record {
      input_active = input;
      input_verbs_active = verbs;
      show_cursor = cursor;
      input_hud = hud;
    } in
      set_input_state (get_input_state given) i ≡ given
unfolding set_input_state get_input_state
flags_back true true true true i = refl
flags_back true true true false i = refl
flags_back true true false true i = refl
flags_back true true false false i = refl
flags_back true false true true i = refl
flags_back true false true false i = refl
flags_back true false false true i = refl
flags_back true false false false i = refl
flags_back false true true true i = refl
flags_back false true true false i = refl
flags_back false true false true i = refl
flags_back false true false false i = refl
flags_back false false true true i = refl
flags_back false false true false i = refl
flags_back false false false true i = refl
flags_back false false false false i = refl

-- Whatever the flags are, setting the code that was read gives the flags that it was read from.
pub set_input_state-get_input_state : (i j : InputState) → set_input_state (get_input_state i) j ≡ i
set_input_state-get_input_state i j =
    flags_back i.input_active i.input_verbs_active i.show_cursor i.input_hud j
