-- ===== src/Room/RoomTrigger.antt =====
-- `RoomTrigger` (src/Room/RoomTrigger.cpp) and `Trigger` (include/engge/Engine/Trigger.hpp): the script
-- functions that are called when the current actor enters the hotspot of an object and leaves it. A
-- call of the script is a value, with its parameters and its name; that the script machine may
-- refuse a call is not seen here.
pub mod Alternation
use engge.Base.{
  ℕ, Bool, true, false, not, ◌&&◌, Option, none, some, List, [], ◌∷◌, ◌++◌, Bytes, codes, ◌==◌,
  if◌then◌else◌, length,
}

-- The closures of the trigger, and the tables of its object and of the current actor.
pub data Param : Type 0 where
  inside outside object actor : Param

pub record TriggerCall : Type 0 where
  pub params : List Param
  pub name : Bytes

-- `has_outside` is that `_outside` is not null.
pub record RoomTrigger : Type 0 where
  pub is_enabled : Bool
  pub is_inside : Bool
  pub inside_params_count : ℕ
  pub outside_params_count : ℕ
  pub inside_name : Bytes
  pub has_outside : Bool

unfoldable pub disable : RoomTrigger → RoomTrigger
disable t = record t { is_enabled = false }

unfoldable pub params_of : Param → ℕ → List Param
params_of closure count =
    if count == 2 then closure ∷ Param.object ∷ Param.actor ∷ [] else closure ∷ Param.object ∷ []

unfoldable pub inside_call : RoomTrigger → TriggerCall
unfolding params_of
inside_call t = record {
  params = params_of Param.inside t.inside_params_count;
  name = codes "inside" ++ (if length t.inside_name == 0 then [] else codes " " ++ t.inside_name);
}

-- The name that is put together here is not the one that is passed.
unfoldable pub outside_call : RoomTrigger → TriggerCall
unfolding params_of
outside_call t = record {
  params = params_of Param.outside t.outside_params_count;
  name = codes "outside";
}

-- `trigCore`; the current actor, if there is one, is where the hotspot holds it or not.
unfoldable pub trig_core : Option Bool → RoomTrigger → List TriggerCall × RoomTrigger
unfolding inside_call outside_call
trig_core none t = ([], t)
trig_core (some in_hotspot) t =
    if not t.is_inside && in_hotspot
    then (inside_call t ∷ [], record t { is_inside = true })
    else if t.is_inside && not in_hotspot
    then (if t.has_outside then outside_call t ∷ [] else [], record t { is_inside = false })
    else ([], t)

unfoldable pub trig : Option Bool → RoomTrigger → List TriggerCall × RoomTrigger
unfolding trig_core
trig who t = let core = trig_core who t in if not t.is_enabled then ([], t) else core
