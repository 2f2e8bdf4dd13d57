-- ===== src/Room/RoomTrigger/Alternation.antt =====
-- The calls of a trigger, one after another.
use engge.Base.{
  ◌≡◌, sym, ap, subst, ◌∙◌, Bool, true, false, Option, none, some, List, [], ◌∷◌, ◌++◌,
}
use engge.Room.RoomTrigger.{RoomTrigger, TriggerCall, inside_call, outside_call, trig_core, trig}

-- The actor is looked at again and again.
unfoldable pub trig_all : List (Option Bool) → RoomTrigger → List TriggerCall × RoomTrigger
unfolding trig
trig_all [] t = ([], t)
trig_all (actor ∷ actors) t =
    let (called, u) = trig actor t in let (more, over) = trig_all actors u in (called ++ more, over)

-- Calls that come in turn, from where the trigger is inside or not to where it then is.
pub data Alternates (enter leave : TriggerCall) : Bool → List TriggerCall → Bool → Type 0 where
  rests : {b : Bool} → Alternates enter leave b [] b
  enters :
      {cs : List TriggerCall} {b : Bool}
      → Alternates enter leave true cs b
      → Alternates enter leave false (enter ∷ cs) b
  leaves :
      {cs : List TriggerCall} {b : Bool}
      → Alternates enter leave false cs b
      → Alternates enter leave true (leave ∷ cs) b

-- The trigger, enabled and with a function for outside.
from : RoomTrigger → Bool → RoomTrigger
from t inside = record t { is_enabled = true; is_inside = inside; has_outside = true }

trig_all-from :
    (t : RoomTrigger) (inside : Bool) (actors : List (Option Bool))
    → Alternates
        (inside_call t)
        (outside_call t)
        inside
        (trig_all actors (from t inside)).0
        (trig_all actors (from t inside)).1.is_inside
unfolding trig_all trig trig_core inside_call outside_call from
trig_all-from t inside [] = Alternates.rests
trig_all-from t inside (none ∷ actors) = trig_all-from t inside actors
trig_all-from t true (some true ∷ actors) = trig_all-from t true actors
trig_all-from t true (some false ∷ actors) = Alternates.leaves (trig_all-from t false actors)
trig_all-from t false (some true ∷ actors) = Alternates.enters (trig_all-from t true actors)
trig_all-from t false (some false ∷ actors) = trig_all-from t false actors

-- Wherever the actor is seen, or no actor, and however often: a trigger that is enabled and has a
-- function for outside calls the two functions in turn, first that for inside unless it was inside, and
-- the last call says where it is.
pub trig_all-Alternates :
    (t : RoomTrigger) (actors : List (Option Bool))
    → t.is_enabled ≡ true
    → t.has_outside ≡ true
    → Alternates
        (inside_call t)
        (outside_call t)
        t.is_inside
        (trig_all actors t).0
        (trig_all actors t).1.is_inside
unfolding from
trig_all-Alternates t actors h k =
    let same : from t t.is_inside ≡ t =
      ap (λ b. record t { is_enabled = b; has_outside = true }) (sym h)
      ∙ ap (λ b. record t { has_outside = b }) (sym k) in
    subst
      (λ (u : RoomTrigger).
        Alternates (inside_call t) (outside_call t) t.is_inside (trig_all actors u).0
          (trig_all actors u).1.is_inside)
      same (trig_all-from t t.is_inside actors)
