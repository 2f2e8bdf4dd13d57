-- ===== src/Examples/Identifiers.antt =====
-- The theorem on identifiers at a few requests.
use engge.Base.{List, ◌≡◌, [], ◌∷◌, All, arith}
use engge.Engine.EntityManager.{Kind, new_entity_manager, script_object_kind, set_callback_id}
use engge.Engine.EntityManager.Ids.{
  Ask, gets, sets_callback, get_ids, get_id, Fits, AreDistinct, scripted, get_ids_lem,
}

abbrev a_few : List Ask
a_few =
    gets Kind.sound
    ∷ gets Kind.callback
    ∷ sets_callback 8000007
    ∷ gets Kind.callback
    ∷ gets Kind.thread
    ∷ []

a_few-Fits : Fits a_few new_entity_manager
unfolding get_id new_entity_manager set_callback_id
a_few-Fits = (omega arith, (omega arith, (omega arith, (omega arith, (omega arith, tt)))))

get_ids_lem_example :
    AreDistinct (get_ids a_few new_entity_manager)
    × All (λ r. script_object_kind r.1 ≡ scripted r.0) (get_ids a_few new_entity_manager)
get_ids_lem_example = get_ids_lem a_few new_entity_manager a_few-Fits
