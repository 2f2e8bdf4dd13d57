-- ===== src/Engine/EntityManager.antt =====
-- The identifiers of `EntityManager` (include/engge/Engine/EntityManager.hpp): how they are given, and
-- how their kind is told.
pub mod Ids
use engge.Base.{ℕ, suc, ◌+◌, ◌-◌, Bool, ◌&&◌, Option, none, some, ltb, leb, if◌then◌else◌}

pub data Kind : Type 0 where
  actor room object light sound thread callback : Kind

-- `START_ACTORID` and so on, and `END_ACTORID` and so on.
abbrev pub start_id : Kind → ℕ
start_id Kind.actor = 1000
start_id Kind.room = 2000
start_id Kind.object = 3000
start_id Kind.light = 100000
start_id Kind.sound = 200000
start_id Kind.thread = 300000
start_id Kind.callback = 8000000

abbrev pub end_id : Kind → ℕ
end_id Kind.actor = 2000
end_id Kind.room = 3000
end_id Kind.object = 100000
end_id Kind.light = 200000
end_id Kind.sound = 300000
end_id Kind.thread = 8000000
end_id Kind.callback = 10000000

pub record EntityManager : Type 0 where
  pub actor_id : ℕ
  pub room_id : ℕ
  pub object_id : ℕ
  pub light_id : ℕ
  pub sound_id : ℕ
  pub thread_id : ℕ
  pub callback_id : ℕ

unfoldable pub new_entity_manager : EntityManager
new_entity_manager = record {
  actor_id = 0;
  room_id = 0;
  object_id = 0;
  light_id = 0;
  sound_id = 0;
  thread_id = 0;
  callback_id = 0;
}

unfoldable pub get_actor_id : EntityManager → ℕ × EntityManager
get_actor_id m = (start_id Kind.actor + m.actor_id, record m { actor_id = suc m.actor_id })

unfoldable pub get_room_id : EntityManager → ℕ × EntityManager
get_room_id m = (start_id Kind.room + m.room_id, record m { room_id = suc m.room_id })

unfoldable pub get_object_id : EntityManager → ℕ × EntityManager
get_object_id m = (start_id Kind.object + m.object_id, record m { object_id = suc m.object_id })

unfoldable pub get_light_id : EntityManager → ℕ × EntityManager
get_light_id m = (start_id Kind.light + m.light_id, record m { light_id = suc m.light_id })

unfoldable pub get_sound_id : EntityManager → ℕ × EntityManager
get_sound_id m = (start_id Kind.sound + m.sound_id, record m { sound_id = suc m.sound_id })

unfoldable pub get_thread_id : EntityManager → ℕ × EntityManager
get_thread_id m = (start_id Kind.thread + m.thread_id, record m { thread_id = suc m.thread_id })

unfoldable pub get_callback_id : EntityManager → ℕ × EntityManager
get_callback_id m =
    (start_id Kind.callback + m.callback_id, record m { callback_id = suc m.callback_id })

-- `setCallbackId`, for identifiers that callbacks have.
unfoldable pub set_callback_id : ℕ → EntityManager → EntityManager
set_callback_id id m = record m { callback_id = id - start_id Kind.callback }

abbrev pub is_between : ℕ → ℕ → ℕ → Bool
is_between id min max = leb min id && ltb id max

abbrev pub is_actor : ℕ → Bool
is_actor id = is_between id (start_id Kind.actor) (end_id Kind.actor)

abbrev pub is_room : ℕ → Bool
is_room id = is_between id (start_id Kind.room) (end_id Kind.room)

abbrev pub is_object : ℕ → Bool
is_object id = is_between id (start_id Kind.object) (end_id Kind.object)

abbrev pub is_light : ℕ → Bool
is_light id = is_between id (start_id Kind.light) (end_id Kind.light)

abbrev pub is_sound : ℕ → Bool
is_sound id = is_between id (start_id Kind.sound) (end_id Kind.sound)

abbrev pub is_thread : ℕ → Bool
is_thread id = is_between id (start_id Kind.thread) (end_id Kind.thread)

-- The kind that `getScriptObjectFromId` looks an identifier up in, if any.
unfoldable pub script_object_kind : ℕ → Option Kind
script_object_kind id =
    if is_actor id
    then some Kind.actor
    else if is_room id
    then some Kind.room
    else if is_light id
    then some Kind.light
    else if is_object id
    then some Kind.object
    else if is_sound id
    then some Kind.sound
    else none
