-- ===== src/Engine/EntityManager/Ids.antt =====
-- Identifiers of one `EntityManager`, given in any order.
use engge.Base.{ℕ, ◌+◌, ◌≤◌, ◌<◌, ◌≡◌, ◌≢◌, Option, none, some, List, [], ◌∷◌, All, arith}
use engge.Engine.EntityManager.{
  Kind, start_id, end_id, EntityManager, script_object_kind, get_actor_id, get_room_id,
  get_object_id, get_light_id, get_sound_id, get_thread_id, get_callback_id, set_callback_id,
}

unfoldable pub get_id : Kind → EntityManager → ℕ × EntityManager
unfolding get_actor_id get_room_id get_object_id get_light_id get_sound_id get_thread_id
    get_callback_id
get_id Kind.actor m = get_actor_id m
get_id Kind.room m = get_room_id m
get_id Kind.object m = get_object_id m
get_id Kind.light m = get_light_id m
get_id Kind.sound m = get_sound_id m
get_id Kind.thread m = get_thread_id m
get_id Kind.callback m = get_callback_id m

abbrev pub counter : Kind → EntityManager → ℕ
counter Kind.actor m = m.actor_id
counter Kind.room m = m.room_id
counter Kind.object m = m.object_id
counter Kind.light m = m.light_id
counter Kind.sound m = m.sound_id
counter Kind.thread m = m.thread_id
counter Kind.callback m = m.callback_id

-- What is asked of a manager: an identifier of a kind, or where those of callbacks go on, as loading a
-- game does.
pub data Ask : Type 0 where
  gets : (kind : Kind) → Ask
  sets_callback : (id : ℕ) → Ask

-- The identifiers that are given, with their kinds.
unfoldable pub get_ids : List Ask → EntityManager → List (Kind × ℕ)
unfolding get_id set_callback_id
get_ids [] m = []
get_ids (gets k ∷ ks) m = let (id, n) = get_id k m in (k, id) ∷ get_ids ks n
get_ids (sets_callback id ∷ ks) m = get_ids ks (set_callback_id id m)

-- None of the identifiers goes past the end of its kind, and those of callbacks are not set back.
abbrev pub Fits : List Ask → EntityManager → Type 0
Fits [] m = Unit
Fits (gets k ∷ ks) m = ((get_id k m).0 < end_id k) × Fits ks (get_id k m).1
Fits (sets_callback id ∷ ks) m =
    (start_id Kind.callback + m.callback_id ≤ id) × Fits ks (set_callback_id id m)

-- Not given before.
abbrev IsFresh : EntityManager → Kind × ℕ → Type 0
IsFresh m r = (start_id r.0 + counter r.0 m ≤ r.1) × (r.1 < end_id r.0)

get_id-IsFresh :
    (k : Kind) (m : EntityManager) (r : Kind × ℕ) → IsFresh (get_id k m).1 r → IsFresh m r
unfolding get_id
get_id-IsFresh Kind.actor m (Kind.actor, id) h = ground arith
get_id-IsFresh _ m (_, id) h = ground arith

get_id-ne :
    (k : Kind) (m : EntityManager) (r : Kind × ℕ)
    → (get_id k m).0 < end_id k
    → IsFresh (get_id k m).1 r
    → (get_id k m).0 ≢ r.1
unfolding get_id
get_id-ne Kind.actor m (Kind.actor, id) l h e = ground arith
get_id-ne _ m (_, id) l h e = ground arith

get_id-here :
    (k : Kind) (m : EntityManager) → (get_id k m).0 < end_id k → IsFresh m (k, (get_id k m).0)
unfolding get_id
get_id-here Kind.actor m h = ground arith
get_id-here _ m h = ground arith

All-IsFresh :
    (k : Kind) (m : EntityManager) (rs : List (Kind × ℕ))
    → All (IsFresh (get_id k m).1) rs
    → All (IsFresh m) rs
All-IsFresh k m [] h = tt
All-IsFresh k m (r ∷ rs) h = (get_id-IsFresh k m r h.0, All-IsFresh k m rs h.1)

set_callback_id-IsFresh :
    (id : ℕ) (m : EntityManager) (r : Kind × ℕ)
    → start_id Kind.callback + m.callback_id ≤ id
    → IsFresh (set_callback_id id m) r
    → IsFresh m r
unfolding set_callback_id
set_callback_id-IsFresh id m (Kind.callback, i) l h = ground arith
set_callback_id-IsFresh id m (_, i) l h = h

All-set_callback_id :
    (id : ℕ) (m : EntityManager) (rs : List (Kind × ℕ))
    → start_id Kind.callback + m.callback_id ≤ id
    → All (IsFresh (set_callback_id id m)) rs
    → All (IsFresh m) rs
All-set_callback_id id m [] l h = tt
All-set_callback_id id m (r ∷ rs) l h =
    (set_callback_id-IsFresh id m r l h.0, All-set_callback_id id m rs l h.1)

get_ids-IsFresh : (ks : List Ask) (m : EntityManager) → Fits ks m → All (IsFresh m) (get_ids ks m)
unfolding get_ids
get_ids-IsFresh [] m h = tt
get_ids-IsFresh (gets k ∷ ks) m h =
    (get_id-here k m h.0, All-IsFresh k m _ (get_ids-IsFresh ks (get_id k m).1 h.1))
get_ids-IsFresh (sets_callback id ∷ ks) m h =
    All-set_callback_id id m _ h.0 (get_ids-IsFresh ks (set_callback_id id m) h.1)

-- No two of the identifiers are the same.
abbrev pub AreDistinct : List (Kind × ℕ) → Type 0
AreDistinct [] = Unit
AreDistinct (r ∷ rs) = All (λ s. r.1 ≢ s.1) rs × AreDistinct rs

All-ne :
    (k : Kind) (m : EntityManager) (rs : List (Kind × ℕ))
    → (get_id k m).0 < end_id k
    → All (IsFresh (get_id k m).1) rs
    → All (λ s. (get_id k m).0 ≢ s.1) rs
All-ne k m [] l h = tt
All-ne k m (r ∷ rs) l h = (get_id-ne k m r l h.0, All-ne k m rs l h.1)

get_ids-AreDistinct : (ks : List Ask) (m : EntityManager) → Fits ks m → AreDistinct (get_ids ks m)
unfolding get_ids
get_ids-AreDistinct [] m h = tt
get_ids-AreDistinct (gets k ∷ ks) m h = (
  All-ne k m _ h.0 (get_ids-IsFresh ks (get_id k m).1 h.1),
  get_ids-AreDistinct ks (get_id k m).1 h.1,
)
get_ids-AreDistinct (sets_callback id ∷ ks) m h = get_ids-AreDistinct ks (set_callback_id id m) h.1

-- The kinds that scripts hold objects of.
abbrev pub scripted : Kind → Option Kind
scripted Kind.thread = none
scripted Kind.callback = none
scripted k = some k

IsFresh-script_object_kind :
    (m : EntityManager) (r : Kind × ℕ) → IsFresh m r → script_object_kind r.1 ≡ scripted r.0
unfolding script_object_kind
IsFresh-script_object_kind m (Kind.actor, id) h = ground arith
IsFresh-script_object_kind m (_, id) h = ground arith

All-script_object_kind :
    (m : EntityManager) (rs : List (Kind × ℕ))
    → All (IsFresh m) rs
    → All (λ r. script_object_kind r.1 ≡ scripted r.0) rs
All-script_object_kind m [] h = tt
All-script_object_kind m (r ∷ rs) h =
    (IsFresh-script_object_kind m r h.0, All-script_object_kind m rs h.1)

-- The identifiers that a manager gives, in whatever order kinds ask for them and loaded games set where
-- those of callbacks go on, are distinct as long as none goes past the end of its kind and those of
-- callbacks are not set back. `getScriptObjectFromId` looks each up in its own kind, or in none if it
-- is that of a thread or a callback.
pub get_ids_lem :
    (ks : List Ask) (m : EntityManager)
    → Fits ks m
    → AreDistinct (get_ids ks m) × All (λ r. script_object_kind r.1 ≡ scripted r.0) (get_ids ks m)
get_ids_lem ks m h =
    (get_ids-AreDistinct ks m h, All-script_object_kind m _ (get_ids-IsFresh ks m h))
