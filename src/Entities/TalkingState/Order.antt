-- ===== src/Entities/TalkingState/Order.antt =====
-- The order in which lines are said.
use engge.Base.{
  ◌≤◌, ◌≡◌, ◌⊎◌, refl, inl, inr, Bool, true, some, List, [], ◌∷◌, ◌++◌, Bytes, length, Bool-cases,
  Option-cases,
}
use engge.Base.Outcome.{Outcome, done, ◌>>=◌}
use engge.Dialog.Ast.{ℤ}
use engge.Entities.LipAnimation.{Clock, LipAnimation, set_actor}
use engge.Entities.LipAnimation as Lip
use engge.Entities.TalkingState.{TalkWorld, Line, TalkingState, Talk, take_actor, update, load_lip}

-- The place is in the data or at its end, and where there is data there is an actor.
pub record IsReady {clock : Clock} (l : LipAnimation clock) : Type 0 where
  pub in_range : l.index ≤ length l.lip
  pub has_actor : (length l.lip ≡ 0) ⊎ ((h : ℤ) × (l.head_index ≡ some h))

-- The lips are ready, and lines wait only while one is said.
pub record IsWaiting {clock : Clock} (s : TalkingState clock) : Type 0 where
  pub ready : IsReady s.lip
  pub waiting : (s.is_talking ≡ true) ⊎ (s.ids ≡ [])

module _ {clock : Clock} (world : TalkWorld clock) where
  open world use {World, is_actor, has_entry, lip_of, parse_id, play_talk}

  take_actor-IsReady : (l : LipAnimation clock) → IsReady l → IsReady (take_actor world l)
  unfolding take_actor set_actor
  take_actor-IsReady l w = elim (Bool-cases is_actor) [
    | inr other ↦ rw other w
    | inl actor ↦ rw actor (elim (Option-cases l.head_index) [
      | inl e ↦ rw (take_actor, e) (record { in_range = w.in_range; has_actor = inr (_, refl) })
      | inr (h, e) ↦ rw (take_actor, e) w
    ])
  ]

  abbrev Keeps : TalkingState clock → TalkingState clock × World → Type 0
  Keeps s (t, w) = IsReady t.lip × (t.is_talking ≡ true) × (t.ids ≡ s.ids)

  -- The lines that were loaded and those that wait are those that waited and those asked for.
  abbrev Continues : List Line → Talk world → Type 0
  Continues lines (loaded, t, w) = IsWaiting t × (loaded ++ t.ids ≡ lines)

  abbrev pub line_asked : Bytes → Bool → Line
  line_asked text mumble = record { id = parse_id text; text = text; mumble = mumble }

-- What is called while the entity is not stopped.
pub data Call (clock : Clock) : Type 0 where
  says : (text : Bytes) → (mumble : Bool) → Call clock
  updates : (e : Clock.TimeSpan clock) → Call clock

module _ {clock : Clock} (world : TalkWorld clock) where
  open world use {World}

  unfoldable pub make : Call clock → TalkingState clock → World → Outcome (Talk world)
  unfolding load_lip update
  make (says text mumble) s w = load_lip world text mumble s w
  make (updates e) s w = update world e s w

  -- The calls, one behind the other, with all lines that they loaded.
  unfoldable pub make_all : List (Call clock) → TalkingState clock → World → Outcome (Talk world)
  unfolding make
  make_all [] s w = done ([], s, w)
  make_all (x ∷ xs) s w = make x s w >>= λ (loaded, t, v).
      make_all xs t v >>= λ (more, u, z). done (loaded ++ more, u, z)

  -- The lines that the calls ask for.
  abbrev pub asked : List (Call clock) → List Line
  asked [] = []
  asked (says text mumble ∷ xs) = line_asked world text mumble ∷ asked xs
  asked (updates e ∷ xs) = asked xs

  abbrev asked_by : Call clock → List Line
  asked_by (says text mumble) = line_asked world text mumble ∷ []
  asked_by (updates e) = []
