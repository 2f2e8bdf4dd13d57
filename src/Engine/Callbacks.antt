-- ===== src/Engine/Callbacks.antt =====
-- The callbacks of the engine: `Callback` (src/Engine/Callback.cpp) and `TimeFunction`
-- (include/engge/Engine/Function.hpp), `addCallback` and `removeCallback` (src/Engine/Engine.cpp), and
-- their part of `updateFunctions` (src/Engine/EngineImpl.hpp). What a method of the scripts asks of the
-- engine is a list of requests.
pub mod Alone
pub mod Once
use engge.Base.{
  ℕ, Bool, true, false, not, ◌||◌, List, [], ◌∷◌, ◌++◌, map, Bytes, ◌==◌, if◌then◌else◌,
}

-- `ngf::TimeSpan`
pub record Clock : Type 1 where
  pub TimeSpan : Type 0
  pub no_time : TimeSpan
  pub plus : TimeSpan → TimeSpan → TimeSpan
  pub greater : TimeSpan → TimeSpan → Bool

-- `is_done` is the flag of `TimeFunction`, and `callback_done` that of `Callback`.
pub record Callback (clock : Clock) : Type 0 where
  pub id : ℕ
  pub method : Bytes
  pub arg : ℕ
  pub time : Clock.TimeSpan clock
  pub elapsed : Clock.TimeSpan clock
  pub is_done : Bool
  pub callback_done : Bool

pub data Request (clock : Clock) : Type 0 where
  adds : (id : ℕ) → (time : Clock.TimeSpan clock) → (method : Bytes) → (arg : ℕ) → Request clock
  removes : (id : ℕ) → Request clock

pub record Scripts (clock : Clock) : Type 1 where
  pub World : Type 0
  pub call : Bytes → ℕ → World → List (Request clock) × World

module _ {clock : Clock} where
  open clock use {TimeSpan, no_time, plus, greater}

  unfoldable pub new_callback : ℕ → TimeSpan → Bytes → ℕ → Callback clock
  new_callback id time method arg = record {
    id = id;
    method = method;
    arg = arg;
    time = time;
    elapsed = no_time;
    is_done = false;
    callback_done = false;
  }

  unfoldable pub add_callback : Callback clock → List (Callback clock) → List (Callback clock)
  add_callback c cs = cs ++ c ∷ []

  -- The first one of the identifier.
  unfoldable pub remove_callback : ℕ → List (Callback clock) → List (Callback clock)
  remove_callback id [] = []
  remove_callback id (c ∷ cs) =
      let rest = remove_callback id cs in if c.id == id then cs else c ∷ rest

  unfoldable pub carry_out : List (Request clock) → List (Callback clock) → List (Callback clock)
  unfolding new_callback add_callback remove_callback
  carry_out [] cs = cs
  carry_out (adds id time method arg ∷ rs) cs =
      carry_out rs (add_callback (new_callback id time method arg) cs)
  carry_out (removes id ∷ rs) cs = carry_out rs (remove_callback id cs)

  -- `operator()`
  unfoldable pub advance : TimeSpan → Callback clock → Callback clock
  advance e c = record c { elapsed = plus c.elapsed e }

  -- `_elapsed > _time`
  unfoldable pub is_late : Callback clock → Bool
  is_late c = greater c.elapsed c.time

  unfoldable pub advance_all : TimeSpan → List (Callback clock) → List (Callback clock)
  unfolding advance
  advance_all e [] = []
  advance_all e (c ∷ cs) = advance e c ∷ advance_all e cs

module _ {clock : Clock} (scripts : Scripts clock) where
  open scripts use {World, call}

  -- The identifiers of the callbacks that were called, those that stay, those that the engine holds
  -- meanwhile, and the world.
  pub record Round : Type 0 where
    pub called : List ℕ
    pub kept : List (Callback clock)
    pub added : List (Callback clock)
    pub world : World

  -- `isElapsed`, with `onElapsed`: the identifier if the method is called.
  unfoldable pub ring :
      Callback clock → List (Callback clock) → World → List ℕ × List (Callback clock) × World
  unfolding carry_out is_late
  ring c added w =
      let (requests, v) = call c.method c.arg w in
      if not (is_late c) || c.is_done || c.callback_done
      then ([], added, w)
      else (c.id ∷ [], carry_out requests added, v)

  -- `remove_if` of those that are elapsed; one that is removed is not asked again.
  unfoldable pub remove_elapsed : List (Callback clock) → List (Callback clock) → World → Round
  unfolding ring is_late
  remove_elapsed [] added w = record { called = []; kept = []; added = added; world = w }
  remove_elapsed (c ∷ cs) added w =
      let (rung, now, v) = ring c added w in
      let rest = remove_elapsed cs now v in
      record {
        called = rung ++ rest.called;
        kept = if is_late c then rest.kept else c ∷ rest.kept;
        added = rest.added;
        world = rest.world;
      }

  -- The callbacks that were called in an update, those of the engine behind it, and the world.
  unfoldable pub update_callbacks :
      Clock.TimeSpan clock → List (Callback clock) → World → List ℕ × List (Callback clock) × World
  unfolding advance_all remove_elapsed
  update_callbacks e cs w =
      let r = remove_elapsed (advance_all e cs) [] w in (r.called, r.added ++ r.kept, r.world)
