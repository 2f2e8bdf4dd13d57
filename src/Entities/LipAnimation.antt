-- ===== src/Entities/LipAnimation.antt =====
-- `LipAnimation` (src/Entities/Actor/LipAnimation.cpp) on the data of a `Lip`
-- (include/engge/Parsers/Lip.hpp): which head of the costume an actor shows while it talks.
pub mod Heads
use engge.Base.{
  ℕ, suc, ◌-◌, Bool, true, false, not, ◌&&◌, ◌||◌, Option, none, some, List, ltb, leb, ◌==◌,
  if◌then◌else◌, length, get_elem?,
}
use engge.Base.Outcome.{Outcome, done, fault}
use engge.Dialog.Ast.{ℤ, pos, negsuc}

-- `ngf::TimeSpan`
pub record Clock : Type 1 where
  pub TimeSpan : Type 0
  pub no_time : TimeSpan
  pub plus : TimeSpan → TimeSpan → TimeSpan
  pub greater : TimeSpan → TimeSpan → Bool

pub record NgLipData (clock : Clock) : Type 0 where
  pub time : Clock.TimeSpan clock
  pub letter : ℕ

-- `head_index` is the head of the costume of the actor, where there is an actor.
pub record LipAnimation (clock : Clock) : Type 0 where
  pub lip : List (NgLipData clock)
  pub index : ℕ
  pub elapsed : Clock.TimeSpan clock
  pub head_index : Option ℤ

-- An `int` from the difference of two letters.
abbrev pub difference : ℕ → ℕ → ℤ
difference a b = if leb b a then pos (a - b) else negsuc (b - a - 1)

-- `X` and `G` (88 and 71) are shown as `A` (65), `H` (72) as `D` (68).
unfoldable pub head_of : ℕ → ℤ
head_of letter =
    let first = if letter == 88 || letter == 71 then 65 else letter in
    let second = if first == 72 then 68 else first in difference second 65

module _ {clock : Clock} where
  open clock use {TimeSpan, no_time, plus, greater}

  -- `updateHead`; `at` throws out of range, and the actor is not asked for.
  unfoldable pub update_head : LipAnimation clock → Outcome (LipAnimation clock)
  unfolding head_of
  update_head l =
      if length l.lip == 0 && leb (length l.lip) l.index
      then done l
      else elim (get_elem? l.lip l.index) [
        | none ↦ fault
        | some d ↦ elim l.head_index [
          | none ↦ fault
          | some head ↦ done (record l { head_index = some (head_of d.letter) })
        ]
      ]

  -- `load`, once the file is read.
  unfoldable pub load : List (NgLipData clock) → LipAnimation clock → Outcome (LipAnimation clock)
  unfolding update_head
  load lip l = update_head (record l { lip = lip; index = 0; elapsed = no_time })

  unfoldable pub clear : LipAnimation clock → LipAnimation clock
  clear l = record l { lip = List.[]; index = 0 }

  unfoldable pub set_actor : ℤ → LipAnimation clock → LipAnimation clock
  set_actor head l = record l { head_index = some head }

  -- `end`
  unfoldable pub end_talk : LipAnimation clock → LipAnimation clock
  end_talk l = elim l.head_index [ none ↦ l | some head ↦ record l { head_index = some (pos 0) } ]

  unfoldable pub update : TimeSpan → LipAnimation clock → Outcome (LipAnimation clock)
  unfolding update_head end_talk
  update e l =
      if length l.lip == 0 || l.index == length l.lip
      then done l
      else elim (get_elem? l.lip l.index) [
        | none ↦ fault
        | some d ↦
            let waited = plus l.elapsed e in
            let next =
              if greater waited d.time && ltb l.index (length l.lip)
              then suc l.index
              else l.index in
            let moved = record l { elapsed = waited; index = next } in
            let shown = update_head moved in
            if next == length l.lip then done (end_talk moved) else shown
      ]
