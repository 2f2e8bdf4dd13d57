-- ===== src/Engine/AchievementManager.antt =====
-- `AchievementManager::save` and `load` (src/Engine/AchievementManager.cpp): the bytes of the file of
-- achievements, from the text of the preferences, and back to the text that the JSON parser of ngf is
-- given. Words are as in a saved game.
pub mod RoundTrip
use engge.Base.{
  ℕ, zero, suc, ◌+◌, ◌-◌, ◌%◌, Bool, Option, none, some, List, [], ◌∷◌, ◌++◌, Bytes, ltb, leb, ◌==◌,
  if◌then◌else◌, length, get_elem?, set,
}
use engge.Base.Outcome.{Outcome, done, fault}
use engge.Util.BteaCrypto.{encrypt, decrypt}
use engge.Parsers.Savegame.{bytes_of, over_words, compute_hash, repeat, marker}

abbrev pub achievement_key : List ℕ
achievement_key = 0x2AAB9D93 ∷ 0xAFF8562A ∷ 0xB5A2DBB4 ∷ 0x2B4BA322 ∷ []

-- The buffer once its end is written.
unfoldable pub achievement_buffer : Bytes → ℕ → Bytes
unfolding bytes_of repeat compute_hash
achievement_buffer content time =
    let size = length content in
    let hash = compute_hash (content ++ repeat (9 + marker size) 0) size in
    content ++ (bytes_of (hash ∷ time ∷ []) ++ repeat (suc (marker size)) (marker size))

-- What `save` writes to the file.
unfoldable pub save : Bytes → ℕ → Bytes
unfolding over_words achievement_buffer
save content time = over_words (encrypt achievement_key) (achievement_buffer content time)

-- `size - (marker + 1 + 8)`, where a `char` from 128 on is negative; `none` is out of the data.
unfoldable pub end_index : ℕ → ℕ → Option ℕ
end_index size last =
    if ltb last 128
    then if leb (last + 9) size then some (size - (last + 9)) else none
    else if ltb 247 last
    then if leb (last - 247) size then some (size - (last - 247)) else none
    else none

-- The bytes before the first that is zero.
unfoldable pub c_string : Bytes → Bytes
c_string [] = []
c_string (b ∷ bs) = let rest = c_string bs in if b == 0 then [] else b ∷ rest

-- What `load` hands to the parser.
unfoldable pub load : Bytes → Outcome Bytes
unfolding over_words end_index c_string
load file =
    let size = length file in
    let plain = over_words (decrypt achievement_key) file in
    elim (get_elem? plain (size - 1)) [
      | none ↦ fault
      | some last ↦ elim (end_index size last) [
        | none ↦ fault
        | some i ↦ done (c_string (set plain i 0))
      ]
    ]
