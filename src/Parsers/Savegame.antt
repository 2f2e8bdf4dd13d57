-- ===== src/Parsers/Savegame.antt =====
-- `SavegameManager` (src/Parsers/SavegameManager.cpp): the bytes of a saved game, from what the writer
-- of ngf makes of the game to the file, and back to what its reader is given. Words of 32 bits are
-- read and written in the order of a little-endian machine; a signed word is kept as its bits.
pub mod RoundTrip
pub mod Files
use engge.Base.{
  ℕ, zero, suc, ◌+◌, ◌-◌, ◌*◌, ◌/◌, ◌%◌, Bool, Option, none, some, List, [], ◌∷◌, ◌++◌, Bytes, ltb,
  ◌==◌, if◌then◌else◌, length, take, drop,
}
use engge.Base.Outcome.{Outcome, done, fault}
use engge.Util.BteaCrypto.{word, encrypt, decrypt}

abbrev pub word_of : ℕ → ℕ → ℕ → ℕ → ℕ
word_of a b c d = a + b * 0x100 + c * 0x10000 + d * 0x1000000

-- `(uint32_t *) &data[0]`: the words of the bytes, and the bytes behind the last whole word.
unfoldable pub words_of : Bytes → List ℕ
words_of (a ∷ b ∷ c ∷ d ∷ bs) = word_of a b c d ∷ words_of bs
words_of bs = []

unfoldable pub past_words : Bytes → Bytes
past_words (a ∷ b ∷ c ∷ d ∷ bs) = past_words bs
past_words bs = bs

unfoldable pub bytes_of : List ℕ → Bytes
bytes_of [] = []
bytes_of (w ∷ ws) =
    w % 0x100 ∷ w / 0x100 % 0x100 ∷ w / 0x10000 % 0x100 ∷ w / 0x1000000 % 0x100 ∷ bytes_of ws

-- A change of the words of the bytes, in place.
unfoldable pub over_words : (List ℕ → List ℕ) → Bytes → Bytes
unfolding words_of past_words bytes_of
over_words f bs = bytes_of (f (words_of bs)) ++ past_words bs

abbrev pub savegame_key : List ℕ
savegame_key = 0xAEA4EDF3 ∷ 0xAFF8332A ∷ 0xB5A2DBB4 ∷ 0x9B4BA022 ∷ []

unfoldable pub sum_bytes : ℕ → Bytes → ℕ
sum_bytes v [] = v
sum_bytes v (b ∷ bs) = sum_bytes ((v + b) % word) bs

-- `computeHash`. The first byte is read whatever the size is.
unfoldable pub compute_hash : Bytes → ℕ → ℕ
compute_hash bytes size = sum_bytes 0x6583463 (take (if size == 0 then 1 else size) bytes)

unfoldable pub repeat : ℕ → ℕ → Bytes
repeat zero b = []
repeat (suc n) b = b ∷ repeat n b

abbrev pub full_size : ℕ
full_size = 500000

abbrev pub marker : ℕ → ℕ
marker size = 8 - (size + 9) % 8

-- The first `size` bytes of the buffer: `o.read(buf.data(), fullSize)` into zeros.
unfoldable pub body : ℕ → Bytes → Bytes
unfolding repeat
body size o = take size (o ++ repeat size 0)

-- The buffer once its end is written.
unfoldable pub buffer : ℕ → Bytes → ℕ → Bytes
unfolding body bytes_of
buffer size o time =
    body size o
    ++ (bytes_of (compute_hash (body size o ++ repeat 16 0) size ∷ time ∷ [])
        ++ repeat 8 (marker size))

-- What `saveGame` writes to the file.
unfoldable pub save_in : ℕ → Bytes → ℕ → Bytes
unfolding over_words buffer
save_in size o time = over_words (encrypt savegame_key) (buffer size o time)

unfoldable pub save_game : Bytes → ℕ → Bytes
save_game = save_in full_size

-- `*(int32_t *) &data[at]`
unfoldable pub word_at : ℕ → Bytes → Option ℕ
word_at at bytes = elim (words_of (drop at bytes)) [ [] ↦ none | w ∷ ws ↦ some w ]

-- What `loadGame` hands to the reader, or `none` where the hash is wrong.
unfoldable pub load_game : Bytes → Outcome (Option Bytes)
unfolding over_words
load_game file =
    let size = length file - 16 in
    let buf = over_words (decrypt savegame_key) file in
    if ltb (length file) 16 then fault else elim (word_at size buf) [
      | none ↦ fault
      | some hash ↦ if hash == compute_hash buf size then done (some buf) else done none
    ]
