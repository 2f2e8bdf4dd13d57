-- ===== src/Parsers/Savegame/Files.antt =====
-- The buffer of a saved game, its hash and its size, through `saveGame` and `loadGame`.
use engge.Base.{
  ℕ, zero, suc, ◌+◌, ◌-◌, ◌*◌, ◌%◌, ◌<◌, ◌≤◌, ◌≡◌, refl, sym, ap, ◌∙◌, false, none, some, List, [],
  ◌∷◌, ◌++◌, Bytes, ltb, ◌==◌, length, take, length-take, length-append, take-append, drop-append,
  All-append, All-take, arith,
}
use engge.Base.Outcome.{done}
use engge.Util.BteaCrypto.{word, encrypt, decrypt}
use engge.Util.BteaCrypto.RoundTrip.{length-encrypt}
use engge.Parsers.Savegame.{
  words_of, past_words, bytes_of, over_words, savegame_key, sum_bytes, compute_hash, repeat,
  full_size, marker, body, buffer, save_in, save_game, word_at, load_game,
}
use engge.Parsers.Savegame.RoundTrip.{AreBytes, word_of-bytes, over_words-decrypt-encrypt}

pub length-repeat : (n b : ℕ) → length (repeat n b) ≡ n
unfolding repeat
length-repeat zero b = refl
length-repeat (suc n) b = ap suc (length-repeat n b)

pub repeat-AreBytes : (n b : ℕ) → b < 0x100 → AreBytes (repeat n b)
unfolding repeat
repeat-AreBytes zero b h = tt
repeat-AreBytes (suc n) b h = (h, repeat-AreBytes n b h)

pub length-bytes_of : (ws : List ℕ) → length (bytes_of ws) ≡ 4 * length ws
unfolding bytes_of
length-bytes_of [] = refl
length-bytes_of (w ∷ ws) = omega (arith, length-bytes_of ws)

pub bytes_of-AreBytes : (ws : List ℕ) → AreBytes (bytes_of ws)
unfolding bytes_of
bytes_of-AreBytes [] = tt
bytes_of-AreBytes (w ∷ ws) =
    (omega arith, (omega arith, (omega arith, (omega arith, bytes_of-AreBytes ws))))

length-words_of : (bs : Bytes) → 4 * length (words_of bs) + length (past_words bs) ≡ length bs
unfolding words_of past_words
length-words_of (a ∷ b ∷ c ∷ d ∷ bs) = omega (arith, length-words_of bs)
length-words_of [] = refl
length-words_of (a ∷ []) = refl
length-words_of (a ∷ b ∷ []) = refl
length-words_of (a ∷ b ∷ c ∷ []) = refl

pub length-over_words :
    (f : List ℕ → List ℕ) (bs : Bytes)
    → length (f (words_of bs)) ≡ length (words_of bs)
    → length (over_words f bs) ≡ length bs
unfolding over_words
length-over_words f bs h =
    length-append (bytes_of (f (words_of bs))) (past_words bs)
    ∙ omega (arith, length-bytes_of (f (words_of bs)), length-words_of bs)

sum_bytes-lt : (v : ℕ) (bs : Bytes) → v < word → sum_bytes v bs < word
unfolding sum_bytes
sum_bytes-lt v [] h = h
sum_bytes-lt v (b ∷ bs) h = sum_bytes-lt ((v + b) % word) bs (omega arith)

compute_hash-lt : (bs : Bytes) (size : ℕ) → compute_hash bs size < word
unfolding compute_hash
compute_hash-lt bs size = sum_bytes-lt 0x6583463 (take _ bs) (omega arith)

-- The hash of the first bytes does not look at those behind them.
compute_hash-append :
    (size : ℕ) (xs ys : Bytes)
    → 0 < size
    → length xs ≡ size
    → compute_hash (xs ++ ys) size ≡ sum_bytes 0x6583463 xs
unfolding compute_hash
compute_hash-append size xs ys h k =
    let some_size : (size == 0) ≡ false = ground arith in
    rw (some_size, take-append size xs ys k) refl

take-take : (n : ℕ) (xs ys : Bytes) → length xs ≤ n → take (length xs) (take n (xs ++ ys)) ≡ xs
take-take n [] ys h = refl
take-take zero (x ∷ xs) ys h = absurd (omega arith)
take-take (suc n) (x ∷ xs) ys h = ap (λ l. x ∷ l) (take-take n xs ys (omega arith))

word_at-append :
    (at : ℕ) (xs : Bytes) (w : ℕ) (ws : List ℕ) (r : Bytes)
    → length xs ≡ at
    → w < word
    → word_at at (xs ++ (bytes_of (w ∷ ws) ++ r)) ≡ some w
unfolding word_at words_of bytes_of
word_at-append at xs w ws r h k =
    ap (λ l. elim (words_of l) [ [] ↦ none | v ∷ vs ↦ some v ])
      (drop-append at xs (bytes_of (w ∷ ws) ++ r) h)
    ∙ ap some (word_of-bytes w k)

module _ (size : ℕ) (o : Bytes) where
  length-body : length (body size o) ≡ size
  unfolding body
  length-body =
      length-take size (o ++ repeat size 0)
      ∙ omega (arith, length-append o (repeat size 0), length-repeat size 0)

  body-AreBytes : AreBytes o → AreBytes (body size o)
  unfolding body
  body-AreBytes h =
      All-take _ size (o ++ repeat size 0)
        (All-append _ o (repeat size 0) h (repeat-AreBytes size 0 (omega arith)))

  take-body : length o ≤ size → take (length o) (body size o) ≡ o
  unfolding body
  take-body h = take-take size o (repeat size 0) h

  length-buffer : (time : ℕ) → length (buffer size o time) ≡ size + 16
  unfolding buffer
  length-buffer time =
      let end = bytes_of (compute_hash (body size o ++ repeat 16 0) size ∷ time ∷ []) in
      length-append (body size o) (end ++ repeat 8 (marker size))
      ∙ omega (
        arith,
        length-body,
        length-append end (repeat 8 (marker size)),
        length-bytes_of (compute_hash (body size o ++ repeat 16 0) size ∷ time ∷ []),
        length-repeat 8 (marker size),
      )

  buffer-AreBytes : (time : ℕ) → AreBytes o → AreBytes (buffer size o time)
  unfolding buffer
  buffer-AreBytes time h =
      let end = compute_hash (body size o ++ repeat 16 0) size ∷ time ∷ [] in
      All-append (λ b. b < 0x100) (body size o) (bytes_of end ++ repeat 8 (marker size))
        (body-AreBytes h)
        (All-append (λ b. b < 0x100) (bytes_of end) (repeat 8 (marker size)) (bytes_of-AreBytes end)
          (repeat-AreBytes 8 (marker size) (omega arith)))

  word_at-buffer :
      (time : ℕ)
      → word_at size (buffer size o time) ≡ some (compute_hash (body size o ++ repeat 16 0) size)
  unfolding buffer
  word_at-buffer time =
      word_at-append size (body size o) (compute_hash (body size o ++ repeat 16 0) size) (time ∷ [])
        (repeat 8 (marker size)) length-body (compute_hash-lt (body size o ++ repeat 16 0) size)

  compute_hash-buffer :
      (time : ℕ)
      → 0 < size
      → compute_hash (body size o ++ repeat 16 0) size ≡ compute_hash (buffer size o time) size
  unfolding buffer
  compute_hash-buffer time h =
      compute_hash-append size (body size o) (repeat 16 0) h length-body
      ∙ sym (compute_hash-append size (body size o) _ h length-body)

take-both :
    (xs ys zs : Bytes) → length xs ≤ length ys → take (length xs) (ys ++ zs) ≡ take (length xs) ys
take-both [] ys zs h = refl
take-both (x ∷ xs) [] zs h = absurd (omega arith)
take-both (x ∷ xs) (y ∷ ys) zs h = ap (λ l. y ∷ l) (take-both xs ys zs (omega arith))

take-buffer :
    (size : ℕ) (o : Bytes) (time : ℕ) → length o ≤ size → take (length o) (buffer size o time) ≡ o
unfolding buffer
take-buffer size o time h =
    take-both o (body size o) _ (omega (arith, length-body size o)) ∙ take-body size o h

module _ (size : ℕ) (positive : 0 < size) (o : Bytes) (bytes : AreBytes o) (time : ℕ) where
  length-save_in : length (save_in size o time) ≡ size + 16
  unfolding save_in
  length-save_in =
      length-over_words (encrypt savegame_key) (buffer size o time) (length-encrypt savegame_key _)
      ∙ length-buffer size o time

  pub load_game-save_in : load_game (save_in size o time) ≡ done (some (buffer size o time))
  unfolding load_game
  load_game-save_in =
      let decoded : over_words (decrypt savegame_key) (save_in size o time) ≡ buffer size o time =
        unfold save_in in
        over_words-decrypt-encrypt savegame_key (buffer size o time)
          (buffer-AreBytes size o time bytes) in
      let long : ltb (size + 16) 16 ≡ false = ground arith in
      let at : size + 16 - 16 ≡ size = omega arith in
      let hash = compute_hash-buffer size o time positive in
      rw (decoded, length-save_in, long, at, word_at-buffer size o time, hash)
        (rw (decoded, length-save_in, at) (ground arith))

-- A game that is saved is loaded as it was saved: from the file that `saveGame` writes, whatever the
-- bytes of the game and the time, `loadGame` accepts the hash and hands the buffer to the reader,
-- which begins with the bytes of the game if they are not more than 500000. The file has 500016 bytes.
pub load_game-save_game :
    (o : Bytes) (time : ℕ)
    → AreBytes o
    → length o ≤ full_size
    → (load_game (save_game o time) ≡ done (some (buffer full_size o time)))
      × (take (length o) (buffer full_size o time) ≡ o)
      × (length (save_game o time) ≡ full_size + 16)
unfolding save_game
load_game-save_game o time h k = (
  load_game-save_in full_size (omega arith) o h time,
  take-buffer full_size o time k,
  length-save_in full_size (omega arith) o h time,
)
