-- ===== src/Parsers/Savegame/RoundTrip.antt =====
-- `SavegameManager::saveGame` and then `SavegameManager::loadGame`.
use engge.Base.{ℕ, ◌/◌, ◌%◌, ◌<◌, ◌≡◌, refl, ap, List, [], ◌∷◌, ◌++◌, Bytes, All, arith}
use engge.Util.BteaCrypto.{word, encrypt, decrypt}
use engge.Util.BteaCrypto.RoundTrip.{AreWords, decrypt-encrypt, encrypt-AreWords}
use engge.Parsers.Savegame.{word_of, words_of, past_words, bytes_of, over_words}

abbrev pub AreBytes : Bytes → Type 0
AreBytes = All (λ b. b < 0x100)

words_of-AreWords : (bs : Bytes) → AreBytes bs → AreWords (words_of bs)
unfolding words_of
words_of-AreWords (a ∷ b ∷ c ∷ d ∷ bs) h =
    (omega (arith, h.0, h.1.0, h.1.1.0, h.1.1.1.0), words_of-AreWords bs h.1.1.1.1)
words_of-AreWords [] h = tt
words_of-AreWords (a ∷ []) h = tt
words_of-AreWords (a ∷ b ∷ []) h = tt
words_of-AreWords (a ∷ b ∷ c ∷ []) h = tt

-- Bytes without a whole word.
abbrev IsShort : Bytes → Type 0
IsShort r = (words_of r ≡ []) × (past_words r ≡ r)

past_words-IsShort : (bs : Bytes) → IsShort (past_words bs)
unfolding words_of past_words
past_words-IsShort (a ∷ b ∷ c ∷ d ∷ bs) = past_words-IsShort bs
past_words-IsShort [] = (refl, refl)
past_words-IsShort (a ∷ []) = (refl, refl)
past_words-IsShort (a ∷ b ∷ []) = (refl, refl)
past_words-IsShort (a ∷ b ∷ c ∷ []) = (refl, refl)

pub word_of-bytes :
    (w : ℕ)
    → w < word
    → word_of (w % 0x100) (w / 0x100 % 0x100) (w / 0x10000 % 0x100) (w / 0x1000000 % 0x100) ≡ w
word_of-bytes w h = omega arith

words_of-bytes_of :
    (ws : List ℕ) (r : Bytes) → AreWords ws → IsShort r → words_of (bytes_of ws ++ r) ≡ ws
unfolding words_of bytes_of
words_of-bytes_of [] r h k = k.0
words_of-bytes_of (w ∷ ws) r h k =
    rw (words_of-bytes_of ws r h.1 k) (ap (λ x. x ∷ ws) (word_of-bytes w h.0))

past_words-bytes_of : (ws : List ℕ) (r : Bytes) → IsShort r → past_words (bytes_of ws ++ r) ≡ r
unfolding past_words bytes_of
past_words-bytes_of [] r k = k.1
past_words-bytes_of (w ∷ ws) r k = past_words-bytes_of ws r k

-- The bytes of a word.
first_byte :
    (a b c d : ℕ)
    → a < 0x100
    → b < 0x100
    → c < 0x100
    → d < 0x100
    → (word_of a b c d % 0x100 ≡ a)
      × (word_of a b c d / 0x100 % 0x100 ≡ b)
      × (word_of a b c d / 0x10000 % 0x100 ≡ c)
      × (word_of a b c d / 0x1000000 % 0x100 ≡ d)
first_byte a b c d h i j k = (omega arith, omega arith, omega arith, omega arith)

bytes_of-words_of : (bs : Bytes) → AreBytes bs → bytes_of (words_of bs) ++ past_words bs ≡ bs
unfolding words_of past_words bytes_of
bytes_of-words_of (a ∷ b ∷ c ∷ d ∷ bs) h =
    let (e, f, g, i) = first_byte a b c d h.0 h.1.0 h.1.1.0 h.1.1.1.0 in
    rw (bytes_of-words_of bs h.1.1.1.1, e, f, g, i) refl
bytes_of-words_of [] h = refl
bytes_of-words_of (a ∷ []) h = refl
bytes_of-words_of (a ∷ b ∷ []) h = refl
bytes_of-words_of (a ∷ b ∷ c ∷ []) h = refl

-- The bytes are decoded to what was coded, whatever their number.
pub over_words-decrypt-encrypt :
    (key : List ℕ) (bs : Bytes)
    → AreBytes bs
    → over_words (decrypt key) (over_words (encrypt key) bs) ≡ bs
unfolding over_words
over_words-decrypt-encrypt key bs h =
    let short = past_words-IsShort bs in
    let w = words_of-AreWords bs h in
    rw
      (
        words_of-bytes_of (encrypt key (words_of bs)) (past_words bs) (encrypt-AreWords key _ w)
            short,
        past_words-bytes_of (encrypt key (words_of bs)) (past_words bs) short,
        decrypt-encrypt key (words_of bs) w,
      )
      (bytes_of-words_of bs h)
