-- ===== src/Util/BteaCrypto/RoundTrip.antt =====
-- `BTEACrypto::encrypt` and then `BTEACrypto::decrypt`.
use engge.Base.{
  ℕ, zero, suc, ◌+◌, ◌*◌, ◌%◌, ◌<◌, ◌≡◌, refl, ap, ◌∙◌, inl, inr, List, [], ◌∷◌, length, All, ltb,
  arith, Bool-cases,
}
use engge.Util.BteaCrypto.{
  word, delta, add_word, sub_word, encode_from, encode_round, encode_rounds, decode_from,
  decode_round, decode_rounds, rounds_of, encrypt, decrypt,
}

-- Words of 32 bits.
abbrev pub AreWords : List ℕ → Type 0
AreWords = All (λ x. x < word)

sub_word-add_word : (a b : ℕ) → a < word → sub_word (add_word a b) b ≡ a
sub_word-add_word a b h = omega arith

add_word-lt : (a b : ℕ) → add_word a b < word
add_word-lt a b = omega arith

module _ (key : List ℕ) (sum : ℕ) where
  decode_from-encode_from :
      (first p z : ℕ) (v : List ℕ)
      → AreWords v
      → decode_from key sum first p z (encode_from key sum first p z v) ≡ v
  unfolding encode_from decode_from
  decode_from-encode_from first p z [] h = refl
  decode_from-encode_from first p z (x ∷ []) h = ap (λ n. n ∷ []) (sub_word-add_word x _ h.0)
  decode_from-encode_from first p z (x ∷ y ∷ ys) h =
      rw (decode_from-encode_from first (suc p) _ (y ∷ ys) h.1)
        (ap (λ n. n ∷ y ∷ ys) (sub_word-add_word x _ h.0))

  encode_from-AreWords :
      (first p z : ℕ) (v : List ℕ) → AreWords v → AreWords (encode_from key sum first p z v)
  unfolding encode_from
  encode_from-AreWords first p z [] h = tt
  encode_from-AreWords first p z (x ∷ []) h = (add_word-lt x _, tt)
  encode_from-AreWords first p z (x ∷ y ∷ ys) h =
      (add_word-lt x _, encode_from-AreWords first (suc p) _ (y ∷ ys) h.1)

  length-encode_from :
      (first p z : ℕ) (v : List ℕ) → length (encode_from key sum first p z v) ≡ length v
  unfolding encode_from
  length-encode_from first p z [] = refl
  length-encode_from first p z (x ∷ []) = refl
  length-encode_from first p z (x ∷ y ∷ ys) = ap suc (length-encode_from first (suc p) _ (y ∷ ys))

  -- One round.
  decode_round-encode_round :
      (v : List ℕ) → AreWords v → 1 < length v → decode_round key sum (encode_round key sum v) ≡ v
  unfolding encode_round decode_round
  decode_round-encode_round [] h k = refl
  decode_round-encode_round (x ∷ []) h k = absurd (omega arith)
  decode_round-encode_round (x ∷ y ∷ ys) h k =
      rw (decode_from-encode_from _ 1 _ (y ∷ ys) h.1)
        (ap (λ n. n ∷ y ∷ ys) (sub_word-add_word x _ h.0))

  encode_round-AreWords : (v : List ℕ) → AreWords v → AreWords (encode_round key sum v)
  unfolding encode_round
  encode_round-AreWords [] h = h
  encode_round-AreWords (x ∷ []) h = h
  encode_round-AreWords (x ∷ y ∷ ys) h = (add_word-lt x _, encode_from-AreWords _ 1 _ (y ∷ ys) h.1)

  length-encode_round : (v : List ℕ) → length (encode_round key sum v) ≡ length v
  unfolding encode_round
  length-encode_round [] = refl
  length-encode_round (x ∷ []) = refl
  length-encode_round (x ∷ y ∷ ys) = ap suc (length-encode_from _ 1 _ (y ∷ ys))

-- The sum of the last of `rounds` rounds from `sum`.
abbrev sum_after : ℕ → ℕ → ℕ
sum_after rounds sum = (sum + rounds * delta) % word

module _ (key : List ℕ) where
  encode_rounds-AreWords :
      (k sum : ℕ) (v : List ℕ) → AreWords v → AreWords (encode_rounds key k sum v)
  unfolding encode_rounds
  encode_rounds-AreWords zero sum v h = h
  encode_rounds-AreWords (suc k) sum v h =
      encode_rounds-AreWords k _ _ (encode_round-AreWords key _ v h)

  length-encode_rounds : (k sum : ℕ) (v : List ℕ) → length (encode_rounds key k sum v) ≡ length v
  unfolding encode_rounds
  length-encode_rounds zero sum v = refl
  length-encode_rounds (suc k) sum v = length-encode_rounds k _ _ ∙ length-encode_round key _ v

  -- The last round, taken off.
  encode_rounds-suc :
      (k sum : ℕ) (v : List ℕ)
      → encode_rounds key (suc k) sum v
        ≡ encode_round key (sum_after (suc k) sum) (encode_rounds key k sum v)
  unfolding encode_rounds
  encode_rounds-suc zero sum v = ap (λ s. encode_round key s v) (omega arith)
  encode_rounds-suc (suc k) sum v =
      encode_rounds-suc k (add_word sum delta) _
      ∙ ap (λ s. encode_round key s (encode_rounds key (suc k) sum v)) (omega arith)

  decode_rounds-encode_rounds :
      (k sum : ℕ) (v : List ℕ)
      → AreWords v
      → 1 < length v
      → decode_rounds key k (sum_after k sum) (encode_rounds key k sum v) ≡ v
  unfolding decode_rounds encode_rounds
  decode_rounds-encode_rounds zero sum v h n = refl
  decode_rounds-encode_rounds (suc k) sum v h n =
      let w = encode_rounds-AreWords k sum v h in
      let l : 1 < length (encode_rounds key k sum v) =
        omega (arith, length-encode_rounds k sum v) in
      ap (decode_rounds key (suc k) (sum_after (suc k) sum)) (encode_rounds-suc k sum v)
      ∙ ap (decode_rounds key k _) (decode_round-encode_round key _ _ w l)
      ∙ ap (λ s. decode_rounds key k s (encode_rounds key k sum v)) (omega arith)
      ∙ decode_rounds-encode_rounds k sum v h n

-- Whatever the key, decoding the code of some words of 32 bits gives the words back, also where they
-- are too few to be coded.
pub decrypt-encrypt : (key v : List ℕ) → AreWords v → decrypt key (encrypt key v) ≡ v
unfolding encrypt decrypt
decrypt-encrypt key v h = elim (Bool-cases (ltb 1 (length v))) [
  | inr few ↦ rw (few, few)
  | inl more ↦
      rw (more, length-encode_rounds key (rounds_of (length v)) 0 v, more)
        (ap
            (λ s.
              decode_rounds key (rounds_of (length v)) s
                (encode_rounds key (rounds_of (length v)) 0 v))
            (omega arith)
          ∙ decode_rounds-encode_rounds key (rounds_of (length v)) 0 v h (ground arith))
]

pub encrypt-AreWords : (key v : List ℕ) → AreWords v → AreWords (encrypt key v)
unfolding encrypt
encrypt-AreWords key v h = elim (Bool-cases (ltb 1 (length v))) [
  | inr few ↦ rw few h
  | inl more ↦ rw more (encode_rounds-AreWords key (rounds_of (length v)) 0 v h)
]

pub length-encrypt : (key v : List ℕ) → length (encrypt key v) ≡ length v
unfolding encrypt
length-encrypt key v = elim (Bool-cases (ltb 1 (length v))) [
  | inr few ↦ rw few refl
  | inl more ↦ rw more (length-encode_rounds key (rounds_of (length v)) 0 v)
]
