-- ===== src/Util/BteaCrypto.antt =====
-- `BTEACrypto` (include/engge/Util/BTEACrypto.hpp, src/Util/BTEACrypto.cpp): XXTEA over words of 32
-- bits. The count `n` of the source is the length of the list, which the coder changes in place: a
-- pass over the words is a recursion on the list. Words keep their wrap-around.
pub mod RoundTrip
use Prim.Native.Nat.{bit_and, bit_xor}
use engge.Base.{
  ℕ, zero, suc, ◌+◌, ◌-◌, ◌*◌, ◌/◌, ◌%◌, ◌^◌, List, [], ◌∷◌, length, ltb, if◌then◌else◌,
}

abbrev pub word : ℕ
word = 2 ^ 32

abbrev pub delta : ℕ
delta = 0x9e3779b9

abbrev pub add_word : ℕ → ℕ → ℕ
add_word a b = (a + b) % word

abbrev pub sub_word : ℕ → ℕ → ℕ
sub_word a b = (a + word - b % word) % word

-- `key[i]` for the four words of a key.
abbrev pub get_or_zero : List ℕ → ℕ → ℕ
get_or_zero [] i = 0
get_or_zero (k ∷ ks) zero = k
get_or_zero (k ∷ ks) (suc i) = get_or_zero ks i

-- `MX`: `(((z >> 5 ^ y << 2) + (y >> 3 ^ z << 4)) ^ ((sum ^ y) + (key[(p & 3) ^ e] ^ z)))`
unfoldable pub mx : List ℕ → ℕ → ℕ → ℕ → ℕ → ℕ → ℕ
mx key sum e p y z =
    bit_xor
      (add_word (bit_xor (z / 2 ^ 5) (y * 2 ^ 2 % word)) (bit_xor (y / 2 ^ 3) (z * 2 ^ 4 % word)))
      (add_word (bit_xor sum y) (bit_xor (get_or_zero key (bit_xor (bit_and p 3) e)) z))

-- `(sum >> 2) & 3`
abbrev pub e_of : ℕ → ℕ
e_of sum = bit_and (sum / 2 ^ 2) 3

-- The last of the words `x ∷ xs`.
abbrev pub last : ℕ → List ℕ → ℕ
last x [] = x
last x (y ∷ ys) = last y ys

-- The words from `v[p]` on, in the `for` of the coding part and behind it: `z` is the word before,
-- coded, and `first` is `v[0]`, coded.
unfoldable pub encode_from : List ℕ → ℕ → ℕ → ℕ → ℕ → List ℕ → List ℕ
encode_from key sum first p z [] = []
encode_from key sum first p z (x ∷ []) = add_word x (mx key sum (e_of sum) p first z) ∷ []
encode_from key sum first p z (x ∷ y ∷ ys) =
    let x' = add_word x (mx key sum (e_of sum) p y z) in
    x' ∷ encode_from key sum first (suc p) x' (y ∷ ys)

-- One round of the coding part. `z` is `v[n - 1]` when a round starts.
unfoldable pub encode_round : List ℕ → ℕ → List ℕ → List ℕ
unfolding encode_from
encode_round key sum (x ∷ y ∷ ys) =
    let x' = add_word x (mx key sum (e_of sum) 0 y (last y ys)) in
    x' ∷ encode_from key sum x' 1 x' (y ∷ ys)
encode_round key sum v = v

-- `do { sum += DELTA; … } while (--rounds)`
unfoldable pub encode_rounds : List ℕ → ℕ → ℕ → List ℕ → List ℕ
encode_rounds key zero sum v = v
encode_rounds key (suc rounds) sum v =
    encode_rounds key rounds (add_word sum delta) (encode_round key (add_word sum delta) v)

-- The first word of a list, or the word that comes round to its end.
abbrev pub first_of : ℕ → List ℕ → ℕ
first_of first [] = first
first_of first (y ∷ ys) = y

-- The words from `v[p]` on, in the `for` of the decoding part, which runs from the last: `z` is the
-- word before, still coded, and `first` is `v[0]`, still coded.
unfoldable pub decode_from : List ℕ → ℕ → ℕ → ℕ → ℕ → List ℕ → List ℕ
decode_from key sum first p z [] = []
decode_from key sum first p z (x ∷ xs) =
    let xs' = decode_from key sum first (suc p) x xs in
    sub_word x (mx key sum (e_of sum) p (first_of first xs') z) ∷ xs'

unfoldable pub decode_round : List ℕ → ℕ → List ℕ → List ℕ
unfolding decode_from
decode_round key sum [] = []
decode_round key sum (x ∷ xs) =
    let xs' = decode_from key sum x 1 x xs in
    sub_word x (mx key sum (e_of sum) 0 (first_of x xs') (last x xs')) ∷ xs'

-- `do { …; sum -= DELTA; } while (--rounds)`
unfoldable pub decode_rounds : List ℕ → ℕ → ℕ → List ℕ → List ℕ
decode_rounds key zero sum v = v
decode_rounds key (suc rounds) sum v =
    decode_rounds key rounds (sub_word sum delta) (decode_round key sum v)

abbrev pub rounds_of : ℕ → ℕ
rounds_of n = 6 + 52 / n

unfoldable pub encrypt : List ℕ → List ℕ → List ℕ
encrypt key v = if ltb 1 (length v) then encode_rounds key (rounds_of (length v)) 0 v else v

unfoldable pub decrypt : List ℕ → List ℕ → List ℕ
decrypt key v =
    if ltb 1 (length v)
    then decode_rounds key (rounds_of (length v)) (rounds_of (length v) * delta % word) v
    else v
