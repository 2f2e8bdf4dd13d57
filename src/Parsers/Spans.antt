-- ===== src/Parsers/Spans.antt =====
-- Where tokens lie in the buffer.
use engge.Base.{
  ℕ, ◌+◌, ◌-◌, ◌≤◌, ◌<◌, ◌≡◌, refl, sym, subst, ◌∙◌, ◌⊎◌, inl, inr, Bool, true, false, not, ◌&&◌,
  Option, none, some, [], ◌∷◌, Bytes, bytes_eq, codes, ◌==◌, if◌then◌else◌, length, take,
  length-drop, Gives, Gives-some, arith, Bool-cases, Option-cases,
}
use engge.Parsers.Stream.{
  Stream, seek, eof, ahead, first, peek, forward, past, ignore_past, count_while, ignore_while,
}
use engge.Parsers.Tokens.{
  with_id, with_stream, TokenId, YackTokenReader, code_length, dollar_length, condition_length,
  token_of_length, read_code, read_dollar, read_condition, skip_dot, read_number, read_comment,
  read_string, read_identifier, read_token_at, read_default, meet_new_line, find_line,
  read_token_id, is_digit, is_space, is_word,
}

code_length-le : (previous : ℕ) (cs : Bytes) → Gives (λ n. n ≤ length cs) (code_length previous cs)
unfolding code_length
code_length-le previous [] = tt
code_length-le previous (c ∷ cs) = ground (arith, code_length-le c cs)

dollar_length-le : (cs : Bytes) → Gives (λ n. n ≤ length cs) (dollar_length cs)
unfolding dollar_length
dollar_length-le [] = tt
dollar_length-le (c ∷ cs) = ground (arith, dollar_length-le cs)

condition_length-le : (cs : Bytes) → Gives (λ n. n ≤ length cs) (condition_length cs)
unfolding condition_length
condition_length-le [] = tt
condition_length-le (c ∷ cs) = ground (arith, condition_length-le cs)

count_while-le : (p : ℕ → Bool) (cs : Bytes) → count_while p cs ≤ length cs
count_while-le p [] = omega arith
count_while-le p (c ∷ cs) = ground (arith, count_while-le p cs)

past-le : (d : ℕ) (cs : Bytes) → past d cs ≤ length cs
past-le d [] = omega arith
past-le d (c ∷ cs) = ground (arith, past-le d cs)

past-pos : (d : ℕ) (cs : Bytes) → 0 < length cs → 0 < past d cs
past-pos d [] h = h
past-pos d (c ∷ cs) h = ground arith

-- The stream is further on, in the same buffer.
pub record Goes (s t : Stream) : Type 0 where
  pub input : t.input ≡ s.input
  pub further : s.offset ≤ t.offset
  pub within : t.offset ≤ length s.input

abbrev GoesTo : Stream → TokenId × Stream → Type 0
GoesTo s r = Goes s r.1

Goes-refl : (s : Stream) → s.offset ≤ length s.input → Goes s s
Goes-refl s h = ground arith

Goes-trans : {s t u : Stream} → Goes s t → Goes t u → Goes s u
Goes-trans {s} {t} {u} a b = record {
  input = b.input ∙ a.input;
  further = omega (arith, a.further, b.further);
  within = subst (λ i. u.offset ≤ length i) a.input b.within;
}

forward-Goes :
    (n : ℕ) (s : Stream) → n ≤ length (ahead s) → s.offset ≤ length s.input → Goes s (forward n s)
forward-Goes n s h k = record {
  input = refl;
  further = omega arith;
  within = omega (arith, length-drop s.offset s.input);
}

token_of_length-Goes :
    (id : TokenId) (o : Option ℕ) (s : Stream)
    → Gives (λ n. n ≤ length (ahead s)) o
    → s.offset ≤ length s.input
    → Gives (GoesTo s) (token_of_length id o s)
token_of_length-Goes id none s h k = tt
token_of_length-Goes id (some n) s h k = forward-Goes n s h k

read_code-Goes : (s : Stream) → s.offset ≤ length s.input → Gives (GoesTo s) (read_code s)
unfolding read_code
read_code-Goes s = token_of_length-Goes _ _ s (code_length-le 0 (ahead s))

read_dollar-Goes : (s : Stream) → s.offset ≤ length s.input → Gives (GoesTo s) (read_dollar s)
unfolding read_dollar
read_dollar-Goes s = token_of_length-Goes _ _ s (dollar_length-le (ahead s))

read_condition-Goes : (s : Stream) → s.offset ≤ length s.input → Gives (GoesTo s) (read_condition s)
unfolding read_condition
read_condition-Goes s = token_of_length-Goes _ _ s (condition_length-le (ahead s))

ignore_while-Goes :
    (p : ℕ → Bool) (s : Stream) → s.offset ≤ length s.input → Goes s (ignore_while p s)
unfolding ignore_while
ignore_while-Goes p s = forward-Goes _ s (count_while-le p (ahead s))

pub Goes-end : {s t : Stream} → Goes s t → t.offset ≤ length t.input
Goes-end {s} {t} g = subst (λ i. t.offset ≤ length i) (sym g.input) g.within

-- A byte that is not the one that stands for the end is ahead.
first-pos : (c : ℕ) (cs : Bytes) → c < 255 → (first cs == c) ≡ true → 1 ≤ length cs
first-pos c [] h e = ground arith
first-pos c (d ∷ cs) h e = omega arith

skip_dot-Goes : (s : Stream) → s.offset ≤ length s.input → Goes s (skip_dot s)
unfolding skip_dot peek
skip_dot-Goes s h = elim (Bool-cases (first (ahead s) == b'.')) [
  | inl e ↦ rw e (forward-Goes 1 s (first-pos b'.' (ahead s) (omega arith) e) h)
  | inr e ↦ rw e (Goes-refl s h)
]

read_number-Goes : (s : Stream) → s.offset ≤ length s.input → Gives (GoesTo s) (read_number s)
unfolding read_number
read_number-Goes s h =
    let a = ignore_while-Goes is_digit s h in
    let b = skip_dot-Goes (ignore_while is_digit s) (Goes-end a) in
    Goes-trans a (Goes-trans b (ignore_while-Goes is_digit _ (Goes-end b)))

read_string-Goes : (s : Stream) → s.offset ≤ length s.input → Gives (GoesTo s) (read_string s)
unfolding read_string ignore_past
read_string-Goes s h = forward-Goes _ s (past-le b'"' (ahead s)) h

read_comment-Goes : (s : Stream) → s.offset < length s.input → Gives (GoesTo s) (read_comment s)
unfolding read_comment ignore_past seek
read_comment-Goes s h = record {
  input = refl;
  further = omega (arith, past-pos b'\n' (ahead s), length-drop s.offset s.input);
  within = omega (arith, past-le b'\n' (ahead s), length-drop s.offset s.input);
}

word_end-Goes :
    (s t : Stream) (o : Option (TokenId × Stream))
    → Goes s t
    → Gives (GoesTo t) o
    → Gives (GoesTo s) (with_id TokenId.wait_while o)
word_end-Goes s t none a h = tt
word_end-Goes s t (some r) a h = Goes-trans a h

read_identifier-Goes :
    (c : ℕ) (s : Stream) → s.offset ≤ length s.input → Gives (GoesTo s) (read_identifier c s)
unfolding read_identifier
read_identifier-Goes c s h =
    let a = ignore_while-Goes is_word s h in
    elim (Bool-cases
      (bytes_eq (c ∷ take (count_while is_word (ahead s)) (ahead s)) (codes "waitwhile"))) [
        | inl e ↦
            rw e (word_end-Goes s (ignore_while is_word s) _ a (read_code-Goes _ (Goes-end a)))
        | inr e ↦ rw e a
      ]

arrow-Goes :
    (c : ℕ) (s : Stream)
    → s.offset ≤ length s.input
    → (c == b'-' && peek s == b'>') ≡ true
    → Goes s (forward 1 s)
unfolding peek
arrow-Goes c s k e = forward-Goes 1 s (first-pos b'>' (ahead s) (omega arith) (ground arith)) k

read_default-Goes :
    (c : ℕ) (s : Stream) (r : TokenId × Stream)
    → s.offset < length s.input
    → read_default c s ≡ some r
    → Goes s r.1
unfolding read_default
read_default-Goes c s r h e =
    let k : s.offset ≤ length s.input = omega arith in
    ground (
      arith,
      Gives-some (GoesTo s) (read_number s) {a = r} (read_number-Goes s k),
      Gives-some (GoesTo s) (read_identifier c s) {a = r} (read_identifier-Goes c s k),
      arrow-Goes c s k,
    )

read_token_at-Goes :
    (c : ℕ) (s : Stream) (r : TokenId × Stream)
    → s.offset < length s.input
    → read_token_at c s ≡ some r
    → Goes s r.1
unfolding read_token_at
read_token_at-Goes c s r h e =
    let k : s.offset ≤ length s.input = omega arith in
    ground (
      arith,
      ignore_while-Goes (λ d. is_space d && not (d == b'\n')) s k,
      Gives-some (GoesTo s) (read_code s) {a = r} (read_code-Goes s k),
      Gives-some (GoesTo s) (read_dollar s) {a = r} (read_dollar-Goes s k),
      Gives-some (GoesTo s) (read_condition s) {a = r} (read_condition-Goes s k),
      Gives-some (GoesTo s) (read_string s) {a = r} (read_string-Goes s k),
      Gives-some (GoesTo s) (read_comment s) {a = r} (read_comment-Goes s h),
      read_default-Goes c s r h,
    )

-- What `readTokenId` does to the reader: it goes on in the buffer, unless it is at the end.
pub record Reads (r : YackTokenReader) (result : TokenId × YackTokenReader) : Type 0 where
  pub goes : Goes r.stream result.1.stream
  pub further : (result.0 ≡ TokenId.end) ⊎ (r.stream.offset < result.1.stream.offset)

meet_new_line-stream : (r : YackTokenReader) → (meet_new_line r).stream ≡ r.stream
unfolding meet_new_line
meet_new_line-stream r = elim (Option-cases (find_line (r.stream.offset - 1) r.lines)) [
  | inl e ↦ rw (e, meet_new_line)
  | inr (v, e) ↦ rw (e, meet_new_line)
]

some_injective {ℓ} : {A : Type ℓ} {a b : A} → some a ≡ some b → a ≡ b
some_injective e = cc

with_stream-Reads :
    (r : YackTokenReader) (o : Option (TokenId × Stream)) (q : TokenId × YackTokenReader)
    → ((t : TokenId × Stream) → o ≡ some t → Goes (forward 1 r.stream) t.1)
    → Goes r.stream (forward 1 r.stream)
    → with_stream r o ≡ some q
    → Reads r q
with_stream-Reads r none q h g e = cc
with_stream-Reads r (some (id, s)) q h g e =
    let k = h (id, s) refl in
    let read : Reads r (id, record r { stream = s }) = record {
      goes = Goes-trans g k;
      further = inr (omega (arith, k.further));
    } in
    subst (Reads r) (cc) read

eof-short :
    (r : YackTokenReader)
    → 1 ≤ length (ahead r.stream)
    → eof (forward 1 r.stream) ≡ false
    → r.stream.offset + 1 < length r.stream.input
unfolding eof
eof-short r h e = ground (arith, length-drop r.stream.offset r.stream.input)

read_new_line-Reads :
    (r : YackTokenReader)
    → Goes r.stream (forward 1 r.stream)
    → Reads r (TokenId.new_line, meet_new_line (record r { stream = forward 1 r.stream }))
read_new_line-Reads r g =
    let e = meet_new_line-stream (record r { stream = forward 1 r.stream }) in
    record { goes = subst (Goes r.stream) (sym e) g; further = inr (rw e (omega arith)) }

read_byte-Reads :
    (r : YackTokenReader) (c : ℕ) (q : TokenId × YackTokenReader)
    → Goes r.stream (forward 1 r.stream)
    → 1 ≤ length (ahead r.stream)
    → (if eof (forward 1 r.stream)
        then some (TokenId.end, record r { stream = forward 1 r.stream })
        else if c == b'\n'
        then some (TokenId.new_line, meet_new_line (record r { stream = forward 1 r.stream }))
        else with_stream r (read_token_at c (forward 1 r.stream)))
      ≡ some q
    → Reads r q
read_byte-Reads r c q g h e = elim (Bool-cases (eof (forward 1 r.stream))) [
  | inl over ↦
      subst (Reads r) (some_injective (rw over at e)) (record { goes = g; further = inl refl })
  | inr short ↦ elim (Bool-cases (c == b'\n')) [
    | inl nl ↦ subst (Reads r) (some_injective (rw (short, nl) at e)) (read_new_line-Reads r g)
    | inr other ↦
        with_stream-Reads r (read_token_at c (forward 1 r.stream)) q
          (λ t. read_token_at-Goes c (forward 1 r.stream) t (eof-short r h short)) g
          (rw (short, other) at e)
  ]
]

read_token_id-ahead :
    (r : YackTokenReader) (cs : Bytes) (q : TokenId × YackTokenReader)
    → ahead r.stream ≡ cs
    → r.stream.offset ≤ length r.stream.input
    → read_token_id r ≡ some q
    → Reads r q
unfolding read_token_id
read_token_id-ahead r [] q e k f =
    subst (Reads r) (some_injective (rw (e, read_token_id) at f))
      (record { goes = Goes-refl r.stream k; further = inl refl })
read_token_id-ahead r (c ∷ cs) q e k f =
    let h : 1 ≤ length (ahead r.stream) = rw e (omega arith) in
    read_byte-Reads r c q (forward-Goes 1 r.stream h k) h (rw (e, read_token_id) at f)

-- Reading a token id stays in the buffer and goes on in it, or is at the end.
pub read_token_id-Reads :
    (r : YackTokenReader) (q : TokenId × YackTokenReader)
    → r.stream.offset ≤ length r.stream.input
    → read_token_id r ≡ some q
    → Reads r q
read_token_id-Reads r q = read_token_id-ahead r (ahead r.stream) q refl
