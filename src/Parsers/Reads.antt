-- ===== src/Parsers/Reads.antt =====
-- `YackTokenReader::readToken` as a whole, and its ends.
use engge.Base.{
  ℕ, zero, suc, ◌+◌, ◌-◌, ◌≤◌, ◌<◌, ◌≡◌, refl, ap, subst, ◌∙◌, ◌⊎◌, inl, inr, false, none, some, [],
  ◌∷◌, Bytes, ◌==◌, length, drop, any, length-drop, length-take, arith, Bool-cases, Option-cases,
}
use engge.Parsers.Stream.{Stream, eof, ahead, forward}
use engge.Parsers.Tokens.{
  TokenId, Token, YackTokenReader, condition_length, read_condition, read_token_at, read_token_id,
  read_token_loop, is_skipped, read_token, text_of,
}
use engge.Parsers.Spans.{Goes, Goes-end, Reads, read_token_id-Reads}

-- The place of a token that is read, between the reader before and the reader after.
pub record Spans (r : YackTokenReader) (t : Token) (r' : YackTokenReader) : Type 0 where
  pub input : r'.stream.input ≡ r.stream.input
  pub from : r.stream.offset ≤ t.start
  pub ordered : t.start ≤ t.end
  pub ends : r'.stream.offset ≡ t.end
  pub within : t.end ≤ length r.stream.input
  pub wanted : is_skipped t.id ≡ false
  pub grows : (t.id ≡ TokenId.end) ⊎ (t.start < t.end)

Spans-here :
    (r : YackTokenReader) (q : TokenId × YackTokenReader)
    → Reads r q
    → is_skipped q.0 ≡ false
    → Spans r (record { id = q.0; start = r.stream.offset; end = q.1.stream.offset }) q.1
Spans-here r q h e = record {
  input = h.goes.input;
  from = omega arith;
  ordered = h.goes.further;
  ends = refl;
  within = h.goes.within;
  wanted = e;
  grows = h.further;
}

Spans-later :
    {r q r' : YackTokenReader} {t : Token} → Goes r.stream q.stream → Spans q t r' → Spans r t r'
Spans-later {r} {q} {r'} {t} g h = record {
  input = h.input ∙ g.input;
  from = omega (arith, g.further, h.from);
  ordered = h.ordered;
  ends = h.ends;
  within = subst (λ i. t.end ≤ length i) g.input h.within;
  wanted = h.wanted;
  grows = h.grows;
}

read_token_loop-Spans :
    (fuel : ℕ) (r : YackTokenReader) (t : Token) (r' : YackTokenReader)
    → r.stream.offset ≤ length r.stream.input
    → read_token_loop fuel r ≡ some (t, r')
    → Spans r t r'
unfolding read_token_loop
read_token_loop-Spans zero r t r' k e = cc
read_token_loop-Spans (suc fuel) r t r' k e = elim (Option-cases (read_token_id r)) [
  | inl n ↦ cc (rw (n, read_token_loop) at e)
  | inr ((id, q), s) ↦
      let h = read_token_id-Reads r (id, q) k s in
      elim (Bool-cases (is_skipped id)) [
        | inl skip ↦ Spans-later h.goes (
            read_token_loop-Spans fuel q t r' (Goes-end h.goes)
              (rw (skip) at (rw (s, read_token_loop) at e)))
        | inr keep ↦
            let same : some (record { id = id; start = r.stream.offset; end = q.stream.offset }, q)
                ≡ some (t, r') =
              rw (keep) at (rw (s, read_token_loop) at e) in
            subst (λ (p : Token × YackTokenReader). Spans r p.0 p.1) (cc)
              (Spans-here r (id, q) h keep)
      ]
]

-- From a position in the buffer, the token that is read starts there or later and lies in the buffer,
-- the reader goes on behind it in the same buffer, the token is none of those that are passed over,
-- and it is not empty unless it is the end. Its text has the length of its span.
pub read_token-Spans :
    (r : YackTokenReader) (t : Token) (r' : YackTokenReader)
    → r.stream.offset ≤ length r.stream.input
    → read_token r ≡ some (t, r')
    → Spans r t r' × (length (text_of t r'.stream.input) ≡ t.end - t.start)
unfolding read_token text_of
read_token-Spans r t r' k e =
    let h = read_token_loop-Spans (suc (length r.stream.input)) r t r' k e in
    (
      h,
      rw (h.input) (
          omega (
            arith,
            length-take (t.end - t.start) (drop t.start r.stream.input),
            length-drop t.start r.stream.input,
            h.within,
          )),
    )

drop-suc : (n : ℕ) (xs : Bytes) (c : ℕ) (cs : Bytes) → drop n xs ≡ c ∷ cs → drop (n + 1) xs ≡ cs
drop-suc zero [] c cs e = cc
drop-suc zero (x ∷ xs) c cs e = cc
drop-suc (suc n) [] c cs e = cc
drop-suc (suc n) (x ∷ xs) c cs e =
    let same : suc n + 1 ≡ suc (n + 1) = omega arith in rw same (drop-suc n xs c cs e)

condition_length-none : (cs : Bytes) → any (λ c. c == b']') cs ≡ false → condition_length cs ≡ none
unfolding condition_length
condition_length-none [] h = refl
condition_length-none (c ∷ cs) h = ground (arith, condition_length-none cs)

ahead-forward : (s : Stream) (c : ℕ) (cs : Bytes) → ahead s ≡ c ∷ cs → ahead (forward 1 s) ≡ cs
ahead-forward s c cs e = drop-suc s.offset s.input c cs e

eof-forward :
    (s : Stream) (c : ℕ) (cs : Bytes) → ahead s ≡ c ∷ cs → eof (forward 1 s) ≡ (length cs == 0)
unfolding eof
eof-forward s c cs e = ground (arith, ap length e, length-drop s.offset s.input)

-- A `[` with no `]` behind it, if it is not the last byte, is where the reader loops for ever.
pub read_token_unclosed :
    (r : YackTokenReader) (c : ℕ) (cs : Bytes)
    → ahead r.stream ≡ b'[' ∷ c ∷ cs
    → any (λ d. d == b']') (c ∷ cs) ≡ false
    → read_token r ≡ none
unfolding read_token read_token_loop read_token_id read_token_at read_condition
read_token_unclosed r c cs e h =
    let short : eof (forward 1 r.stream) ≡ false =
      eof-forward r.stream b'[' (c ∷ cs) e ∙ ground arith in
    rw (e, read_token_loop, short)
      (rw (ahead-forward r.stream b'[' (c ∷ cs) e, condition_length-none (c ∷ cs) h) refl)

-- The last byte of the buffer is never read as a token, whatever it is: it is the end.
pub read_token_id_last :
    (r : YackTokenReader) (c : ℕ)
    → ahead r.stream ≡ c ∷ []
    → read_token_id r ≡ some (TokenId.end, record r { stream = forward 1 r.stream })
unfolding read_token_id
read_token_id_last r c e = rw (e, read_token_id, eof-forward r.stream c [] e) refl
