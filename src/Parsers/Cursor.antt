-- ===== src/Parsers/Cursor.antt =====
-- The state of `YackParser` and how it reads (include/engge/Parsers/YackParser.hpp,
-- src/Parsers/YackParser.cpp; the iterator is in src/Parsers/YackTokenReader.cpp). Every read seeks
-- first, so where `readText` leaves the stream does not matter, and is left out.
use engge.Base.{
  ℕ, ◌+◌, ◌-◌, ◌*◌, ◌^◌, ◌%◌, Bool, true, false, Option, none, some, List, [], ◌∷◌, Bytes, ltb,
  ◌==◌, if◌then◌else◌, length, take, drop,
}
use engge.Dialog.Ast.{ℤ, pos, negsuc}
use engge.Parsers.Stream.{seek}
use engge.Parsers.Tokens.{TokenId, Token, YackTokenReader, token_is, is_digit, read_token, text_of}

-- What a parser may throw: `std::domain_error`, `std::out_of_range` of `substr`, or the `assert` on
-- the line of a condition.
pub data ParseError : Type 0 where
  unknown_instruction : (identifier : Bytes) → ParseError
  out_of_range line_not_positive : ParseError

-- `hangs` is a call that does not return.
pub data Parsed {ℓ} (A : Type ℓ) : Type ℓ where
  ok : A → Parsed A
  throws : ParseError → Parsed A
  hangs : Parsed A

-- `_it` is a position and the token before it; `_reader` is shared with its copies.
pub record YackParser : Type 0 where
  pub reader : YackTokenReader
  pub pos : ℕ
  pub token : Token

abbrev pub Parse : Type 0 → Type 0
Parse A = YackParser → Parsed (A × YackParser)

infixl 5 ◌>>=◌ ◌>>◌
abbrev pub ◌>>=◌ : {A B : Type 0} → Parse A → (A → Parse B) → Parse B
◌>>=◌ m f p = elim (m p) [ ok (a, q) ↦ f a q | throws e ↦ throws e | hangs ↦ hangs ]

abbrev pub ◌>>◌ : {A B : Type 0} → Parse A → Parse B → Parse B
m >> n = m >>= λ _. n

abbrev pub pure : {A : Type 0} → A → Parse A
pure a p = ok (a, p)

abbrev pub throw : {A : Type 0} → ParseError → Parse A
throw e p = throws e

abbrev pub hang : {A : Type 0} → Parse A
hang p = hangs

-- `operator++` of an iterator at `at`: the reader, the next position and the token there.
unfoldable pub step : ℕ → YackTokenReader → Option (Token × YackTokenReader)
step at r = read_token (record r { stream = seek at r.stream })

-- `_it++`
unfoldable pub advance : Parse (Unit {0})
unfolding step
advance p = elim (step p.pos p.reader) [
  | none ↦ hangs
  | some (t, r) ↦ ok (tt, record { reader = r; pos = r.stream.offset; token = t })
]

-- `match`: the ids are those of the next tokens. The copy of the iterator is dropped, and what its
-- reads did to the reader stays.
unfoldable pub match_from :
    List TokenId → ℕ → Token → YackTokenReader → Option (Bool × YackTokenReader)
unfolding step
match_from [] at t r = some (true, r)
match_from (id ∷ ids) at t r =
    if token_is t.id id
    then elim (step at r) [ none ↦ none | some (t', r') ↦ match_from ids r'.stream.offset t' r' ]
    else some (false, r)

unfoldable pub match : List TokenId → Parse Bool
unfolding match_from
match ids p = elim (match_from ids p.pos p.token p.reader) [
  | none ↦ hangs
  | some (b, r) ↦ ok (b, record p { reader = r })
]

-- `_reader.readText(*_it)`
unfoldable pub token_text : Parse Bytes
token_text p = ok (text_of p.token p.reader.stream.input, p)

-- `_reader.readText(*_it++)`
unfoldable pub take_text : Parse Bytes
unfolding token_text advance
take_text = do text ← token_text; advance; pure text

-- `text.substr(from, count)`, which throws beyond the end of the text.
unfoldable pub substr : ℕ → ℕ → Bytes → Parse Bytes
substr from count text =
    if ltb (length text) from then throw out_of_range else pure (take count (drop from text))

-- `text.substr(1, text.length() - 2)`. The length wraps below zero, which takes all that is left.
unfoldable pub strip : Bytes → Parse Bytes
unfolding substr
strip text = substr 1 (if ltb (length text) 2 then length text else length text - 2) text

-- `text.substr(from)`
unfoldable pub substr_from : ℕ → Bytes → Parse Bytes
unfolding substr
substr_from from text = substr from (length text) text

-- The digits that a text starts with, behind those that make up `n`.
abbrev pub digits_from : ℕ → Bytes → ℕ
digits_from n [] = n
digits_from n (c ∷ cs) =
    let rest = digits_from (n * 10 + (c - b'0')) cs in if is_digit c then rest else n

-- An `int` from the low 32 bits of a number that is not negative, or of a negative one.
abbrev signed32 : ℕ → ℤ
signed32 w = if ltb w (2 ^ 31) then pos w else negsuc (2 ^ 32 - w - 1)

unfoldable pub to_int : Bool → ℕ → ℤ
to_int negative n =
    if negative then signed32 ((2 ^ 32 - n % 2 ^ 32) % 2 ^ 32) else signed32 (n % 2 ^ 32)

abbrev pub at_most : ℕ → ℕ → ℕ
at_most bound n = if ltb bound n then bound else n

-- `std::strtol(text, nullptr, 10)` of a text that does not start with a space, stored as an `int`:
-- the value stays within a `long` of 64 bits, and its low 32 bits are kept.
unfoldable pub strtol : Bytes → ℤ
unfolding to_int
strtol [] = pos 0
strtol (c ∷ cs) =
    if c == b'-'
    then to_int true (at_most (2 ^ 63) (digits_from 0 cs))
    else to_int false (at_most (2 ^ 63 - 1) (digits_from 0 (c ∷ cs)))
