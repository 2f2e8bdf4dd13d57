-- ===== src/Parsers/Stream.antt =====
-- `GGPackBufferStream` (include/engge/Parsers/GGPackBufferStream.hpp,
-- src/Parsers/GGPackBufferStream.cpp): a position in a buffer of bytes. A `char` is its byte; `EOF`
-- as a `char` is the byte 255.
use engge.Base.{
  ℕ, suc, ◌+◌, Bool, Option, none, some, [], ◌∷◌, Bytes, ◌==◌, if◌then◌else◌, length, drop,
}

pub record Stream : Type 0 where
  pub input : Bytes
  pub offset : ℕ

unfoldable pub set_buffer : Bytes → Stream
set_buffer input = record { input = input; offset = 0 }

unfoldable pub seek : ℕ → Stream → Stream
seek pos s = record s { offset = pos }

unfoldable pub get_length : Stream → ℕ
get_length s = length s.input

unfoldable pub eof : Stream → Bool
eof s = s.offset == length s.input

-- The bytes ahead.
abbrev pub ahead : Stream → Bytes
ahead s = drop s.offset s.input

-- The first of the bytes ahead, as `peek` gives it.
abbrev pub first : Bytes → ℕ
first [] = 255
first (c ∷ cs) = c

unfoldable pub peek : Stream → ℕ
peek s = first (ahead s)

abbrev pub forward : ℕ → Stream → Stream
forward n s = record s { offset = s.offset + n }

-- `read(&c, 1)`: the byte, or `none` where nothing is read and the position stays.
unfoldable pub read : Stream → Option ℕ × Stream
read s = elim (ahead s) [ [] ↦ (none, s) | c ∷ cs ↦ (some c, forward 1 s) ]

-- How far `ignore` goes without a limit: past the delimiter, or to the end.
abbrev pub past : ℕ → Bytes → ℕ
past delim [] = 0
past delim (c ∷ cs) = if c == delim then 1 else suc (past delim cs)

unfoldable pub ignore_past : ℕ → Stream → Stream
ignore_past delim s = forward (past delim (ahead s)) s

-- `while (p(peek())) ignore();` where `p` fails at the end of the buffer.
abbrev pub count_while : (ℕ → Bool) → Bytes → ℕ
count_while p [] = 0
count_while p (c ∷ cs) = if p c then suc (count_while p cs) else 0

unfoldable pub ignore_while : (ℕ → Bool) → Stream → Stream
ignore_while p s = forward (count_while p (ahead s)) s
