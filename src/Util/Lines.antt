-- ===== src/Util/Lines.antt =====
-- `getLine` of src/Util/Util.cpp, from a `GGPackBufferStream`.
use engge.Base.{
  ℕ, suc, ◌+◌, Option, none, some, Bool, ◌||◌, [], ◌∷◌, Bytes, ltb, ◌==◌, if◌then◌else◌,
}
use engge.Base.Outcome.{Outcome, done, fault, unfinished, ◌>>=◌}
use engge.Parsers.Stream.{Stream, get_length, ahead, forward}

-- The bytes before the first newline or zero, and how many were read. At the end of the buffer nothing
-- is read, and the byte before is appended for ever.
unfoldable pub line_of : Bytes → Outcome (Bytes × ℕ)
line_of [] = unfinished
line_of (c ∷ cs) =
    let rest = line_of cs >>= λ (line, n). done (c ∷ line, suc n) in
    if c == 0 || c == 10 then done ([], 1) else rest

-- The answer, whether bytes are left, with the line in wide units. `convert` is `from_bytes` of the C++
-- library, which throws where the line is not UTF-8. If the first read reads nothing, its byte has no
-- value.
unfoldable pub get_line_of : (Bytes → Option Bytes) → Stream → Outcome (Bool × Bytes × Stream)
unfolding line_of get_length
get_line_of convert s = elim (ahead s) [
  | [] ↦ fault
  | c ∷ cs ↦ line_of (c ∷ cs) >>= λ (line, n). elim (convert line) [
    | none ↦ fault
    | some wide ↦ done (ltb (s.offset + n) (get_length s), wide, forward n s)
  ]
]
