-- ===== src/Engine/TextDatabase.antt =====
-- `TextDatabase` (src/Engine/TextDatabase.cpp). What the C++ library makes of a line is a parameter:
-- `convert` gives its wide units, `none` where it throws, and `parse` is the regular expression with the
-- conversion of the number, `none` where it does not match.
pub mod Loading
use engge.Base.{
  ℕ, zero, suc, ◌+◌, Bool, true, false, Option, none, some, List, [], ◌∷◌, ◌++◌, Bytes, codes, ◌==◌,
  if◌then◌else◌, length,
}
use engge.Base.Outcome.{Outcome, done, unfinished, ◌>>=◌}
use engge.Parsers.Stream.{Stream, set_buffer}
use engge.Util.Lines.{get_line_of}
use engge.Util.Strings.{replace_all}

-- `std::map`, as the list of its entries.
pub record TextDatabase : Type 0 where
  pub texts : List (ℕ × Bytes)

-- `_texts.find(id)`
unfoldable pub find_text : ℕ → List (ℕ × Bytes) → Option Bytes
find_text id [] = none
find_text id ((i, text) ∷ texts) =
    let rest = find_text id texts in if i == id then some text else rest

-- `insert`, which keeps what is there.
unfoldable pub insert_text : ℕ → Bytes → List (ℕ × Bytes) → List (ℕ × Bytes)
unfolding find_text
insert_text id text texts = elim (find_text id texts) [
  | none ↦ texts ++ (id, text) ∷ []
  | some old ↦ texts
]

-- What the loop does with a line.
unfoldable pub insert_line :
    (Bytes → Option (ℕ × Bytes)) → Bytes → List (ℕ × Bytes) → List (ℕ × Bytes)
unfolding insert_text
insert_line parse line texts = elim (parse line) [
  | none ↦ texts
  | some (id, text) ↦ insert_text id text texts
]

-- `while (getLine(input, line))`
unfoldable pub load_lines :
    (Bytes → Option Bytes)
    → (Bytes → Option (ℕ × Bytes))
    → ℕ
    → Stream
    → List (ℕ × Bytes)
    → Outcome (List (ℕ × Bytes))
unfolding get_line_of insert_line
load_lines convert parse zero s texts = unfinished
load_lines convert parse (suc fuel) s texts = get_line_of convert s >>= λ (more, line, t).
    let rest = load_lines convert parse fuel t (insert_line parse line texts) in
    if more then rest else done texts

-- `load`, once the file is read.
unfoldable pub load_texts :
    (Bytes → Option Bytes)
    → (Bytes → Option (ℕ × Bytes))
    → Bytes
    → TextDatabase
    → Outcome TextDatabase
unfolding load_lines set_buffer
load_texts convert parse buffer d =
    load_lines convert parse (suc (length buffer)) (set_buffer buffer) [] >>= λ texts.
    done (record { texts = texts })

-- `getText` of an identifier, with `\"` (92 and 34) made `"`.
unfoldable pub get_text : ℕ → TextDatabase → Outcome Bytes
unfolding find_text replace_all
get_text id d = elim (find_text id d.texts) [
  | none ↦ done []
  | some text ↦ replace_all (suc (length text)) text (92 ∷ 34 ∷ []) (34 ∷ [])
]
