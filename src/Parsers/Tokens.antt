-- ===== src/Parsers/Tokens.antt =====
-- `YackTokenReader` (include/engge/Parsers/YackTokenReader.hpp, src/Parsers/YackTokenReader.cpp).
-- `none` is a loop that does not end: `peek` at the end of the buffer is neither a newline nor a zero
-- byte nor a bracket, and `ignore` stays there.
use engge.Base.{
  ℕ, zero, suc, ◌+◌, ◌-◌, Bool, true, not, ◌&&◌, ◌||◌, Option, none, some, List, [], ◌∷◌, Bytes,
  bytes_eq, codes, ltb, leb, ◌==◌, if◌then◌else◌, length, take, drop,
}
use engge.Parsers.Stream.{
  Stream, seek, eof, ahead, first, peek, forward, ignore_past, count_while, ignore_while,
}

pub data TokenId : Type 0 where
  no_token new_line identifier wait_while number whitespace colon condition : TokenId
  string assign comment goto code dollar end : TokenId

-- The enumerators' values, by which `==` compares them.
abbrev pub token_value : TokenId → ℕ
token_value no_token = 0
token_value new_line = 1
token_value identifier = 2
token_value wait_while = 3
token_value number = 4
token_value whitespace = 5
token_value colon = 6
token_value condition = 7
token_value string = 8
token_value assign = 9
token_value comment = 10
token_value goto = 11
token_value code = 12
token_value dollar = 13
token_value end = 14

abbrev pub token_is : TokenId → TokenId → Bool
token_is a b = token_value a == token_value b

pub record Token : Type 0 where
  pub id : TokenId
  pub start : ℕ
  pub end : ℕ

-- `lines` is the map from the offset of a newline to its number, in the order of the offsets, and
-- `offset` the last newline that was met, if any.
pub record YackTokenReader : Type 0 where
  pub stream : Stream
  pub lines : List (ℕ × ℕ)
  pub offset : Option ℕ

-- `isspace`, `isdigit`, `isalpha` and `isalnum` of the C locale.
abbrev within : ℕ → ℕ → ℕ → Bool
within lo hi c = leb lo c && leb c hi

abbrev pub is_space : ℕ → Bool
is_space c = c == b' ' || within 9 13 c

abbrev pub is_digit : ℕ → Bool
is_digit c = within b'0' b'9' c

abbrev pub is_alpha : ℕ → Bool
is_alpha c = within b'a' b'z' c || within b'A' b'Z' c

abbrev pub is_alnum : ℕ → Bool
is_alnum c = is_alpha c || is_digit c

-- The loop of `readCode`: how far it goes. A `[` behind a space ends it, but not one before a space.
unfoldable pub code_length : ℕ → Bytes → Option ℕ
code_length previous [] = none
code_length previous (c ∷ cs) =
    let rest = code_length c cs in
    if c == b'\n' || c == 0
    then some 0
    else if previous == b' ' && c == b'[' && not (first cs == b' ')
    then some 0
    else elim rest [ none ↦ none | some n ↦ some (suc n) ]

-- The loop of `readDollar`.
unfoldable pub dollar_length : Bytes → Option ℕ
dollar_length [] = none
dollar_length (c ∷ cs) =
    let rest = dollar_length cs in
    if c == b'[' || c == b' ' || c == b'\n' || c == 0
    then some 0
    else elim rest [ none ↦ none | some n ↦ some (suc n) ]

-- The loop of `readCondition` and the `ignore` behind it.
unfoldable pub condition_length : Bytes → Option ℕ
condition_length [] = none
condition_length (c ∷ cs) =
    let rest = condition_length cs in
    if c == b']' then some 1 else elim rest [ none ↦ none | some n ↦ some (suc n) ]

-- A token whose loop goes so far, or does not end.
abbrev pub token_of_length : TokenId → Option ℕ → Stream → Option (TokenId × Stream)
token_of_length id none s = none
token_of_length id (some n) s = some (id, forward n s)

unfoldable pub read_code : Stream → Option (TokenId × Stream)
unfolding code_length
read_code s = token_of_length code (code_length 0 (ahead s)) s

unfoldable pub read_dollar : Stream → Option (TokenId × Stream)
unfolding dollar_length
read_dollar s = token_of_length dollar (dollar_length (ahead s)) s

unfoldable pub read_condition : Stream → Option (TokenId × Stream)
unfolding condition_length
read_condition s = token_of_length condition (condition_length (ahead s)) s

unfoldable pub skip_dot : Stream → Stream
skip_dot s = if peek s == b'.' then forward 1 s else s

unfoldable pub read_number : Stream → Option (TokenId × Stream)
unfolding ignore_while skip_dot
read_number s = some (number, ignore_while is_digit (skip_dot (ignore_while is_digit s)))

-- The newline is not part of the comment. Without one the last byte of the buffer is not.
unfoldable pub read_comment : Stream → Option (TokenId × Stream)
unfolding ignore_past
read_comment s = let t = ignore_past b'\n' s in some (comment, seek (t.offset - 1) t)

unfoldable pub read_string : Stream → Option (TokenId × Stream)
unfolding ignore_past
read_string s = some (string, ignore_past b'"' s)

-- The stream behind a token that is found, under another id.
abbrev pub with_id : TokenId → Option (TokenId × Stream) → Option (TokenId × Stream)
with_id id none = none
with_id id (some r) = some (id, r.1)

abbrev pub is_word : ℕ → Bool
is_word c = is_alnum c || c == b'_'

-- `c` is the first byte, which is read.
unfoldable pub read_identifier : ℕ → Stream → Option (TokenId × Stream)
unfolding ignore_while
read_identifier c s =
    let rest = take (count_while is_word (ahead s)) (ahead s) in
    let t = ignore_while is_word s in
    if bytes_eq (c ∷ rest) (codes "waitwhile")
    then with_id wait_while (read_code t)
    else some (identifier, t)

-- The `default` case of the `switch`.
unfoldable pub read_default : ℕ → Stream → Option (TokenId × Stream)
read_default c s =
    if c == b'-' && peek s == b'>'
    then some (goto, forward 1 s)
    else if c == b'-' || is_digit c
    then read_number s
    else if is_alpha c
    then read_identifier c s
    else some (no_token, s)

-- The `switch` of `readTokenId` but for newlines: `c` is read, and the end is not reached.
unfoldable pub read_token_at : ℕ → Stream → Option (TokenId × Stream)
unfolding ignore_while
read_token_at c s =
    if c == 0
    then some (end, s)
    else if c == b'\t' || c == b' '
    then some (whitespace, ignore_while (λ d. is_space d && not (d == b'\n')) s)
    else if c == b'!'
    then read_code s
    else if c == b':'
    then some (colon, s)
    else if c == b'$'
    then read_dollar s
    else if c == b'['
    then read_condition s
    else if c == b'='
    then some (assign, s)
    else if c == b'"'
    then read_string s
    else if c == b'#' || c == b';'
    then read_comment s
    else read_default c s

-- `_lines.find(key)`
unfoldable pub find_line : ℕ → List (ℕ × ℕ) → Option ℕ
find_line key [] = none
find_line key ((k, v) ∷ ls) = if k == key then some v else find_line key ls

-- `_lines[key] = line`, for a key that is not there.
unfoldable pub insert_line : ℕ → ℕ → List (ℕ × ℕ) → List (ℕ × ℕ)
insert_line key line [] = (key, line) ∷ []
insert_line key line ((k, v) ∷ ls) =
    if ltb key k then (key, line) ∷ (k, v) ∷ ls else (k, v) ∷ insert_line key line ls

-- `_offset == -1 ? 1 : _lines[_offset] + 1`
unfoldable pub next_line : Option ℕ → List (ℕ × ℕ) → ℕ
unfolding find_line
next_line none lines = 1
next_line (some o) lines = elim (find_line o lines) [ none ↦ 1 | some v ↦ v + 1 ]

-- `case '\n'`, behind the newline.
unfoldable pub meet_new_line : YackTokenReader → YackTokenReader
unfolding find_line insert_line next_line
meet_new_line r =
    let at = r.stream.offset - 1 in
    elim (find_line at r.lines) [
      | some v ↦ r
      | none ↦ record r {
        lines = insert_line at (next_line r.offset r.lines) r.lines;
        offset = some at;
      }
    ]

abbrev pub with_stream :
    YackTokenReader → Option (TokenId × Stream) → Option (TokenId × YackTokenReader)
with_stream r none = none
with_stream r (some (id, s)) = some (id, record r { stream = s })

-- `_stream.eof()` behind the read of the last byte is the end, too.
unfoldable pub read_token_id : YackTokenReader → Option (TokenId × YackTokenReader)
unfolding eof
read_token_id r = elim (ahead r.stream) [
  | [] ↦ some (end, r)
  | c ∷ cs ↦
      let s = forward 1 r.stream in
      if eof s
      then some (end, record r { stream = s })
      else if c == b'\n'
      then some (new_line, meet_new_line (record r { stream = s }))
      else with_stream r (read_token_at c s)
]

-- The tokens that `readToken` passes over.
abbrev pub is_skipped : TokenId → Bool
is_skipped id =
    token_is id whitespace || token_is id comment || token_is id new_line || token_is id no_token

-- The loop of `readToken`. Each round goes on in the buffer.
unfoldable pub read_token_loop : ℕ → YackTokenReader → Option (Token × YackTokenReader)
unfolding read_token_id
read_token_loop zero r = none
read_token_loop (suc fuel) r = elim (read_token_id r) [
  | none ↦ none
  | some (id, r') ↦
      let rest = read_token_loop fuel r' in
      let token : Token = record { id = id; start = r.stream.offset; end = r'.stream.offset } in
      if is_skipped id then rest else some (token, r')
]

unfoldable pub read_token : YackTokenReader → Option (Token × YackTokenReader)
unfolding read_token_loop
read_token r = read_token_loop (suc (length r.stream.input)) r

-- `readText` of a token, and where it leaves the stream.
unfoldable pub text_of : Token → Bytes → Bytes
text_of t input = take (t.end - t.start) (drop t.start input)

-- `getLine`: `previous` is the offset of the newline before, if any, and `line` its number.
unfoldable pub find_line_of : ℕ → Option ℕ → Option ℕ → List (ℕ × ℕ) → ℕ
find_line_of at previous line [] = elim line [ none ↦ 0 | some v ↦ v + 1 ]
find_line_of at previous line ((k, v) ∷ ls) =
    let behind : Bool = elim previous [ none ↦ true | some o ↦ ltb o at ] in
    if behind && ltb at k then v else find_line_of at (some k) (some v) ls

unfoldable pub get_line : Token → YackTokenReader → ℕ
unfolding find_line_of
get_line t r = find_line_of t.start none none r.lines
