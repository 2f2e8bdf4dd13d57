-- ===== src/Parsers/Yack.antt =====
-- The grammar of `YackParser` (src/Parsers/YackParser.cpp). The loops of `parse` and `parseLabel` take
-- fuel: they can run for ever.
use engge.Base.{
  ℕ, zero, suc, Bool, true, false, Option, none, some, List, [], ◌∷◌, ◌++◌, Bytes, bytes_eq, codes,
  ltb, if◌then◌else◌,
}
use engge.Dialog.Ast.{
  ℤ, Condition, code_condition, once_condition, show_once_condition, once_ever_condition,
  temp_once_condition, Expression, Statement, Label, CompilationUnit,
}
use engge.Parsers.Stream.{set_buffer}
use engge.Parsers.Tokens.{TokenId, YackTokenReader, token_is, get_line}
use engge.Parsers.Cursor.{
  unknown_instruction, line_not_positive, Parsed, ok, throws, hangs, Parse, ◌>>=◌, ◌>>◌, pure,
  throw, hang, step, advance, match, token_text, take_text, substr_from, strip, strtol,
}

-- `_it->id == id`
unfoldable pub token_id_is : TokenId → Parse Bool
token_id_is id p = ok (token_is p.token.id id, p)

-- `_reader.getLine(*_it++)`: the line is looked up once the next token is read.
unfoldable pub take_line : Parse ℕ
unfolding advance
take_line p = elim (advance p) [
  | ok (_, q) ↦ ok (get_line p.token q.reader, q)
  | throws e ↦ throws e
  | hangs ↦ hangs
]

unfoldable pub condition_of : Bytes → ℕ → Condition
condition_of text line =
    if bytes_eq text (codes "once")
    then once_condition line
    else if bytes_eq text (codes "showonce")
    then show_once_condition line
    else if bytes_eq text (codes "onceever")
    then once_ever_condition line
    else if bytes_eq text (codes "temponce")
    then temp_once_condition line
    else code_condition line text

unfoldable pub parse_condition : Parse Condition
unfolding token_text strip take_line condition_of
parse_condition = do
  text ← token_text
  condition_text ← strip text
  line ← take_line
  if ltb 0 line then pure (condition_of condition_text line) else throw line_not_positive

unfoldable pub parse_say_expression : Parse Expression
unfolding take_text advance strip
parse_say_expression = do
  actor ← take_text
  advance
  text ← take_text
  stripped ← strip text
  pure (Expression.say actor stripped)

unfoldable pub parse_wait_while_expression : Parse Expression
unfolding take_text substr_from
parse_wait_while_expression = do
  text ← take_text
  code ← substr_from 10 text
  pure (Expression.wait_while code)

-- An argument that is read only if the next token is of the kind.
unfoldable pub argument : TokenId → Parse (Option Bytes)
unfolding token_id_is take_text
argument id = do
  there ← token_id_is id
  if there then (do text ← take_text; pure (some text)) else pure none

abbrev or_empty : Option Bytes → Bytes
or_empty none = []
or_empty (some text) = text

-- Is the argument, if there is one, that word?
abbrev is_word : Bytes → Option Bytes → Bool
is_word word none = true
is_word word (some text) = bytes_eq text word

abbrev limit_of : Option Bytes → ℤ
limit_of none = ℤ.pos 0
limit_of (some text) = strtol text

unfoldable pub parse_instruction : Bytes → Parse Expression
unfolding argument take_text
parse_instruction id =
    if bytes_eq id (codes "shutup")
    then pure Expression.shutup
    else if bytes_eq id (codes "pause")
    then (do time ← take_text; pure (Expression.pause time))
    else if bytes_eq id (codes "waitfor")
    then (do a ← argument TokenId.identifier; pure (Expression.wait_for (or_empty a)))
    else if bytes_eq id (codes "parrot")
    then (do a ← argument TokenId.identifier; pure (Expression.parrot (is_word (codes "yes") a)))
    else if bytes_eq id (codes "dialog")
    then (do a ← argument TokenId.identifier; pure (Expression.dialog (or_empty a)))
    else if bytes_eq id (codes "override")
    then (do a ← argument TokenId.identifier; pure (Expression.override (or_empty a)))
    else if bytes_eq id (codes "allowobjects")
    then (do
      a ← argument TokenId.identifier
      pure (Expression.allow_objects (is_word (codes "YES") a)))
    else if bytes_eq id (codes "limit")
    then (do a ← argument TokenId.number; pure (Expression.limit (limit_of a)))
    else throw (unknown_instruction id)

unfoldable pub parse_instruction_expression : Parse Expression
unfolding take_text parse_instruction
parse_instruction_expression = do id ← take_text; parse_instruction id

-- The name of the label.
unfoldable pub parse_goto : Parse Bytes
unfolding advance take_text
parse_goto = do advance; take_text

unfoldable pub parse_goto_expression : Parse Expression
unfolding parse_goto
parse_goto_expression = do name ← parse_goto; pure (Expression.goto name)

unfoldable pub parse_code_expression : Parse Expression
unfolding take_text substr_from
parse_code_expression = do text ← take_text; code ← substr_from 1 text; pure (Expression.code code)

-- The text of a choice: a script variable as it stands, or a text without its quotes.
unfoldable pub choice_text : Parse Bytes
unfolding token_id_is token_text strip
choice_text = do
  dollar ← token_id_is TokenId.dollar
  text ← token_text
  if dollar then pure text else strip text

unfoldable pub parse_choice_expression : Parse Expression
unfolding take_text choice_text advance parse_goto
parse_choice_expression = do
  number ← take_text
  text ← choice_text
  advance
  name ← parse_goto
  pure (Expression.choice (strtol number) text name)

-- `if (match(ids)) return m;`
abbrev on_match :
    List TokenId → Parse Expression → Parse (Option Expression) → Parse (Option Expression)
on_match ids m otherwise = do b ← match ids; if b then (do e ← m; pure (some e)) else otherwise

-- `none` is the null pointer.
unfoldable pub parse_expression : Parse (Option Expression)
parse_expression =
    on_match (TokenId.identifier ∷ TokenId.colon ∷ TokenId.string ∷ []) parse_say_expression (
      on_match (TokenId.wait_while ∷ []) parse_wait_while_expression (
        on_match (TokenId.identifier ∷ []) parse_instruction_expression (
          on_match (TokenId.goto ∷ []) parse_goto_expression (
            on_match (TokenId.number ∷ []) parse_choice_expression
              (on_match (TokenId.code ∷ []) parse_code_expression (pure none))))))

-- `while (match({TokenId::Condition}))`
unfoldable pub parse_conditions : ℕ → List Condition → Parse (List Condition)
parse_conditions zero cs = hang
parse_conditions (suc fuel) cs = do
  b ← match (TokenId.condition ∷ [])
  elim b [ false ↦ pure cs | true ↦ do c ← parse_condition; parse_conditions fuel (cs ++ c ∷ []) ]

unfoldable pub parse_statement : ℕ → Parse Statement
unfolding parse_conditions
parse_statement fuel = do
  e ← parse_expression
  cs ← parse_conditions fuel []
  pure (record { expression = e; conditions = cs })

-- The loop of `parseLabel`.
unfoldable pub parse_statements : ℕ → List Statement → Parse (List Statement)
parse_statements zero sts = hang
parse_statements (suc fuel) sts = do
  colon ← match (TokenId.colon ∷ [])
  elim colon [
    | true ↦ pure sts
    | false ↦ do
      over ← match (TokenId.end ∷ [])
      elim over [
        | true ↦ pure sts
        | false ↦ do st ← parse_statement fuel; parse_statements fuel (sts ++ st ∷ [])
      ]
  ]

unfoldable pub parse_label : ℕ → Parse Label
unfolding advance take_text parse_statements
parse_label fuel = do
  advance
  name ← take_text
  sts ← parse_statements fuel []
  pure (record { name = name; statements = sts })

unfoldable pub parse_labels : ℕ → List Label → Parse (List Label)
parse_labels zero ls = hang
parse_labels (suc fuel) ls = do
  over ← match (TokenId.end ∷ [])
  elim over [ true ↦ pure ls | false ↦ do l ← parse_label fuel; parse_labels fuel (ls ++ l ∷ []) ]

-- A reader as it is loaded, and the parser that starts at its first token.
unfoldable pub load : Bytes → YackTokenReader
load buffer = record { stream = set_buffer buffer; lines = []; offset = none }

unfoldable pub parse : ℕ → Bytes → Parsed CompilationUnit
unfolding step load parse_labels
parse fuel buffer = elim (step 0 (load buffer)) [
  | none ↦ hangs
  | some (t, r) ↦
      elim (parse_labels fuel [] (record { reader = r; pos = r.stream.offset; token = t })) [
        | ok (ls, q) ↦ ok (record { labels = ls })
        | throws e ↦ throws e
        | hangs ↦ hangs
      ]
]
