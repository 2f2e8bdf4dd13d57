-- ===== src/Dialog/Ast.antt =====
-- The syntax tree of a dialog script (include/engge/Parsers/YackParser.hpp, namespace Ast). A class
-- that derives from `Expression` or `Condition` is a constructor; a `unique_ptr` that may be null is
-- an `Option`. Positions in the file (`Node::start`, `Node::end`) are never set, and left out.
use engge.Base.{ℕ, Bool, Option, List, Bytes}

-- An `int`, as its value.
pub data ℤ : Type 0 where
  pos : ℕ → ℤ
  negsuc : ℕ → ℤ

-- Each condition keeps the line of the file that it stands on.
pub data Condition : Type 0 where
  code_condition : (line : ℕ) → (code : Bytes) → Condition
  once_condition show_once_condition : (line : ℕ) → Condition
  once_ever_condition temp_once_condition : (line : ℕ) → Condition

-- `Choice` holds its `Goto`, which is never null, by the name of the label. The time of `Pause` is
-- kept as the text of its number.
pub data Expression : Type 0 where
  goto : (name : Bytes) → Expression
  code : (text : Bytes) → Expression
  choice : (number : ℤ) → (text : Bytes) → (goto_name : Bytes) → Expression
  say : (actor : Bytes) → (text : Bytes) → Expression
  pause : (time : Bytes) → Expression
  parrot : (active : Bool) → Expression
  dialog : (actor : Bytes) → Expression
  override : (node : Bytes) → Expression
  shutup : Expression
  allow_objects : (allow : Bool) → Expression
  limit : (max : ℤ) → Expression
  wait_while : (condition : Bytes) → Expression
  wait_for : (actor : Bytes) → Expression

pub record Statement : Type 0 where
  pub expression : Option Expression
  pub conditions : List Condition

pub record Label : Type 0 where
  pub name : Bytes
  pub statements : List Statement

pub record CompilationUnit : Type 0 where
  pub labels : List Label
