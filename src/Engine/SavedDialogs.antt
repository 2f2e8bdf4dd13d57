-- ===== src/Engine/SavedDialogs.antt =====
-- What the save files keep of the memory of dialogs: `saveDialogs`, `loadDialog` and `parseState` of
-- `Engine::Impl::SaveGameSystem` (src/Engine/EngineImpl.hpp). A hash of ngf is the list of what is
-- assigned to it; the entries of the settings are a parameter.
pub mod Names
pub mod Numbers
pub mod Keys
pub mod RoundTrip
use engge.Base.{
  ℕ, zero, suc, ◌+◌, ◌-◌, ◌/◌, ◌%◌, ◌^◌, Bool, not, Option, none, some, List, [], ◌∷◌, ◌++◌, Bytes,
  codes, ltb, ◌==◌, if◌then◌else◌,
}
use engge.Base.Outcome.{Outcome, done, fault, ◌>>=◌}
use engge.Dialog.States.{DialogConditionMode, DialogConditionState}
use engge.Parsers.Cursor.{digits_from, at_most}
use engge.Parsers.Tokens.{is_digit}

-- The decimal digits of a number of at most one digit more than the fuel.
unfoldable pub decimal : ℕ → ℕ → Bytes
decimal zero n = (b'0' + n % 10) ∷ []
decimal (suc f) n = if ltb n 10 then (b'0' + n) ∷ [] else decimal f (n / 10) ++ (b'0' + n % 10) ∷ []

-- `s << line` of an `int`, which is given by its 32 bits.
unfoldable pub print_line : ℕ → Bytes
unfolding decimal
print_line line = if ltb line (2 ^ 31) then decimal 10 line else b'-' ∷ decimal 10 (2 ^ 32 - line)

-- The first byte of the key; `temp_once` is not saved.
unfoldable pub mark_of : DialogConditionMode → Option ℕ
mark_of DialogConditionMode.once = some b'?'
mark_of DialogConditionMode.show_once = some b'#'
mark_of DialogConditionMode.once_ever = some b'&'
mark_of DialogConditionMode.show_once_ever = some b'$'
mark_of DialogConditionMode.temp_once = none

abbrev value_of : DialogConditionMode → ℕ
value_of DialogConditionMode.show_once = 2
value_of _ = 1

unfoldable pub key_of : ℕ → DialogConditionState → Bytes
unfolding print_line
key_of mark s = mark ∷ (s.dialog ++ (print_line s.line ++ s.actor_key))

-- `saveDialogs`: the keys and the values that are assigned.
unfoldable pub save_dialogs : List DialogConditionState → List (Bytes × ℕ)
unfolding mark_of key_of
save_dialogs [] = []
save_dialogs (s ∷ ss) = elim (mark_of s.mode) [
  | none ↦ save_dialogs ss
  | some mark ↦ (key_of mark s, value_of s.mode) ∷ save_dialogs ss
]

-- The mode of a state stays without a value behind any other byte.
unfoldable pub mode_of : ℕ → Option DialogConditionMode
mode_of c =
    if c == b'?'
    then some DialogConditionMode.once
    else if c == b'#'
    then some DialogConditionMode.show_once
    else if c == b'&'
    then some DialogConditionMode.once_ever
    else if c == b'$'
    then some DialogConditionMode.show_once_ever
    else if c == b'^'
    then some DialogConditionMode.temp_once
    else none

-- The bytes before the first of a kind, and the bytes from it on.
unfoldable pub split_while : (ℕ → Bool) → Bytes → Bytes × Bytes
split_while p [] = ([], [])
split_while p (c ∷ cs) =
    let (before, behind) = split_while p cs in if p c then (c ∷ before, behind) else ([], c ∷ cs)

-- The loop that goes on until the name is that of a dialog; `at` throws at the end.
unfoldable pub grow_name : (Bytes → Bool) → Bytes → Bytes → Outcome (Bytes × Bytes)
grow_name has_entry name [] = if has_entry (name ++ codes ".byack") then done (name, []) else fault
grow_name has_entry name (c ∷ cs) =
    let more = grow_name has_entry (name ++ c ∷ []) cs in
    if has_entry (name ++ codes ".byack") then done (name, c ∷ cs) else more

-- The number and the actor behind the name of the dialog.
unfoldable pub parse_line : DialogConditionMode → Bytes → Bytes → DialogConditionState
parse_line mode dialog rest =
    let (num, actor_key) = split_while is_digit rest in
    record {
      mode = mode;
      actor_key = actor_key;
      dialog = dialog;
      line = at_most (2 ^ 63 - 1) (digits_from 0 num) % 2 ^ 32;
    }

unfoldable pub parse_name :
    (Bytes → Bool) → DialogConditionMode → Bytes → Outcome DialogConditionState
parse_name has_entry mode text =
    let (name, rest) = split_while (λ d. not (is_digit d)) text in
    grow_name has_entry name rest >>= λ grown. done (parse_line mode grown.0 grown.1)

-- `parseState`. A key that is empty is read out of range, and a mode without a value is one too.
unfoldable pub parse_state : (Bytes → Bool) → Bytes → Outcome DialogConditionState
parse_state has_entry [] = fault
parse_state has_entry (c ∷ cs) = elim (mode_of c) [
  | none ↦ fault
  | some mode ↦ parse_name has_entry mode cs
]

-- `loadDialog`, on the keys of the hash in the order in which it gives them.
unfoldable pub load_dialog : (Bytes → Bool) → List Bytes → Outcome (List DialogConditionState)
load_dialog has_entry [] = done []
load_dialog has_entry (key ∷ keys) = parse_state has_entry key >>= λ state.
    load_dialog has_entry keys >>= λ states. done (state ∷ states)
