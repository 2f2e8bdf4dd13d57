-- ===== src/Engine/SavedDialogs/Keys.antt =====
-- The key of a saved state is read back as the state.
use engge.Base.{
  ℕ, ◌+◌, ◌^◌, ◌≤◌, ◌<◌, ◌≡◌, ap, subst, Bool, true, false, not, some, ◌++◌, Bytes, codes, arith,
  length, take, length-append, take-append_add,
}
use engge.Base.Outcome.{done}
use engge.Dialog.States.{DialogConditionMode, DialogConditionState}
use engge.Parsers.Tokens.{is_digit}
use engge.Engine.SavedDialogs.{
  decimal, mark_of, key_of, mode_of, split_while, grow_name, parse_line, parse_name, parse_state,
}
use engge.Engine.SavedDialogs.Names.{
  Stops, split_while-append, split_while-All, split_while-join, grow_name-append,
}
use engge.Engine.SavedDialogs.Numbers.{
  Fits, decimal-All, digits_from-decimal, print_line-decimal, decimal-Stops, small_line-kept,
}

-- What `parse_state` needs to read a state back: the line is not negative, the actor's key starts
-- with no digit, the dialog is an entry of the settings, and of what it starts with nothing is one that
-- holds all up to its first digit.
pub record IsReadable (has_entry : Bytes → Bool) (s : DialogConditionState) : Type 0 where
  pub small_line : s.line < 2 ^ 31
  pub key_stops : Stops is_digit s.actor_key
  pub is_entry : has_entry (s.dialog ++ codes ".byack") ≡ true
  pub no_shorter :
      (n : ℕ)
      → length (split_while (λ d. not (is_digit d)) s.dialog).0 ≤ n
      → n < length s.dialog
      → has_entry (take n s.dialog ++ codes ".byack") ≡ false

pub mode_of-mark_of :
    (m : DialogConditionMode) {mark : ℕ} → mark_of m ≡ some mark → mode_of mark ≡ some m
unfolding mark_of mode_of
mode_of-mark_of DialogConditionMode.temp_once h = cc
mode_of-mark_of m h = ground arith

module _ (has_entry : Bytes → Bool) where
  grow_name-join :
      (head tail r dialog : Bytes)
      → head ++ tail ≡ dialog
      → has_entry (dialog ++ codes ".byack") ≡ true
      → ((n : ℕ)
          → length head ≤ n
          → n < length dialog
          → has_entry (take n dialog ++ codes ".byack") ≡ false)
      → grow_name has_entry head (tail ++ r) ≡ done (dialog, r)
  grow_name-join head tail r dialog e =
      subst
        (λ d.
          has_entry (d ++ codes ".byack") ≡ true
          → ((n : ℕ)
              → length head ≤ n
              → n < length d
              → has_entry (take n d ++ codes ".byack") ≡ false)
          → grow_name has_entry head (tail ++ r) ≡ done (d, r))
        e
        λ h misses. grow_name-append has_entry head tail r h (λ k l.
          rw (← take-append_add head tail k) (
            misses (length head + k) (omega arith)
              (omega (arith, length-append {0} {A = ℕ} head tail))))

  parse_line-decimal :
      (s : DialogConditionState)
      → IsReadable has_entry s
      → parse_line s.mode s.dialog (decimal 10 s.line ++ s.actor_key) ≡ s
  unfolding parse_line
  parse_line-decimal s h =
      let digits = decimal 10 s.line in
      let fits : Fits 10 s.line = let l = h.small_line in omega arith in
      rw
        (
          split_while-append is_digit digits s.actor_key h.key_stops,
          split_while-All is_digit digits (decimal-All 10 s.line),
          digits_from-decimal 10 s.line fits,
        )
        (ap (λ l. record s { line = l }) (small_line-kept s.line h.small_line))

  parse_name-print :
      (s : DialogConditionState)
      → IsReadable has_entry s
      → parse_name has_entry s.mode (s.dialog ++ (decimal 10 s.line ++ s.actor_key)) ≡ done s
  unfolding parse_name
  parse_name-print s h =
      let letters = λ (d : ℕ). not (is_digit d) in
      let rest = decimal 10 s.line ++ s.actor_key in
      rw
        (
          split_while-append letters s.dialog rest (decimal-Stops 10 s.line s.actor_key),
          grow_name-join (split_while letters s.dialog).0 (split_while letters s.dialog).1 rest
              s.dialog (split_while-join letters s.dialog) h.is_entry h.no_shorter,
        )
        (ap done (parse_line-decimal s h))

  -- The key that a state is saved under is read back as the state.
  pub parse_state-key_of :
      (s : DialogConditionState) (mark : ℕ)
      → IsReadable has_entry s
      → mark_of s.mode ≡ some mark
      → parse_state has_entry (key_of mark s) ≡ done s
  unfolding parse_state key_of
  parse_state-key_of s mark h k =
      rw (parse_state, mode_of-mark_of s.mode k)
        (rw (print_line-decimal s.line h.small_line) (parse_name-print s h))
