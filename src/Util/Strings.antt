-- ===== src/Util/Strings.antt =====
-- The functions on strings of src/Util/Util.cpp. A string, of `char` or of `wchar_t`, is the list of
-- its units; `find` gives `none` for `npos`.
pub mod Affixes
pub mod ReplaceAll
use engge.Base.{
  ℕ, zero, suc, ◌+◌, ◌-◌, Bool, true, false, not, ◌&&◌, Option, none, some, List, [], ◌∷◌, ◌++◌,
  Bytes, bytes_eq, codes, ltb, leb, ◌==◌, if◌then◌else◌, length, take, drop, get_elem?,
}
use engge.Base.Outcome.{Outcome, done, unfinished}

unfoldable pub starts_with : Bytes → Bytes → Bool
starts_with str prefix =
    leb (length prefix) (length str) && bytes_eq (take (length prefix) str) prefix

unfoldable pub ends_with : Bytes → Bytes → Bool
ends_with str suffix =
    leb (length suffix) (length str) && bytes_eq (drop (length str - length suffix) str) suffix

-- `text.find(search)`
unfoldable pub find : Bytes → Bytes → Option ℕ
unfolding starts_with
find [] search = if starts_with [] search then some 0 else none
find (c ∷ cs) search =
    let rest = find cs search in
    if starts_with (c ∷ cs) search
    then some 0
    else elim rest [ none ↦ none | some i ↦ some (suc i) ]

-- `text.find(search, pos)`
unfoldable pub find_from : Bytes → Bytes → ℕ → Option ℕ
unfolding find
find_from text search pos =
    if ltb (length text) pos
    then none
    else elim (find (drop pos text) search) [ none ↦ none | some i ↦ some (pos + i) ]

-- `text.replace(pos, n, replace)`
abbrev pub replace_at : Bytes → ℕ → ℕ → Bytes → Bytes
replace_at text pos n replace = take pos text ++ (replace ++ drop (pos + n) text)

-- The loop of `replaceAll`, from the place that was found; it ends where nothing more is found.
unfoldable pub replace_loop : ℕ → Bytes → Bytes → Option ℕ → Bytes → Outcome Bytes
unfolding find_from
replace_loop fuel search replace none text = done text
replace_loop zero search replace (some pos) text = unfinished
replace_loop (suc fuel) search replace (some pos) text =
    let replaced = replace_at text pos (length search) replace in
    replace_loop fuel search replace (find_from replaced search (pos + length replace)) replaced

unfoldable pub replace_all : ℕ → Bytes → Bytes → Bytes → Outcome Bytes
unfolding replace_loop
replace_all fuel text search replace = replace_loop fuel search replace (find text search) text

-- `text.find(L'(') != 0` and `text.find(L')')`
unfoldable pub remove_first_parenthesis : Bytes → Bytes
unfolding find
remove_first_parenthesis text = if ltb (length text) 2 then text else elim (find text (codes "(")) [
  | none ↦ text
  | some (suc i) ↦ text
  | some zero ↦ elim (find text (codes ")")) [ none ↦ text | some pos ↦ drop (pos + 1) text ]
]

-- `str[i] == c`, where `i` is in range.
abbrev pub has_at : Bytes → ℕ → ℕ → Bool
has_at str i c = elim (get_elem? str i) [ none ↦ false | some d ↦ d == c ]

-- `checkLanguage`; `lang` is the language of the preferences, and 46 the dot.
unfoldable pub check_language : Bytes → Bytes → Bytes
unfolding ends_with
check_language lang str =
    let size = length str in
    if ends_with str (codes "_en")
    then take (size - 3) str ++ (codes "_" ++ lang)
    else if ltb 7 size
        && (has_at str (size - 4) 46 && bytes_eq (take 3 (drop (size - 7) str)) (codes "_en"))
    then take (size - 7) str ++ (codes "_" ++ (lang ++ take 4 (drop (size - 4) str)))
    else str
