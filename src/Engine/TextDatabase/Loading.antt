-- ===== src/Engine/TextDatabase/Loading.antt =====
-- What is loaded of a file of lines.
use engge.Base.{
  ℕ, zero, suc, ◌+◌, ◌<◌, ◌≤◌, ◌≡◌, ◌≢◌, refl, sym, ap, ◌∙◌, true, false, ◌||◌, Option, List, [],
  ◌∷◌, ◌++◌, Bytes, ltb, ◌==◌, length, All, map, some, arith, length-append, drop-append,
  append_assoc,
}
use engge.Base.Outcome.{done}
use engge.Parsers.Stream.{Stream, get_length, set_buffer, ahead, forward}
use engge.Util.Lines.{line_of, get_line_of}
use engge.Engine.TextDatabase.{TextDatabase, insert_line, load_lines, load_texts}

-- Lines, each with a newline behind it.
unfoldable pub file_of : List Bytes → Bytes
file_of [] = []
file_of (l ∷ ls) = l ++ 10 ∷ file_of ls

-- No newline and no zero.
abbrev pub IsLine : Bytes → Type 0
IsLine = All (λ c. (c ≢ 0) × (c ≢ 10))

line_of-append : (l rest : Bytes) → IsLine l → line_of (l ++ 10 ∷ rest) ≡ done (l, suc (length l))
unfolding line_of
line_of-append [] rest h = refl
line_of-append (c ∷ l) rest h =
    let plain : (c == 0 || c == 10) ≡ false = ground (arith, h.0.0, h.0.1) in
    rw (plain, line_of-append l rest h.1) refl

-- What the lines are in wide units.
module _ (convert : Bytes → Option Bytes) (wide : Bytes → Bytes) where
  abbrev pub Converts : Bytes → Type 0
  Converts l = convert l ≡ some (wide l)

  get_line_of-cons :
      (s : Stream) (c : ℕ) (cs line : Bytes) (n : ℕ)
      → ahead s ≡ c ∷ cs
      → line_of (c ∷ cs) ≡ done (line, n)
      → Converts line
      → get_line_of convert s ≡ done (ltb (s.offset + n) (get_length s), wide line, forward n s)
  unfolding get_line_of
  get_line_of-cons s c cs line n e f g = rw (e, get_line_of, f, g) refl

-- A line behind what was read.
abbrev at_line : Bytes → Bytes → Bytes → Stream
at_line front l rest = record { input = front ++ (l ++ 10 ∷ rest); offset = length front }

module _ (convert : Bytes → Option Bytes) (wide : Bytes → Bytes) where
  get_line_of-append :
      (front l rest : Bytes)
      → IsLine l
      → Converts convert wide l
      → get_line_of convert (at_line front l rest)
        ≡ done (
          ltb (length front + suc (length l)) (length (front ++ (l ++ 10 ∷ rest))),
          wide l,
          forward (suc (length l)) (at_line front l rest),
        )
  unfolding get_length
  get_line_of-append front [] rest h g =
      get_line_of-cons convert wide (at_line front [] rest) 10 rest [] 1
        (drop-append (length front) front (10 ∷ rest) refl) (line_of-append [] rest h) g
  get_line_of-append front (c ∷ l) rest h g =
      get_line_of-cons convert wide (at_line front (c ∷ l) rest) c (l ++ 10 ∷ rest) (c ∷ l)
        (suc (suc (length l))) (drop-append (length front) front (c ∷ (l ++ 10 ∷ rest)) refl)
        (line_of-append (c ∷ l) rest h) g

-- The texts of all lines but the last, of lines in wide units.
unfoldable pub insert_but_last :
    (Bytes → Option (ℕ × Bytes)) → List Bytes → List (ℕ × Bytes) → List (ℕ × Bytes)
insert_but_last parse [] texts = texts
insert_but_last parse (l ∷ []) texts = texts
insert_but_last parse (l ∷ k ∷ ls) texts =
    insert_but_last parse (k ∷ ls) (insert_line parse l texts)

length-file_of : (ls : List Bytes) → length ls ≤ length (file_of ls)
unfolding file_of
length-file_of [] = omega arith
length-file_of (l ∷ ls) = omega (arith, length-append l (10 ∷ file_of ls), length-file_of ls)

module _ (convert : Bytes → Option Bytes) (wide : Bytes → Bytes) where
  load_lines-file_of :
      (parse : Bytes → Option (ℕ × Bytes)) (fuel : ℕ) (front l : Bytes) (ls : List Bytes)
      (texts : List (ℕ × Bytes))
      → IsLine l
      → All IsLine ls
      → Converts convert wide l
      → All (Converts convert wide) ls
      → length ls < fuel
      → load_lines convert parse fuel (at_line front l (file_of ls)) texts
        ≡ done (insert_but_last parse (map wide (l ∷ ls)) texts)
  unfolding load_lines insert_but_last file_of
  load_lines-file_of parse zero front l ls texts h hs g gs k = absurd (omega (arith, k))
  load_lines-file_of parse (suc fuel) front l [] texts h hs g gs k =
      let end : ltb (length front + suc (length l)) (length (front ++ (l ++ 10 ∷ []))) ≡ false =
        ground (arith, length-append front (l ++ 10 ∷ []), length-append l (10 ∷ [])) in
      rw (get_line_of-append convert wide front l [] h g, end) refl
  load_lines-file_of parse (suc fuel) front l (m ∷ ls) texts h hs g gs k =
      let rest = m ++ 10 ∷ file_of ls in
      let front' = front ++ (l ++ 10 ∷ []) in
      let more : ltb (length front + suc (length l)) (length (front ++ (l ++ 10 ∷ rest))) ≡ true =
        ground (
          arith,
          length-append front (l ++ 10 ∷ rest),
          length-append l (10 ∷ rest),
          length-append m (10 ∷ file_of ls),
        ) in
      let same : front ++ (l ++ 10 ∷ rest) ≡ front' ++ rest =
        ap (λ x. front ++ x) (sym (append_assoc l (10 ∷ []) rest))
        ∙ sym (append_assoc front (l ++ 10 ∷ []) rest) in
      let at : length front + suc (length l) ≡ length front' =
        omega (arith, length-append front (l ++ 10 ∷ []), length-append l (10 ∷ [])) in
      let next : forward (suc (length l)) (at_line front l rest) ≡ at_line front' m (file_of ls) =
        ap (λ (x : Bytes). record { input = x; offset = length front + suc (length l) }) same
        ∙ ap (λ (n : ℕ). record { input = front' ++ rest; offset = n }) at in
      rw (get_line_of-append convert wide front l rest h g, more)
        (ap (λ (s : Stream). load_lines convert parse fuel s (insert_line parse (wide l) texts))
            next
          ∙ load_lines-file_of parse fuel front' m ls (insert_line parse (wide l) texts) hs.0 hs.1
              gs.0 gs.1 (omega (arith, k)))

-- Of a file of lines, each with a newline behind it and no newline or zero inside, all of which can be
-- converted to wide units, `load` returns and holds the texts of all lines but the last. The last line
-- must be convertible too, though its text is not inserted.
pub load_texts-insert_but_last :
    (convert : Bytes → Option Bytes) (wide : Bytes → Bytes) (parse : Bytes → Option (ℕ × Bytes))
    (l : Bytes) (ls : List Bytes) (d : TextDatabase)
    → All IsLine (l ∷ ls)
    → All (Converts convert wide) (l ∷ ls)
    → load_texts convert parse (file_of (l ∷ ls)) d
      ≡ done (record { texts = insert_but_last parse (map wide (l ∷ ls)) [] })
unfolding load_texts set_buffer file_of
load_texts-insert_but_last convert wide parse l ls d h g =
    let enough : length ls < suc (length (file_of (l ∷ ls))) =
      omega (arith, length-append l (10 ∷ file_of ls), length-file_of ls) in
    rw
      (load_lines-file_of convert wide parse (suc (length (file_of (l ∷ ls)))) [] l ls [] h.0 h.1
        g.0 g.1 enough)
      refl
