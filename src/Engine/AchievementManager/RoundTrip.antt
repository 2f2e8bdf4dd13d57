-- ===== src/Engine/AchievementManager/RoundTrip.antt =====
-- `save` and then `load`.
use engge.Base.{
  ℕ, zero, suc, ◌+◌, ◌-◌, ◌%◌, ◌<◌, ◌≤◌, ◌≡◌, ◌≢◌, refl, sym, ap, ◌∙◌, inl, inr, true, some, List,
  [], ◌∷◌, ◌++◌, Bytes, ltb, leb, ◌==◌, ==_iff, length, get_elem?, set, length-append, All,
  All-append, arith, Bool-cases, append_assoc,
}
use engge.Base.Outcome.{done}
use engge.Util.BteaCrypto.{encrypt, decrypt}
use engge.Util.BteaCrypto.RoundTrip.{length-encrypt}
use engge.Parsers.Savegame.{bytes_of, over_words, compute_hash, repeat, marker}
use engge.Parsers.Savegame.RoundTrip.{AreBytes, over_words-decrypt-encrypt}
use engge.Parsers.Savegame.Files.{
  length-repeat, repeat-AreBytes, length-bytes_of, bytes_of-AreBytes, length-over_words,
}
use engge.Engine.AchievementManager.{
  achievement_key, achievement_buffer, save, end_index, c_string, load,
}

get_elem?-append :
    {A : Type 0} (xs ys : List A) (k : ℕ) → get_elem? (xs ++ ys) (length xs + k) ≡ get_elem? ys k
get_elem?-append [] ys k = let e : 0 + k ≡ k = omega arith in rw e refl
get_elem?-append (x ∷ xs) ys k =
    let e : suc (length xs) + k ≡ suc (length xs + k) = omega arith in
    rw e (get_elem?-append xs ys k)

get_elem?-repeat : (n k b : ℕ) → k < n → get_elem? (repeat n b) k ≡ some b
unfolding repeat
get_elem?-repeat zero k b h = absurd (omega (arith, h))
get_elem?-repeat (suc n) zero b h = refl
get_elem?-repeat (suc n) (suc k) b h = get_elem?-repeat n k b (omega (arith, h))

-- The byte behind the text is set to zero, and the text is what is before it.
c_string-set :
    (content : Bytes) (b : ℕ) (rest : Bytes)
    → All (λ c. c ≢ 0) content
    → c_string (set (content ++ b ∷ rest) (length content) 0) ≡ content
unfolding c_string
c_string-set [] b rest h = refl
c_string-set (c ∷ content) b rest h = elim (Bool-cases (c == 0)) [
  | inl e ↦ absurd (h.0 ((==_iff c 0).0 e))
  | inr e ↦ rw e (ap (λ l. c ∷ l) (c_string-set content b rest h.1))
]

module _ (content : Bytes) (time : ℕ) where
  abbrev hash : ℕ
  hash = compute_hash (content ++ repeat (9 + marker (length content)) 0) (length content)

  abbrev ending : Bytes
  ending = repeat (suc (marker (length content))) (marker (length content))

  marker-le : marker (length content) ≤ 8
  marker-le = omega arith

  length-achievement_buffer :
      length (achievement_buffer content time) ≡ length content + 9 + marker (length content)
  unfolding achievement_buffer
  length-achievement_buffer =
      length-append content (bytes_of (hash ∷ time ∷ []) ++ ending)
      ∙ omega (
        arith,
        length-append (bytes_of (hash ∷ time ∷ [])) ending,
        length-bytes_of (hash ∷ time ∷ []),
        length-repeat (suc (marker (length content))) (marker (length content)),
      )

  achievement_buffer-AreBytes : AreBytes content → AreBytes (achievement_buffer content time)
  unfolding achievement_buffer
  achievement_buffer-AreBytes h =
      All-append (λ b. b < 0x100) content (bytes_of (hash ∷ time ∷ []) ++ ending) h
        (All-append (λ b. b < 0x100) (bytes_of (hash ∷ time ∷ [])) ending
          (bytes_of-AreBytes (hash ∷ time ∷ []))
          (repeat-AreBytes (suc (marker (length content))) (marker (length content))
            (omega (arith, marker-le))))

  last_byte :
      get_elem? (achievement_buffer content time) (length content + 9 + marker (length content) - 1)
      ≡ some (marker (length content))
  unfolding achievement_buffer
  last_byte =
      let m = marker (length content) in
      let front = content ++ bytes_of (hash ∷ time ∷ []) in
      let at : length content + 9 + m - 1 ≡ length front + m = omega (
        arith,
        length-append content (bytes_of (hash ∷ time ∷ [])),
        length-bytes_of (hash ∷ time ∷ []),
      ) in
      let joined : content ++ (bytes_of (hash ∷ time ∷ []) ++ ending) ≡ front ++ ending =
        sym (append_assoc content (bytes_of (hash ∷ time ∷ [])) ending) in
      ap (λ l. get_elem? l (length content + 9 + m - 1)) joined
      ∙ ap (λ (i : ℕ). get_elem? (front ++ ending) i) at
      ∙ get_elem?-append front ending m
      ∙ get_elem?-repeat (suc m) m m (omega arith)

  text_before :
      All (λ c. c ≢ 0) content
      → c_string (set (achievement_buffer content time) (length content) 0) ≡ content
  unfolding achievement_buffer bytes_of
  text_before k = c_string-set content _ _ k

end_index-small : (n m : ℕ) → m ≤ 8 → end_index (n + 9 + m) m ≡ some n
unfolding end_index
end_index-small n m h =
    let low : ltb m 128 ≡ true = ground (arith, h) in
    let inside : leb (m + 9) (n + 9 + m) ≡ true = ground arith in
    let at : n + 9 + m - (m + 9) ≡ n = omega arith in rw (low, inside, at) refl

load_lem :
    (file plain : Bytes) {last i : ℕ}
    → over_words (decrypt achievement_key) file ≡ plain
    → get_elem? plain (length file - 1) ≡ some last
    → end_index (length file) last ≡ some i
    → load file ≡ done (c_string (set plain i 0))
unfolding load
load_lem file plain d l f = rw (d, l, f, load, d) refl

-- The text of the achievements, of bytes that are not zero, is what `load` hands to the parser from
-- the file that `save` writes, whatever its length and the time; the length of the file is a multiple
-- of 8.
pub load-save :
    (content : Bytes) (time : ℕ)
    → AreBytes content
    → All (λ c. c ≢ 0) content
    → (load (save content time) ≡ done content) × (length (save content time) % 8 ≡ 0)
unfolding save over_words
load-save content time h k =
    let m = marker (length content) in
    let buffer = achievement_buffer content time in
    let decoded : over_words (decrypt achievement_key) (save content time) ≡ buffer =
      over_words-decrypt-encrypt achievement_key buffer
        (achievement_buffer-AreBytes content time h) in
    let size : length (save content time) ≡ length content + 9 + m =
      length-over_words (encrypt achievement_key) buffer (length-encrypt achievement_key _)
      ∙ length-achievement_buffer content time in
    let small : m ≤ 8 = marker-le content time in
    let found : end_index (length content + 9 + m) m ≡ some (length content) =
      end_index-small (length content) m small in
    (
      load_lem (save content time) buffer decoded
            (ap (λ (n : ℕ). get_elem? buffer (n - 1)) size ∙ last_byte content time)
            (ap (λ (n : ℕ). end_index n m) size ∙ found)
          ∙ ap done (text_before content time k),
      omega (arith, size),
    )
