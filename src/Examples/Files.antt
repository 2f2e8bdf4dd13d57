-- ===== src/Examples/Files.antt =====
-- The theorems on files of achievements and of texts at small ones.
use engge.Base.{
  ℕ, refl, ltb, if◌then◌else◌, ◌≡◌, Option, none, some, [], ◌∷◌, Bytes, codes, length, ◌%◌, ◌<◌,
  arith,
}
use engge.Base.Outcome.{done}
use engge.Engine.AchievementManager.{save, load}
use engge.Engine.AchievementManager.RoundTrip.{load-save}
use engge.Engine.TextDatabase.{TextDatabase, load_texts}
use engge.Engine.TextDatabase.Loading.{file_of, insert_but_last, IsLine, load_texts-insert_but_last}

load-save_example :
    (load (save (codes "a: 1") 1234567) ≡ done (codes "a: 1"))
    × (length (save (codes "a: 1") 1234567) % 8 ≡ 0)
load-save_example =
    load-save (codes "a: 1") 1234567 (omega arith, (omega arith, (omega arith, (omega arith, tt))))
      (
        (λ e. absurd (omega (arith, e))),
        (
          (λ e. absurd (omega (arith, e))),
          ((λ e. absurd (omega (arith, e))), ((λ e. absurd (omega (arith, e))), tt)),
        ),
      )

-- The first byte is the identifier, and the rest is the text.
abbrev first_byte : Bytes → Option (ℕ × Bytes)
first_byte [] = none
first_byte (c ∷ cs) = some (c, cs)

abbrev no_texts : TextDatabase
no_texts = record { texts = [] }

one_letter-IsLine : (c : ℕ) → 10 < c → IsLine (c ∷ [])
one_letter-IsLine c h = ((λ e. absurd (omega (arith, e, h)), λ e. absurd (omega (arith, e, h))), tt)

-- Of units below 128 only.
abbrev from_ascii : Bytes → Option Bytes
from_ascii [] = some []
from_ascii (c ∷ cs) =
    let rest = from_ascii cs in
    if ltb c 128 then elim rest [ none ↦ none | some wide ↦ some (c ∷ wide) ] else none

load_texts-insert_but_last_example :
    load_texts from_ascii first_byte (file_of ((65 ∷ []) ∷ (66 ∷ []) ∷ [])) no_texts
    ≡ done (record { texts = insert_but_last first_byte ((65 ∷ []) ∷ (66 ∷ []) ∷ []) [] })
load_texts-insert_but_last_example =
    load_texts-insert_but_last from_ascii (λ line. line) first_byte (65 ∷ []) ((66 ∷ []) ∷ [])
      no_texts (one_letter-IsLine 65 (omega arith), (one_letter-IsLine 66 (omega arith), tt))
      (refl, (refl, tt))
