-- ===== src/Examples/Texts.antt =====
-- The theorems on strings at small ones.
use engge.Base.{◌≡◌, codes, arith}
use engge.Base.Outcome.{done}
use engge.Util.Strings.{replace_all}
use engge.Util.Strings.ReplaceAll.{substitute, replace_all-substitute}

replace_all-substitute_example :
    replace_all 9 (codes "banana") (codes "an") (codes "ana")
    ≡ done (substitute (codes "an") (codes "ana") 0 (codes "banana"))
replace_all-substitute_example =
    replace_all-substitute 9 (codes "banana") (codes "an") (codes "ana") (omega arith) (omega arith)
