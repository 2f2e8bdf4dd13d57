-- ===== src/Examples/Faces.antt =====
-- The theorem on lips, with times and numbers that are natural.
use engge.Base.{ℕ, ◌+◌, inl, inr, refl, some, [], ◌∷◌, ltb, arith}
use engge.Base.Outcome.{Returns}
use engge.Dialog.Ast.{pos}
use engge.Entities.LipAnimation.{LipAnimation}
use engge.Entities.LipAnimation as Lip
use engge.Entities.LipAnimation.Heads as Heads

abbrev seconds : Lip.Clock
seconds = record { TimeSpan = ℕ; no_time = 0; plus = λ a b. a + b; greater = λ a b. ltb b a }

abbrev saying : LipAnimation seconds
saying = record {
  lip = record { time = 1; letter = 66 } ∷ record { time = 2; letter = 88 } ∷ [];
  index = 0;
  elapsed = 0;
  head_index = some (pos 1);
}

saying-IsWf : Heads.IsWf saying
saying-IsWf = record {
  in_range = omega arith;
  shapes = (inl (omega arith, omega arith), (inr refl, tt));
  head = (1, refl, omega arith);
}

make-IsWf_example : Returns Heads.IsWf (Heads.make (Heads.Call.updates 3) saying)
make-IsWf_example = Heads.make-IsWf (Heads.Call.updates 3) saying tt saying-IsWf
