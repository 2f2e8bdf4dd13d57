-- ===== src/Entities/CostumeLayers/Hidden.antt =====
-- The set of the hidden layers.
use engge.Base.{
  ◌≡◌, refl, inl, inr, true, not, ◌&&◌, ◌||◌, List, [], ◌∷◌, arith, Bool-cases, Bytes, bytes_eq,
  bytes_eq_iff,
}
use engge.Entities.CostumeLayers.{contains, hide, unhide}

contains-eq :
    (name m : Bytes) (ns : List Bytes)
    → bytes_eq name m ≡ true
    → contains name ns ≡ true
    → contains m ns ≡ true
contains-eq name m ns e h = rw (← (bytes_eq_iff name m).0 e) h

pub contains-hide :
    (name : Bytes) (ns : List Bytes) (m : Bytes)
    → contains m (hide name ns) ≡ (bytes_eq name m || contains m ns)
unfolding hide
contains-hide name ns m = elim (Bool-cases (contains name ns)) [
  | inl old ↦ rw old (ground (arith, contains-eq name m ns))
  | inr new ↦ rw new refl
]

pub contains-unhide :
    (name : Bytes) (ns : List Bytes) (m : Bytes)
    → contains m (unhide name ns) ≡ (not (bytes_eq name m) && contains m ns)
unfolding unhide
contains-unhide name [] m = ground arith
contains-unhide name (n ∷ ns) m =
    ground
      (arith, contains-unhide name ns m, bytes_eq_iff n name, bytes_eq_iff n m, bytes_eq_iff name m)
