-- ===== src/Engine/Hover/Topmost.antt =====
-- The entity under the mouse is one that stands farthest in front.
use engge.Base.{
  ◌≤◌, ◌≡◌, refl, ◌∙◌, inl, inr, ◌⊎◌, Bool, true, false, not, ◌&&◌, Option, none, some, List, [],
  ◌∷◌, arith, In, All, All-In,
}
use engge.Engine.Hover.{
  Candidate, find_actor, find_object, hovered_actor, hovered_object, get_hovered_entity,
}

-- The mouse can hit the actor, or the object.
abbrev pub hits_actor : Candidate → Bool
hits_actor a = not a.is_current_actor && a.is_in_room && a.is_under_mouse

abbrev pub hits_object : Candidate → Bool
hits_object o = o.is_touchable && o.is_under_mouse

-- What was found stands in front of the candidate, or beside it.
abbrev pub InFront : Option Candidate → Candidate → Type 0
InFront none c = ⊥
InFront (some b) c = b.z_order ≤ c.z_order

-- What was found stands in front of what was found before.
abbrev Improves : Option Candidate → Option Candidate → Type 0
Improves none found = Unit
Improves (some b) found = InFront found b

Improves-refl : (o : Option Candidate) → Improves o o
Improves-refl none = tt
Improves-refl (some b) = omega arith

Improves-trans : (o p q : Option Candidate) → Improves o p → Improves p q → Improves o q
Improves-trans none p q h k = tt
Improves-trans (some b) none q h k = absurd h
Improves-trans (some b) (some c) none h k = absurd k
Improves-trans (some b) (some c) (some d) h k = omega arith

InFront-Improves :
    (o p : Option Candidate) (c : Candidate) → InFront o c → Improves o p → InFront p c
InFront-Improves none p c h k = absurd h
InFront-Improves (some b) none c h k = absurd k
InFront-Improves (some b) (some d) c h k = omega arith

-- What a loop over candidates found: one of them that is hit, or what was there, and nothing that is hit
-- stands in front of it.
record Finds (hits : Candidate → Bool) (cs : List Candidate) (before found : Option Candidate)
    : Type 0 where
  improves : Improves before found
  all_behind : All (λ c. (hits c ≡ false) ⊎ InFront found c) cs
  is_one : (found ≡ before) ⊎ ((c : Candidate) × In c cs × (hits c ≡ true) × (found ≡ some c))

Finds-none : (hits : Candidate → Bool) (o : Option Candidate) → Finds hits [] o o
Finds-none hits o = record { improves = Improves-refl o; all_behind = tt; is_one = inl refl }

-- The first candidate is passed over, or found.
Finds-cons :
    (hits : Candidate → Bool) (c : Candidate) (cs : List Candidate) (o p q : Option Candidate)
    → Improves o p
    → (hits c ≡ false) ⊎ InFront p c
    → (p ≡ o) ⊎ ((hits c ≡ true) × (p ≡ some c))
    → Finds hits cs p q
    → Finds hits (c ∷ cs) o q
Finds-cons hits c cs o p q i b e f = record {
  improves = Improves-trans o p q i f.improves;
  all_behind = (
    elim b [ inl miss ↦ inl miss | inr front ↦ inr (InFront-Improves p q c front f.improves) ],
    f.all_behind,
  );
  is_one = elim f.is_one [
    | inl same ↦ elim e [
      | inl kept ↦ inl (same ∙ kept)
      | inr (hit, new) ↦ inr (c, inl refl, hit, same ∙ new)
    ]
    | inr (d, j, hit, new) ↦ inr (d, inr j, hit, new)
  ];
}

find_actor-Improves : (a : Candidate) (o : Option Candidate) → Improves o (find_actor a o)
unfolding find_actor
find_actor-Improves a none = tt
find_actor-Improves a (some b) = ground arith

find_actor-front :
    (a : Candidate) (o : Option Candidate) → (hits_actor a ≡ false) ⊎ InFront (find_actor a o) a
unfolding find_actor
find_actor-front a none = ground arith
find_actor-front a (some b) = ground arith

find_actor-one :
    (a : Candidate) (o : Option Candidate)
    → (find_actor a o ≡ o) ⊎ ((hits_actor a ≡ true) × (find_actor a o ≡ some a))
unfolding find_actor
find_actor-one a none = ground arith
find_actor-one a (some b) = ground arith

hovered_actor-Finds :
    (as' : List Candidate) (o : Option Candidate) → Finds hits_actor as' o (hovered_actor as' o)
unfolding hovered_actor
hovered_actor-Finds [] o = Finds-none hits_actor o
hovered_actor-Finds (a ∷ as') o =
    Finds-cons hits_actor a as' o (find_actor a o) (hovered_actor as' (find_actor a o))
      (find_actor-Improves a o) (find_actor-front a o) (find_actor-one a o)
      (hovered_actor-Finds as' (find_actor a o))

find_object-Improves : (a : Candidate) (o : Option Candidate) → Improves o (find_object a o)
unfolding find_object
find_object-Improves a none = tt
find_object-Improves a (some b) = ground arith

find_object-front :
    (a : Candidate) (o : Option Candidate) → (hits_object a ≡ false) ⊎ InFront (find_object a o) a
unfolding find_object
find_object-front a none = ground arith
find_object-front a (some b) = ground arith

find_object-one :
    (a : Candidate) (o : Option Candidate)
    → (find_object a o ≡ o) ⊎ ((hits_object a ≡ true) × (find_object a o ≡ some a))
unfolding find_object
find_object-one a none = ground arith
find_object-one a (some b) = ground arith

hovered_object-Finds :
    (as' : List Candidate) (o : Option Candidate) → Finds hits_object as' o (hovered_object as' o)
unfolding hovered_object
hovered_object-Finds [] o = Finds-none hits_object o
hovered_object-Finds (a ∷ as') o =
    Finds-cons hits_object a as' o (find_object a o) (hovered_object as' (find_object a o))
      (find_object-Improves a o) (find_object-front a o) (find_object-one a o)
      (hovered_object-Finds as' (find_object a o))

All-map :
    {A : Type 0} (P Q : A → Type 0) (xs : List A) → ((x : A) → P x → Q x) → All P xs → All Q xs
All-map P Q [] f h = tt
All-map P Q (x ∷ xs) f h = (f x h.0, All-map P Q xs f h.1)

-- Behind both loops: the entity is one that is hit, and stands in front of all that are.
abbrev Topmost : List Candidate → List Candidate → Option Candidate → Type 0
Topmost actors objects found =
    (d : Candidate) × (found ≡ some d)
    × ((In d actors × (hits_actor d ≡ true)) ⊎ (In d objects × (hits_object d ≡ true)))
    × All (λ a. (hits_actor a ≡ false) ⊎ (d.z_order ≤ a.z_order)) actors
    × All (λ o. (hits_object o ≡ false) ⊎ (d.z_order ≤ o.z_order)) objects

Finds-Topmost :
    (actors objects : List Candidate) (p q : Option Candidate) (c : Candidate)
    → Finds hits_actor actors none p
    → Finds hits_object objects p q
    → InFront q c
    → Topmost actors objects q
Finds-Topmost actors objects p none c f g h = absurd h
Finds-Topmost actors objects p (some d) c f g h = (
  d,
  refl,
  elim g.is_one [
    | inr (e, j, hit, new) ↦ let same : e ≡ d = cc in inr (rw (← same) (j, hit))
    | inl kept ↦ elim f.is_one [
      | inl absent ↦ cc
      | inr (e, j, hit, new) ↦ let same : e ≡ d = cc in inl (rw (← same) (j, hit))
    ]
  ],
  All-map _ _ actors
      (λ a b. elim b [
        | inl miss ↦ inl miss
        | inr front ↦ inr (InFront-Improves p (some d) a front g.improves)
      ])
      f.all_behind,
  g.all_behind,
)

hit-InFront :
    (hits : Candidate → Bool) (cs : List Candidate) (p q : Option Candidate) (c : Candidate)
    → Finds hits cs p q
    → In c cs
    → hits c ≡ true
    → InFront q c
hit-InFront hits cs p q c f i h =
    elim (All-In (λ c. (hits c ≡ false) ⊎ InFront q c) cs f.all_behind i) [
      | inl miss ↦ cc
      | inr front ↦ front
    ]

-- Where the mouse is on an actor other than the current one, in the room, or on a touchable object, the
-- hovered entity is such an actor or object, and none of them stands farther in front.
pub get_hovered_entity-Topmost :
    (is_fullscreen : Bool) (inventory : Option Candidate) (actors objects : List Candidate)
    (c : Candidate)
    → (In c actors × (hits_actor c ≡ true)) ⊎ (In c objects × (hits_object c ≡ true))
    → (d : Candidate) × (get_hovered_entity is_fullscreen inventory actors objects ≡ some d)
      × ((In d actors × (hits_actor d ≡ true)) ⊎ (In d objects × (hits_object d ≡ true)))
      × All (λ a. (hits_actor a ≡ false) ⊎ (d.z_order ≤ a.z_order)) actors
      × All (λ o. (hits_object o ≡ false) ⊎ (d.z_order ≤ o.z_order)) objects
unfolding get_hovered_entity
get_hovered_entity-Topmost is_fullscreen inventory actors objects c hit =
    let p = hovered_actor actors none in
    let q = hovered_object objects p in
    let f = hovered_actor-Finds actors none in
    let g = hovered_object-Finds objects p in
    let front : InFront q c = elim hit [
      | inl (i, h) ↦
          InFront-Improves p q c (hit-InFront hits_actor actors none p c f i h) g.improves
      | inr (i, h) ↦ hit-InFront hits_object objects p q c g i h
    ] in
    let (d, e, one, l, m) = Finds-Topmost actors objects p q c f g front in
    (d, rw (get_hovered_entity, e) refl, one, l, m)
