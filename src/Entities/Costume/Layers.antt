-- ===== src/Entities/Costume/Layers.antt =====
-- The layers of the animation that a costume shows are visible just where they are not hidden.
use engge.Base.{
  ℕ, zero, suc, ◌≡◌, refl, ap, ◌∙◌, inl, inr, Bool, true, false, not, ◌||◌, Option, none, some,
  List, [], ◌∷◌, arith, Bool-cases, All, Bytes, bytes_eq, bytes_eq_iff, if◌then◌else◌,
}
use engge.Entities.CostumeLayers.{
  Layer, CostumeAnimation, contains, hide, unhide, set_layer, show_unhidden, on_animation,
}
use engge.Entities.CostumeLayers.Hidden.{contains-hide, contains-unhide}

abbrev pub Agrees : List Bytes → Layer → Type 0
Agrees hidden l = l.visible ≡ not (contains l.name hidden)

abbrev has_layer : Bytes → List Layer → Bool
has_layer name [] = false
has_layer name (l ∷ ls) = bytes_eq l.name name || has_layer name ls

-- No two layers have the same name.
abbrev pub Distinct : List Layer → Type 0
Distinct [] = Unit
Distinct (l ∷ ls) = (has_layer l.name ls ≡ false) × Distinct ls

abbrev pub AllDistinct : List CostumeAnimation → Type 0
AllDistinct animations = All (λ a. Distinct a.layers) animations

-- The animation at the index shows the layers that are not hidden.
abbrev pub ShowsAt : List Bytes → ℕ → List CostumeAnimation → Type 0
ShowsAt hidden i [] = Unit
ShowsAt hidden zero (a ∷ as') = All (Agrees hidden) a.layers
ShowsAt hidden (suc i) (a ∷ as') = ShowsAt hidden i as'

abbrev pub Shows : List Bytes → Option ℕ → List CostumeAnimation → Type 0
Shows hidden none animations = Unit
Shows hidden (some i) animations = ShowsAt hidden i animations

abbrev pub hidden_with : Bytes → Bool → List Bytes → List Bytes
hidden_with name visible hidden = if visible then unhide name hidden else hide name hidden

bytes_eq_comm : (a b : Bytes) → bytes_eq a b ≡ bytes_eq b a
bytes_eq_comm a b = ground (arith, bytes_eq_iff a b, bytes_eq_iff b a)

pub contains-hidden_with :
    (name : Bytes) (visible : Bool) (hidden : List Bytes) (m : Bytes)
    → contains m (hidden_with name visible hidden)
      ≡ (if bytes_eq name m then not visible else contains m hidden)
contains-hidden_with name true hidden m = ground (arith, contains-unhide name hidden m)
contains-hidden_with name false hidden m = ground (arith, contains-hide name hidden m)

module _ (name : Bytes) (visible : Bool) (hidden : List Bytes) where
  other-Agrees :
      (l : Layer)
      → bytes_eq l.name name ≡ false
      → Agrees hidden l
      → Agrees (hidden_with name visible hidden) l
  other-Agrees l e h =
      ground (arith, contains-hidden_with name visible hidden l.name, bytes_eq_comm l.name name)

  others-Agree :
      (ls : List Layer)
      → has_layer name ls ≡ false
      → All (Agrees hidden) ls
      → All (Agrees (hidden_with name visible hidden)) ls
  others-Agree [] e h = tt
  others-Agree (l ∷ ls) e h =
      (other-Agrees l (ground arith) h.0, others-Agree ls (ground arith) h.1)

  set_layer-Agrees :
      (ls : List Layer)
      → Distinct ls
      → All (Agrees hidden) ls
      → All (Agrees (hidden_with name visible hidden)) (set_layer name visible ls)
  unfolding set_layer
  set_layer-Agrees [] d h = tt
  set_layer-Agrees (l ∷ ls) d h = elim (Bool-cases (bytes_eq l.name name)) [
    | inl e ↦
        let same : l.name ≡ name = (bytes_eq_iff l.name name).0 e in
        rw (set_layer, e)
          (
            ground
                (arith, contains-hidden_with name visible hidden l.name, bytes_eq_comm l.name name),
            others-Agree ls (rw same at d.0) h.1,
          )
    | inr e ↦ rw (set_layer, e) (other-Agrees l e h.0, set_layer-Agrees ls d.1 h.1)
  ]

has_layer-set_layer :
    (name : Bytes) (visible : Bool) (ls : List Layer) (m : Bytes)
    → has_layer m (set_layer name visible ls) ≡ has_layer m ls
unfolding set_layer
has_layer-set_layer name visible [] m = refl
has_layer-set_layer name visible (l ∷ ls) m = ground (arith, has_layer-set_layer name visible ls m)

pub set_layer-Distinct :
    (name : Bytes) (visible : Bool) (ls : List Layer)
    → Distinct ls
    → Distinct (set_layer name visible ls)
unfolding set_layer
set_layer-Distinct name visible [] d = tt
set_layer-Distinct name visible (l ∷ ls) d = elim (Bool-cases (bytes_eq l.name name)) [
  | inl e ↦ rw (set_layer, e) d
  | inr e ↦
      rw (set_layer, e)
        (has_layer-set_layer name visible ls l.name ∙ d.0, set_layer-Distinct name visible ls d.1)
]

has_layer-show_unhidden :
    (hidden : List Bytes) (ls : List Layer) (m : Bytes)
    → has_layer m (show_unhidden hidden ls) ≡ has_layer m ls
unfolding show_unhidden
has_layer-show_unhidden hidden [] m = refl
has_layer-show_unhidden hidden (l ∷ ls) m =
    ap (λ b. bytes_eq l.name m || b) (has_layer-show_unhidden hidden ls m)

pub show_unhidden-Distinct :
    (hidden : List Bytes) (ls : List Layer) → Distinct ls → Distinct (show_unhidden hidden ls)
unfolding show_unhidden
show_unhidden-Distinct hidden [] d = tt
show_unhidden-Distinct hidden (l ∷ ls) d =
    (has_layer-show_unhidden hidden ls l.name ∙ d.0, show_unhidden-Distinct hidden ls d.1)

show_unhidden-Agrees :
    (hidden : List Bytes) (ls : List Layer) → All (Agrees hidden) (show_unhidden hidden ls)
unfolding show_unhidden
show_unhidden-Agrees hidden [] = tt
show_unhidden-Agrees hidden (l ∷ ls) = (refl, show_unhidden-Agrees hidden ls)

pub on_animation-Distinct :
    (i : ℕ) (f : List Layer → List Layer) (as' : List CostumeAnimation)
    → ((ls : List Layer) → Distinct ls → Distinct (f ls))
    → AllDistinct as'
    → AllDistinct (on_animation i f as')
on_animation-Distinct i f [] keeps d = tt
on_animation-Distinct zero f (a ∷ as') keeps d = (keeps a.layers d.0, d.1)
on_animation-Distinct (suc i) f (a ∷ as') keeps d = (d.0, on_animation-Distinct i f as' keeps d.1)

pub set_layer-ShowsAt :
    (name : Bytes) (visible : Bool) (hidden : List Bytes) (i : ℕ) (as' : List CostumeAnimation)
    → AllDistinct as'
    → ShowsAt hidden i as'
    → ShowsAt (hidden_with name visible hidden) i (on_animation i (set_layer name visible) as')
set_layer-ShowsAt name visible hidden i [] d h = tt
set_layer-ShowsAt name visible hidden zero (a ∷ as') d h =
    set_layer-Agrees name visible hidden a.layers d.0 h
set_layer-ShowsAt name visible hidden (suc i) (a ∷ as') d h =
    set_layer-ShowsAt name visible hidden i as' d.1 h

pub show_unhidden-ShowsAt :
    (hidden : List Bytes) (i : ℕ) (as' : List CostumeAnimation)
    → ShowsAt hidden i (on_animation i (show_unhidden hidden) as')
show_unhidden-ShowsAt hidden i [] = tt
show_unhidden-ShowsAt hidden zero (a ∷ as') = show_unhidden-Agrees hidden a.layers
show_unhidden-ShowsAt hidden (suc i) (a ∷ as') = show_unhidden-ShowsAt hidden i as'
