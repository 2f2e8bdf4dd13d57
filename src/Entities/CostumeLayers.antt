-- ===== src/Entities/CostumeLayers.antt =====
-- The layers and the animations of a costume (src/Entities/Actor/Costume.cpp), and its set of hidden
-- layers. An animation is its name and its layers here.
pub mod Hidden
use engge.Base.{
  ℕ, zero, suc, ◌+◌, Bool, true, false, not, ◌&&◌, ◌||◌, Option, none, some, List, [], ◌∷◌, ◌++◌,
  map, Bytes, bytes_eq, codes, ◌==◌, if◌then◌else◌, length, get_elem?, set,
}
use engge.Dialog.Ast.{ℤ, pos, negsuc}
use engge.Scripting.Verbs.World.{Reaching, high, medium, low}
use engge.Util.Conversions.{Facing}
use engge.Util.Strings.{starts_with}

pub record Layer : Type 0 where
  pub name : Bytes
  pub visible : Bool

pub record CostumeAnimation : Type 0 where
  pub name : Bytes
  pub layers : List Layer

abbrev pub contains : Bytes → List Bytes → Bool
contains name [] = false
contains name (n ∷ ns) = bytes_eq n name || contains name ns

-- `emplace` and `erase` of the set.
unfoldable pub hide : Bytes → List Bytes → List Bytes
hide name ns = if contains name ns then ns else name ∷ ns

unfoldable pub unhide : Bytes → List Bytes → List Bytes
unhide name [] = []
unhide name (n ∷ ns) = let rest = unhide name ns in if bytes_eq n name then rest else n ∷ rest

-- The first layer of the name.
unfoldable pub set_layer : Bytes → Bool → List Layer → List Layer
set_layer name visible [] = []
set_layer name visible (l ∷ ls) =
    let rest = set_layer name visible ls in
    if bytes_eq l.name name then record l { visible = visible } ∷ ls else l ∷ rest

unfoldable pub show_unhidden : List Bytes → List Layer → List Layer
show_unhidden hidden [] = []
show_unhidden hidden (l ∷ ls) =
    record l { visible = not (contains l.name hidden) } ∷ show_unhidden hidden ls

-- The first animation whose name passes the test.
unfoldable pub find_animation : (Bytes → Bool) → List CostumeAnimation → Option ℕ
find_animation test [] = none
find_animation test (a ∷ as') =
    let rest = find_animation test as' in
    if test a.name then some 0 else elim rest [ none ↦ none | some i ↦ some (suc i) ]

abbrev pub passes : (Bytes → Bool) → Option Bytes → Bool
passes test none = false
passes test (some name) = test name

-- The layers of the head `i`: its name, with the number behind it from the second on.
unfoldable pub head_layer : Bytes → ℕ → Bytes
head_layer name zero = name
head_layer name (suc i) = name ++ (b'2' + i) ∷ []

-- `i == _headIndex`
abbrev pub head_is : ℤ → ℕ → Bool
head_is (pos n) i = i == n
head_is (negsuc n) i = false

abbrev pub same_facing : Facing → Facing → Bool
same_facing Facing.face_front Facing.face_front = true
same_facing Facing.face_back Facing.face_back = true
same_facing Facing.face_left Facing.face_left = true
same_facing Facing.face_right Facing.face_right = true
same_facing _ _ = false

abbrev pub facings_of : Facing → Facing → Facing → Facing → Facing → Facing
facings_of left right front back Facing.face_left = left
facings_of left right front back Facing.face_right = right
facings_of left right front back Facing.face_front = front
facings_of left right front back Facing.face_back = back

unfoldable pub direction_name : Facing → Bytes
direction_name Facing.face_back = codes "back"
direction_name Facing.face_front = codes "front"
direction_name Facing.face_left = codes "right"
direction_name Facing.face_right = codes "right"

-- The animation at the index, changed.
abbrev pub on_animation :
    ℕ → (List Layer → List Layer) → List CostumeAnimation → List CostumeAnimation
on_animation i f [] = []
on_animation zero f (a ∷ as') = record a { layers = f a.layers } ∷ as'
on_animation (suc i) f (a ∷ as') = a ∷ on_animation i f as'

abbrev pub is_null : Option ℕ → Bool
is_null none = true
is_null (some i) = false

abbrev pub same_index : Option ℕ → Option ℕ → Bool
same_index none none = true
same_index (some i) (some j) = i == j
same_index _ _ = false

abbrev pub new_name : Bytes → Bytes → Bytes
new_name [] old = old
new_name (c ∷ cs) old = c ∷ cs
