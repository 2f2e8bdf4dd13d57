-- ===== src/Examples/Costumes.antt =====
-- A costume with two animations, and the theorem on costumes at it.
use engge.Base.{ℕ, true, false, none, List, [], ◌∷◌, codes, bytes_eq, ◌≡◌, refl}
use engge.Dialog.Ast.{pos}
use engge.Util.Strings.{starts_with}
use engge.Util.Conversions.{Facing}
use engge.Entities.CostumeLayers.{CostumeAnimation, Layer}
use engge.Entities.Costume.{Control, Costume, current_layers}
use engge.Entities.Costume.Calls.{
  IsShown, Call, sets_state, shows_layer, loads, make_all, make_all-IsShown,
}

abbrev still : Control
still = record { State = ℕ; set_animation = λ i s. i; play = λ loop s. s; get_loop = λ s. false }

abbrev layers : List Layer
layers =
    record { name = codes "blink"; visible = true }
    ∷ record { name = codes "head2"; visible = true }
    ∷ []

abbrev drawn : List CostumeAnimation
drawn =
    record { name = codes "stand_front"; layers = layers }
    ∷ record { name = codes "walk_front"; layers = layers }
    ∷ []

abbrev bare : Costume still
bare = record {
  animations = [];
  current = none;
  facing = Facing.face_front;
  hidden_layers = [];
  animation = codes "stand";
  stand_name = codes "stand";
  head_name = codes "head";
  walk_name = codes "walk";
  reach_name = codes "reach";
  head_index = pos 0;
  facings = λ f. f;
  lock_facing = false;
  control = 0;
}

abbrev calls : List Call
calls = loads drawn ∷ shows_layer (codes "blink") false ∷ sets_state (codes "walk") true ∷ []

-- The second head and the layer that was hidden do not show.
walking :
    current_layers (make_all calls bare)
    ≡ record { name = codes "blink"; visible = false }
      ∷ record { name = codes "head2"; visible = false }
      ∷ []
unfolding make_all bytes_eq starts_with
walking = refl

make_all-IsShown_example : IsShown (make_all calls bare)
unfolding bytes_eq
make_all-IsShown_example =
    make_all-IsShown calls bare (((refl, (refl, tt)), ((refl, (refl, tt)), tt)), (tt, (tt, tt)))
      (record { distinct = tt; shown = tt })
