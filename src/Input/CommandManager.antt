-- ===== src/Input/CommandManager.antt =====
-- `CommandManager` (include/engge/Input/CommandManager.hpp, src/Input/CommandManager.cpp): commands by
-- their names, and inputs bound to commands. An `unordered_map` is an association list in which no
-- key stands twice; a handler is a function on the world.
pub mod Bindings
use engge.Base.{
  ℕ, Bool, true, false, ◌&&◌, Option, none, some, List, [], ◌∷◌, Bytes, bytes_eq, ◌==◌,
  if◌then◌else◌,
}

-- `m[key] = value` and `m.find(key)`.
module _ {K V : Type 0} (eq : K → K → Bool) where
  unfoldable pub assign : K → V → List (K × V) → List (K × V)
  assign k v [] = (k, v) ∷ []
  assign k v ((k', v') ∷ m) =
      let rest = assign k v m in if eq k' k then (k', v) ∷ m else (k', v') ∷ rest

  unfoldable pub find : K → List (K × V) → Option V
  find k [] = none
  find k ((k', v) ∷ m) = if eq k' k then some v else find k m

-- `Input`, with its keys as their codes, and its `operator==`.
pub record Input : Type 0 where
  pub meta_key : ℕ
  pub input : ℕ

abbrev pub input_eq : Input → Input → Bool
input_eq a b = (a.meta_key == b.meta_key) && (a.input == b.input)

pub record CommandManager (World : Type 0) : Type 0 where
  pub command_handlers : List (Bytes × (World → World))
  pub pressed_command_handlers : List (Bytes × (Bool → World → World))
  pub input_bindings : List (Input × Bytes)

module _ {World : Type 0} where
  unfoldable pub register_command :
      Bytes → (World → World) → CommandManager World → CommandManager World
  register_command command handler m = record m {
    command_handlers = assign bytes_eq command handler m.command_handlers;
  }

  unfoldable pub register_pressed_command :
      Bytes → (Bool → World → World) → CommandManager World → CommandManager World
  register_pressed_command command handler m = record m {
    pressed_command_handlers = assign bytes_eq command handler m.pressed_command_handlers;
  }

  unfoldable pub register_commands :
      List (Bytes × (World → World)) → CommandManager World → CommandManager World
  unfolding register_command
  register_commands [] m = m
  register_commands ((command, handler) ∷ cs) m =
      register_commands cs (register_command command handler m)

  unfoldable pub register_input_binding :
      Input → Bytes → CommandManager World → CommandManager World
  register_input_binding key command m = record m {
    input_bindings = assign input_eq key command m.input_bindings;
  }

  unfoldable pub register_input_bindings :
      List (Input × Bytes) → CommandManager World → CommandManager World
  unfolding register_input_binding
  register_input_bindings [] m = m
  register_input_bindings ((key, command) ∷ bs) m =
      register_input_bindings bs (register_input_binding key command m)

  unfoldable pub execute_command : Bytes → CommandManager World → World → World
  execute_command command m w = elim (find bytes_eq command m.command_handlers) [
    | none ↦ w
    | some handler ↦ handler w
  ]

  -- `execute(input)`
  unfoldable pub execute_input : Input → CommandManager World → World → World
  unfolding execute_command
  execute_input key m w = elim (find input_eq key m.input_bindings) [
    | none ↦ w
    | some command ↦ execute_command command m w
  ]

  -- `execute(input, keyDown)`
  unfoldable pub execute_pressed : Input → Bool → CommandManager World → World → World
  execute_pressed key key_down m w = elim (find input_eq key m.input_bindings) [
    | none ↦ w
    | some command ↦ elim (find bytes_eq command m.pressed_command_handlers) [
      | none ↦ w
      | some handler ↦ handler key_down w
    ]
  ]
