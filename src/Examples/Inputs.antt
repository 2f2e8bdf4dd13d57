-- ===== src/Examples/Inputs.antt =====
-- The theorems on inputs at a few bindings.
use engge.Base.{ℕ, ◌+◌, ◌≡◌, List, [], ◌∷◌, Bytes, bytes_eq, codes}
use engge.Input.CommandManager.{
  Input, CommandManager, find, execute_input, register_commands, register_input_bindings,
}
use engge.Input.CommandManager.Bindings.{execute_input-register}

abbrev escape : Input
escape = record { meta_key = 0; input = 8 }

abbrev bindings : List (Input × Bytes)
bindings = (escape, codes "quit") ∷ (escape, codes "skip") ∷ []

abbrev commands : List (Bytes × (ℕ → ℕ))
commands = (codes "skip", λ w. w + 1) ∷ (codes "quit", λ w. w + 2) ∷ (codes "skip", λ w. w + 3) ∷ []

abbrev no_commands : CommandManager ℕ
no_commands = record { command_handlers = []; pressed_command_handlers = []; input_bindings = [] }

execute_input-register_example :
    execute_input escape
      (register_commands commands (register_input_bindings bindings no_commands))
      4
    ≡ 7
unfolding bytes_eq find
execute_input-register_example = execute_input-register escape bindings commands no_commands 4
