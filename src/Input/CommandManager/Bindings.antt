-- ===== src/Input/CommandManager/Bindings.antt =====
-- What an input leads to, once bindings and commands are registered.
use engge.Base.{
  ◌≡◌, ◌↔◌, refl, sym, ap, ◌∙◌, inl, inr, Bool, true, false, Option, none, some, List, [], ◌∷◌,
  Bytes, bytes_eq, bytes_eq_iff, if◌then◌else◌, arith, Bool-cases, Option-cases,
}
use mathlib.Core.Path.{fun_ext}
use engge.Input.CommandManager.{
  assign, find, Input, input_eq, CommandManager, register_command, register_commands,
  register_input_binding, register_input_bindings, execute_command, execute_input,
}

-- The last of the values that the list has for the key.
abbrev pub last_of : {K V : Type 0} → (K → K → Bool) → K → List (K × V) → Option V
last_of eq k [] = none
last_of eq k ((k', v) ∷ kvs) = elim (last_of eq k kvs) [
  | some w ↦ some w
  | none ↦ if eq k' k then some v else none
]

-- The value, or what there was before.
abbrev pub or_else : {V : Type 0} → Option V → Option V → Option V
or_else none o = o
or_else (some v) o = some v

module _ {K V : Type 0} (eq : K → K → Bool) where
  -- Where every pair of a list is assigned in turn.
  assign_all : List (K × V) → List (K × V) → List (K × V)
  assign_all [] m = m
  assign_all ((k, v) ∷ kvs) m = assign_all kvs (assign eq k v m)

module _ {K V : Type 0} (eq : K → K → Bool) (law : (a b : K) → (eq a b ≡ true) ↔ (a ≡ b)) where
  find-assign :
      (k k' : K) (v : V) (m : List (K × V))
      → find eq k (assign eq k' v m) ≡ (if eq k' k then some v else find eq k m)
  unfolding find assign
  find-assign k k' v [] = refl
  find-assign k k' v ((a, x) ∷ m) = elim (Bool-cases (eq a k')) [
    | inl hit ↦
        let same : a ≡ k' = (law a k').0 hit in
        rw (hit, same) (elim (Bool-cases (eq k' k)) [ inl e ↦ rw e refl | inr e ↦ rw e refl ])
    | inr miss ↦ rw miss (elim (Bool-cases (eq a k)) [
      | inr e ↦ rw e (find-assign k k' v m)
      | inl e ↦
          let same : a ≡ k = (law a k).0 e in
          let other : eq k' k ≡ false = elim (Bool-cases (eq k' k)) [
            | inr f ↦ f
            | inl f ↦ let hit : eq a k' ≡ true = (law a k').1 (same ∙ sym ((law k' k).0 f)) in cc
          ] in
          rw (e, other) refl
    ])
  ]

  find-assign_all :
      (k : K) (kvs m : List (K × V))
      → find eq k (assign_all eq kvs m) ≡ or_else (last_of eq k kvs) (find eq k m)
  unfolding assign_all
  find-assign_all k [] m = refl
  find-assign_all k ((a, v) ∷ kvs) m =
      find-assign_all k kvs (assign eq a v m)
      ∙ ap (or_else (last_of eq k kvs)) (find-assign k a v m)
      ∙ elim (Option-cases (last_of eq k kvs)) [
        | inr (w, e) ↦ rw e refl
        | inl e ↦ rw e (elim (Bool-cases (eq a k)) [ inl h ↦ rw h refl | inr h ↦ rw h refl ])
      ]

input_eq_iff : (a b : Input) → (input_eq a b ≡ true) ↔ (a ≡ b)
input_eq_iff a b = (λ h. ground arith, λ e. ground arith)

module _ {World : Type 0} where
  register_commands-handlers :
      (cs : List (Bytes × (World → World))) (m : CommandManager World)
      → ((register_commands cs m).command_handlers ≡ assign_all bytes_eq cs m.command_handlers)
        × ((register_commands cs m).input_bindings ≡ m.input_bindings)
  unfolding register_commands assign_all register_command
  register_commands-handlers [] m = (refl, refl)
  register_commands-handlers ((c, h) ∷ cs) m = register_commands-handlers cs _

  register_input_bindings-bindings :
      (bs : List (Input × Bytes)) (m : CommandManager World)
      → ((register_input_bindings bs m).input_bindings ≡ assign_all input_eq bs m.input_bindings)
        × ((register_input_bindings bs m).command_handlers ≡ m.command_handlers)
  unfolding register_input_bindings assign_all register_input_binding
  register_input_bindings-bindings [] m = (refl, refl)
  register_input_bindings-bindings ((i, c) ∷ bs) m = register_input_bindings-bindings bs _

  -- The handler of the command runs, if both are there.
  abbrev pub lead : Option Bytes → (Bytes → Option (World → World)) → World → World
  lead none handlers w = w
  lead (some command) handlers w = elim (handlers command) [ none ↦ w | some handler ↦ handler w ]

  execute_input-lead :
      (key : Input) (m : CommandManager World) (w : World)
      → execute_input key m w
        ≡ lead (find input_eq key m.input_bindings) (λ c. find bytes_eq c m.command_handlers) w
  unfolding execute_input execute_command
  execute_input-lead key m w = elim (Option-cases (find input_eq key m.input_bindings)) [
    | inl e ↦ rw (e, execute_input) refl
    | inr (c, e) ↦ rw (e, execute_input, execute_command) refl
  ]

  -- Once inputs are bound and commands are registered, on top of what there was, an input runs the
  -- last handler of the last command that it was bound to, if there are both. What the two lists do
  -- not name is as it was before.
  pub execute_input-register :
      (key : Input) (bs : List (Input × Bytes)) (cs : List (Bytes × (World → World)))
      (m : CommandManager World) (w : World)
      → execute_input key (register_commands cs (register_input_bindings bs m)) w
        ≡ lead
            (or_else (last_of input_eq key bs) (find input_eq key m.input_bindings))
            (λ c. or_else (last_of bytes_eq c cs) (find bytes_eq c m.command_handlers))
            w
  execute_input-register key bs cs m w =
      let n = register_input_bindings bs m in
      let c = register_commands-handlers cs n in
      let b = register_input_bindings-bindings bs m in
      let handlers = λ (x : Bytes). find bytes_eq x (register_commands cs n).command_handlers in
      execute_input-lead key (register_commands cs n) w
      ∙ ap (λ l. lead (find input_eq key l) handlers w) (c.1 ∙ b.0)
      ∙ ap (λ o. lead o handlers w) (find-assign_all input_eq input_eq_iff key bs m.input_bindings)
      ∙ ap (λ h. lead (or_else (last_of input_eq key bs) (find input_eq key m.input_bindings)) h w)
          (fun_ext λ command.
            ap (find bytes_eq command) (c.0 ∙ ap (assign_all bytes_eq cs) b.1)
            ∙ find-assign_all bytes_eq bytes_eq_iff command cs m.command_handlers)
