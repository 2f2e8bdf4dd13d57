-- ===== src/Input.antt =====
-- What keys lead to: src/Input.
pub mod CommandManager
