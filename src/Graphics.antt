-- ===== src/Graphics.antt =====
-- What is drawn: src/Graphics.
pub mod Animation
pub mod AnimControl
