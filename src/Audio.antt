-- ===== src/Audio.antt =====
-- Sounds: src/Audio.
pub mod SoundManager
