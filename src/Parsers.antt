-- ===== src/Parsers.antt =====
-- The reader of dialog scripts: src/Parsers.
pub mod Stream
pub mod Tokens
pub mod Spans
pub mod Reads
pub mod Cursor
pub mod Yack
pub mod Savegame
