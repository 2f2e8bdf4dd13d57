-- ===== src/Util.antt =====
-- src/Util.
pub mod BteaCrypto
pub mod Strings
pub mod Lines
pub mod Conversions
