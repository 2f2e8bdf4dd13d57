-- ===== src/Dialog.antt =====
-- The dialog subsystem: src/Dialog and the syntax tree of include/engge/Parsers/YackParser.hpp.
pub mod Ast
pub mod Script
pub mod States
pub mod Player
pub mod Manager
