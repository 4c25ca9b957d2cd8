-- ===== src/Examples.antt =====
-- The theorems on concrete inputs.
pub mod Branches
pub mod Layout
pub mod Lexer
pub mod Remap
pub mod Loading
pub mod Headers
pub mod Packets
pub mod Sessions
pub mod Tables
pub mod Names
