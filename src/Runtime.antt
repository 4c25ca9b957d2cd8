-- ===== src/Runtime.antt =====
-- What the program takes from the C language, its standard library and the machine.
pub mod Bytes
pub mod Io
pub mod Printf
