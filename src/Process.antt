-- ===== src/Process.antt =====
-- process_rel.c: the relocation of an object file into a loadable one.
pub mod Setters
pub mod Apply
pub mod Relocation
pub mod Symbols
pub mod Table
pub mod Copy
pub mod Patch
pub mod Finish
pub mod Rewrite
