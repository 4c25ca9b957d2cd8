-- ===== src/Elf/Constants.antt =====
-- The constants of the system's elf.h that the program's tests name.
use arm_reimplementation.Base.{ℕ, ◌/◌, ◌%◌}

abbrev pub sht_symtab : ℕ
sht_symtab = 2

abbrev pub sht_strtab : ℕ
sht_strtab = 3

abbrev pub sht_nobits : ℕ
sht_nobits = 8

abbrev pub sht_rel : ℕ
sht_rel = 9

abbrev pub sht_dynsym : ℕ
sht_dynsym = 11

abbrev pub shn_undef : ℕ
shn_undef = 0

abbrev pub shn_loreserve : ℕ
shn_loreserve = 0xff00

abbrev pub shn_abs : ℕ
shn_abs = 0xfff1

abbrev pub shf_alloc : ℕ
shf_alloc = 2

abbrev pub stt_section : ℕ
stt_section = 3

-- `ELF32_R_SYM` and `ELF32_R_TYPE`, `ELF32_ST_BIND`, `ELF32_ST_TYPE` and `ELF32_ST_VISIBILITY`.
abbrev pub r_sym : ℕ → ℕ
r_sym info = info / 256

abbrev pub r_type : ℕ → ℕ
r_type info = info % 256

abbrev pub st_bind : ℕ → ℕ
st_bind info = info / 16

abbrev pub st_type : ℕ → ℕ
st_type info = info % 16

abbrev pub st_visibility : ℕ → ℕ
st_visibility other = other % 4
