-- ===== src/Symbol.antt =====
-- elf_table_symbole.c: the fields of a symbol and the print of the symbol tables.
pub mod Print
use arm_reimplementation.Base.{ℕ, Bool, String, List, [], ◌∷◌}
use arm_reimplementation.Runtime.Bytes.{ntohl, ntohs}
use arm_reimplementation.Elf.{Sym, switch}
use arm_reimplementation.Elf.Constants.{st_type, st_bind, st_visibility}

unfoldable pub get_symbol_type : ℕ → String
get_symbol_type info =
    switch (st_type info)
      ((0, "NOTYPE")
        ∷ (1, "OBJECT")
        ∷ (2, "FUNC")
        ∷ (3, "SECTION")
        ∷ (4, "FILE")
        ∷ (13, "LOPROC")
        ∷ (15, "HIPROC")
        ∷ [])
      "UNKNOWN"

unfoldable pub get_symbol_binding : ℕ → String
get_symbol_binding info =
    switch (st_bind info)
      ((0, "LOCAL") ∷ (1, "GLOBAL") ∷ (2, "WEAK") ∷ (13, "LOPROC") ∷ (15, "HIPROC") ∷ []) "UNKNOWN"

unfoldable pub get_symbol_visibility : ℕ → String
get_symbol_visibility other =
    switch (st_visibility other)
      ((0, "DEFAULT") ∷ (1, "INTERNAL") ∷ (2, "HIDDEN") ∷ (3, "PROTECTED") ∷ []) "UNKNOWN"

module _ (big : Bool) where
  unfoldable pub get_symbol_name : Sym → ℕ
  get_symbol_name symbol = ntohl big symbol.st_name

  unfoldable pub get_symbol_value : Sym → ℕ
  get_symbol_value symbol = ntohl big symbol.st_value

  unfoldable pub get_symbol_size : Sym → ℕ
  get_symbol_size symbol = ntohl big symbol.st_size

  unfoldable pub get_symbol_shndx : Sym → ℕ
  get_symbol_shndx symbol = ntohs big symbol.st_shndx
