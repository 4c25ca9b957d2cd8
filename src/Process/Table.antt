-- ===== src/Process/Table.antt =====
-- The first loops of `process_and_remove_relocation_sections`: which sections stay, the symbols,
-- and the size of the new table of names.
pub mod Numbering
use arm_reimplementation.Base.{
  ℕ, zero, suc, ◌+◌, ◌*◌, ◌/◌, Bool, true, false, Option, none, some, List, [], ◌∷◌, ◌++◌, ◌==◌,
  not, length, drop, if◌then◌else◌,
}
use arm_reimplementation.Runtime.Io.{
  Run, M, Host, perror, ◌>>=◌, ◌>>◌, pure, skip, deref, undefined, complain, malloc, fread, fseek,
}
use arm_reimplementation.Elf.{Shdr, shdr_at, c_string}
use arm_reimplementation.Elf.Constants.{sht_rel}
use arm_reimplementation.Section.{
  get_section_type, get_section_offset, get_section_size, get_section_entsize, die,
}
use arm_reimplementation.Symbol.Print.{is_symbol_table}
use arm_reimplementation.Process.Setters.{Symbol, setsize, get_sh_name}

unfoldable pub is_rel : Bool → Shdr → Bool
is_rel big section = get_section_type big section == sht_rel

-- `strlen(&shstrtab[name]) + 1` and what `memcpy` copies: the name with its null byte.
unfoldable pub name_bytes : Bool → Option (List ℕ) → Shdr → Option (List ℕ)
unfolding c_string
name_bytes big none section = none
name_bytes big (some shstrtab) section = elim (c_string (drop (get_sh_name big section) shstrtab)) [
  | none ↦ none
  | some name ↦ some (name ++ (0 ∷ []))
]

module _ (host : Host) where
  -- The mapping from old to new indices (`none` for the -1 of a section that is removed) and the
  -- number of sections that stay: `left` rounds from `i` on.
  unfoldable pub map_sections : List ℕ → ℕ → ℕ → ℕ → M (List (Option ℕ) × ℕ)
  map_sections shdrs zero i new_shnum = pure ([], new_shnum)
  map_sections shdrs (suc left) i new_shnum = do
    section ← deref (shdr_at host.big_endian shdrs i)
    let removed = is_rel host.big_endian section
    (rest, total) ← map_sections shdrs left (i + 1) (if removed then new_shnum else new_shnum + 1)
    pure ((if removed then none else some new_shnum) ∷ rest, total)

  -- One symbol table, read to memory. A table before it is dropped.
  unfoldable pub read_symbols : Shdr → M Symbol
  unfolding malloc fseek fread die setsize
  read_symbols symtab_hdr = do
    let big = host.big_endian
    let symtab_size = get_section_size big symtab_hdr
    let entsize = get_section_entsize big symtab_hdr
    if entsize == 0 then undefined else do
      allocated ← malloc host symtab_size
      if not allocated then die "Erreur lors de l'allocation mémoire pour les symboles" else do
        sought ← fseek host (get_section_offset big symtab_hdr)
        symbols ← fread symtab_size
        if not (length symbols == symtab_size)
            then die "Erreur lors de la lecture de la table des symboles"
            else (let loaded : Symbol = record { symbols = some symbols; size = 0 } in
                pure (setsize loaded (symtab_size / entsize)))

  unfoldable pub load_symbols : List ℕ → ℕ → ℕ → Symbol → M Symbol
  unfolding is_symbol_table read_symbols
  load_symbols shdrs zero i sym = pure sym
  load_symbols shdrs (suc left) i sym = do
    section ← deref (shdr_at host.big_endian shdrs i)
    sym' ← (if is_symbol_table host.big_endian section then read_symbols section else pure sym)
    load_symbols shdrs left (i + 1) sym'

  -- The size that the new table of names will have: 1, and each kept name with its null byte.
  unfoldable pub final_shstrtab_size : List ℕ → List (Option ℕ) → Option (List ℕ) → ℕ → ℕ → M ℕ
  unfolding name_bytes
  final_shstrtab_size shdrs [] shstrtab i size = pure size
  final_shstrtab_size shdrs (none ∷ mapping) shstrtab i size =
      final_shstrtab_size shdrs mapping shstrtab (i + 1) size
  final_shstrtab_size shdrs (some _ ∷ mapping) shstrtab i size = do
    section ← deref (shdr_at host.big_endian shdrs i)
    added ←
        (if get_sh_name host.big_endian section == 0
          then pure 0
          else do name ← deref (name_bytes host.big_endian shstrtab section); pure (length name))
    final_shstrtab_size shdrs mapping shstrtab (i + 1) (size + added)
