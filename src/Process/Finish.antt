-- ===== src/Process/Finish.antt =====
-- `process_and_remove_relocation_sections`: the end of the file and its new header.
use arm_reimplementation.Base.{
  ℕ, zero, suc, ◌+◌, Bool, true, false, Option, none, some, List, [], ◌∷◌, ◌==◌, not, get_elem?,
  codes, if◌then◌else◌,
}
use arm_reimplementation.Runtime.Io.{
  M, Host, perror, ◌>>=◌, ◌>>◌, pure, skip, deref, complain, fwrite, fseek_out, fseek_out_end,
}
use arm_reimplementation.Elf.{Ehdr, Shdr, store_ehdr, store_shdr, strcmp_eq, ehdr_size, shdr_size}
use arm_reimplementation.Header.{get_header_shstrndx}
use arm_reimplementation.Section.{get_section_addr, get_section_name}
use arm_reimplementation.Process.Setters.{
  set_header_entry, set_header_shnum, set_header_shoff, set_header_shstrndx,
}
use arm_reimplementation.Process.Table.{}
use arm_reimplementation.Process.Copy.{Plan, Copy}

module _ (host : Host) where
  -- The entry point: the address of the last new section that is named .text, or 0.
  unfoldable pub find_entry : List Shdr → List ℕ → ℕ → ℕ → ℕ → M ℕ
  unfolding strcmp_eq get_section_name
  find_entry new_shdrs new_shstrtab zero i entry = pure entry
  find_entry new_shdrs new_shstrtab (suc left) i entry = do
    let big = host.big_endian
    name ← deref (get_section_name big i (get_elem? new_shdrs) (some new_shstrtab))
    is_text ← deref (strcmp_eq name (codes ".text"))
    section ← deref (get_elem? new_shdrs i)
    find_entry new_shdrs new_shstrtab left (i + 1)
        (if is_text then get_section_addr big section else entry)

  -- `section_mapping[index]` as a half word: -1 is 0xffff.
  abbrev half_index : Option ℕ → ℕ
  half_index none = 0xffff
  half_index (some index) = index

  unfoldable pub final_header : Ehdr → ℕ → ℕ → ℕ → Option ℕ → Ehdr
  unfolding set_header_entry set_header_shnum set_header_shoff set_header_shstrndx
  final_header header entry new_shnum shoff shstrndx =
      let big = host.big_endian in
      let h1 = set_header_entry big header entry in
      let h2 = set_header_shnum big h1 new_shnum in
      let h3 = set_header_shoff big h2 shoff in set_header_shstrndx big h3 (half_index shstrndx)

  -- The table of the new headers at the end of the file.
  unfoldable pub write_table : List Shdr → M Bool
  unfolding fwrite complain
  write_table [] = pure true
  write_table (section ∷ sections) = do
    sent ← fwrite host (store_shdr host.big_endian section)
    if sent == shdr_size
        then write_table sections
        else (complain (perror "Erreur lors de l'écriture de la table des sections") >> pure false)

  unfoldable pub write_end : Plan → Copy → M (Unit {0})
  unfolding find_entry final_header fseek_out fseek_out_end write_table fwrite complain
  write_end plan state = do
    let big = host.big_endian
    entry ← find_entry state.new_shdrs state.new_shstrtab plan.new_shnum 0 0
    shstrndx ← deref (get_elem? plan.mapping (get_header_shstrndx big plan.header))
    let header' = final_header plan.header entry plan.new_shnum state.current_offset shstrndx
    fseek_out_end host
    written ← write_table state.new_shdrs
    if not written then skip else do
      fseek_out host 0
      sent ← fwrite host (store_ehdr big header')
      if sent == ehdr_size
          then skip
          else complain (perror "Erreur lors de la mise à jour de l'en-tête")
