-- ===== src/Section.antt =====
-- elf_section.c: the fields of a section header, the section table and the table of its names.
pub mod Print
use arm_reimplementation.Base.{
  ℕ, ◌*◌, Bool, true, false, String, Option, none, some, List, [], ◌∷◌, ◌++◌, ◌==◌, not, length,
  drop, codes, if◌then◌else◌,
}
use arm_reimplementation.Runtime.Bytes.{ntohl, ntohs}
use arm_reimplementation.Runtime.Io.{
  Run, M, Host, perror, ◌>>=◌, ◌>>◌, pure, skip, exit, deref, complain, malloc, fread, fseek, items,
  mul_int,
}
use arm_reimplementation.Elf.{Ehdr, Shdr, shdr_at, switch}
use arm_reimplementation.Header.{
  get_header_shoff, get_header_shentize, get_header_shnum, get_header_shstrndx, valider_elf,
}

module _ (big : Bool) where
  unfoldable pub get_section_type : Shdr → ℕ
  get_section_type section = ntohl big section.sh_type

  unfoldable pub get_section_offset : Shdr → ℕ
  get_section_offset section = ntohl big section.sh_offset

  unfoldable pub get_section_size : Shdr → ℕ
  get_section_size section = ntohl big section.sh_size

  unfoldable pub get_section_addr : Shdr → ℕ
  get_section_addr section = ntohl big section.sh_addr

  unfoldable pub get_section_e_shnum : Ehdr → ℕ
  get_section_e_shnum header = ntohs big header.e_shnum

  unfoldable pub get_section_addralign : Shdr → ℕ
  get_section_addralign section = ntohl big section.sh_addralign

  unfoldable pub get_section_flags : Shdr → ℕ
  get_section_flags section = ntohl big section.sh_flags

  unfoldable pub get_section_link : Shdr → ℕ
  get_section_link section = ntohl big section.sh_link

  unfoldable pub get_section_info : Shdr → ℕ
  get_section_info section = ntohl big section.sh_info

  unfoldable pub get_section_entsize : Shdr → ℕ
  get_section_entsize section = ntohl big section.sh_entsize

  -- The memory behind the returned pointer; `none` when the section table is left. Element
  -- `index` of the table is what `sections` gives, and a null name table is `none`.
  unfoldable pub get_section_name : ℕ → (ℕ → Option Shdr) → Option (List ℕ) → Option (List ℕ)
  get_section_name index sections none = some (codes "Nom de section non disponible" ++ (0 ∷ []))
  get_section_name index sections (some shstrtab) = elim (sections index) [
    | none ↦ none
    | some section ↦ some (drop (ntohl big section.sh_name) shstrtab)
  ]

unfoldable pub get_section_type_name : ℕ → String
get_section_type_name sh_type =
    switch sh_type
      ((0, "NULL")
        ∷ (1, "PROGBITS")
        ∷ (2, "SYMTAB")
        ∷ (3, "STRTAB")
        ∷ (4, "RELA")
        ∷ (5, "HASH")
        ∷ (6, "DYNAMIC")
        ∷ (7, "NOTE")
        ∷ (8, "NOBITS")
        ∷ (9, "REL")
        ∷ (10, "SHLIB")
        ∷ (11, "DYNSYM")
        ∷ (14, "INIT_ARRAY")
        ∷ (15, "FINI_ARRAY")
        ∷ (16, "PREINIT_ARRAY")
        ∷ (17, "GROUP")
        ∷ (18, "SYMTAB_SHNDX")
        ∷ (19, "NUM")
        ∷ (0x60000000, "LOOS")
        ∷ (0x6ffffff5, "GNU_ATTRIBUTES")
        ∷ (0x6ffffff6, "GNU_HASH")
        ∷ (0x6ffffff7, "GNU_LIBLIST")
        ∷ (0x6ffffff8, "CHECKSUM")
        ∷ (0x6ffffffa, "LOSUNW")
        ∷ (0x6ffffffb, "SUNW_COMDAT")
        ∷ (0x6ffffffc, "SUNW_syminfo")
        ∷ (0x6ffffffd, "GNU_verdef")
        ∷ (0x6ffffffe, "GNU_verneed")
        ∷ (0x6fffffff, "GNU_versym")
        ∷ (0x70000000, "LOPROC")
        ∷ (0x7fffffff, "HIPROC")
        ∷ (0x80000000, "LOUSER")
        ∷ (0x8fffffff, "HIUSER")
        ∷ [])
      "UNKNOWN"

-- An error message of `perror`, and `exit(1)`.
unfoldable pub die : {A : Type 0} → String → M A
unfolding complain
die why = do complain (perror why); exit 1

-- The section table as the file has it: `shentsize * shnum` bytes.
unfoldable pub get_sections : Host → Option Ehdr → M (List ℕ)
unfolding die valider_elf fseek mul_int malloc fread items
get_sections host pointer = do
  let big = host.big_endian
  valid ← valider_elf pointer
  header ← deref pointer
  let entsize = get_header_shentize big header
  let count = get_header_shnum big header
  if not valid then die "Error reading ELF header" else do
    sought ← fseek host (get_header_shoff big header)
    if not sought then die "Error seeking to section header table" else do
      size ← mul_int entsize count
      allocated ← malloc host size
      if not allocated then die "Error allocating memory for section headers" else do
        shdr ← fread size
        if items entsize (length shdr) == count
            then pure shdr
            else die "Error reading section headers"

-- The table of the sections' names, or null where the header names none.
unfoldable pub get_shstrtab : Host → Ehdr → List ℕ → M (Option (List ℕ))
unfolding die fseek malloc fread items
get_shstrtab host header shdrs =
    let big = host.big_endian in
    if get_header_shstrndx big header == 0 then pure none else do
      shstrtab_hdr ← deref (shdr_at big shdrs (get_header_shstrndx big header))
      let size = ntohl big shstrtab_hdr.sh_size
      allocated ← malloc host size
      if not allocated then die "Error allocating memory for section header string table" else do
        sought ← fseek host (ntohl big shstrtab_hdr.sh_offset)
        if not sought then die "Error reading section header string table" else do
          shstrtab ← fread size
          if items size (length shstrtab) == 1
              then pure (some shstrtab)
              else die "Error reading section header string table"
