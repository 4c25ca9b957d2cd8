-- ===== src/Process/Setters.antt =====
-- The functions of process_rel.c that set one field, in the byte order of the file.
pub mod Reads
use arm_reimplementation.Base.{ℕ, Bool, Option, List}
use arm_reimplementation.Runtime.Bytes.{ntohl, htonl, htons}
use arm_reimplementation.Elf.{Ehdr, Shdr, Sym}

module _ (big : Bool) where
  unfoldable pub set_header_shoff : Ehdr → ℕ → Ehdr
  set_header_shoff header value = record header { e_shoff = htonl big value }

  unfoldable pub set_header_phoff : Ehdr → ℕ → Ehdr
  set_header_phoff header value = record header { e_phoff = htonl big value }

  unfoldable pub set_header_shentsize : Ehdr → ℕ → Ehdr
  set_header_shentsize header value = record header { e_shentsize = htons big value }

  unfoldable pub set_header_phentsize : Ehdr → ℕ → Ehdr
  set_header_phentsize header value = record header { e_phentsize = htons big value }

  unfoldable pub set_header_phnum : Ehdr → ℕ → Ehdr
  set_header_phnum header value = record header { e_phnum = htons big value }

  unfoldable pub set_header_ehsize : Ehdr → ℕ → Ehdr
  set_header_ehsize header value = record header { e_ehsize = htons big value }

  unfoldable pub set_header_shnum : Ehdr → ℕ → Ehdr
  set_header_shnum header value = record header { e_shnum = htons big value }

  unfoldable pub set_header_shstrndx : Ehdr → ℕ → Ehdr
  set_header_shstrndx header value = record header { e_shstrndx = htons big value }

  unfoldable pub set_header_type : Ehdr → ℕ → Ehdr
  set_header_type header value = record header { e_type = htons big value }

  unfoldable pub set_header_machine : Ehdr → ℕ → Ehdr
  set_header_machine header value = record header { e_machine = htons big value }

  unfoldable pub set_header_version : Ehdr → ℕ → Ehdr
  set_header_version header value = record header { e_version = htonl big value }

  unfoldable pub set_header_flag : Ehdr → ℕ → Ehdr
  set_header_flag header value = record header { e_flags = htonl big value }

  unfoldable pub set_header_entry : Ehdr → ℕ → Ehdr
  set_header_entry header value = record header { e_entry = htonl big value }

  unfoldable pub get_sh_name : Shdr → ℕ
  get_sh_name shdr = ntohl big shdr.sh_name

  unfoldable pub set_section_name : Shdr → ℕ → Shdr
  set_section_name shdr value = record shdr { sh_name = htonl big value }

  unfoldable pub set_section_type : Shdr → ℕ → Shdr
  set_section_type shdr value = record shdr { sh_type = htonl big value }

  unfoldable pub set_section_offset : Shdr → ℕ → Shdr
  set_section_offset shdr value = record shdr { sh_offset = htonl big value }

  unfoldable pub set_section_size : Shdr → ℕ → Shdr
  set_section_size shdr value = record shdr { sh_size = htonl big value }

  unfoldable pub set_section_addr : Shdr → ℕ → Shdr
  set_section_addr shdr value = record shdr { sh_addr = htonl big value }

  unfoldable pub set_section_addralign : Shdr → ℕ → Shdr
  set_section_addralign shdr value = record shdr { sh_addralign = htonl big value }

  unfoldable pub set_section_flags : Shdr → ℕ → Shdr
  set_section_flags shdr value = record shdr { sh_flags = htonl big value }

  unfoldable pub set_section_link : Shdr → ℕ → Shdr
  set_section_link shdr value = record shdr { sh_link = htonl big value }

  unfoldable pub set_section_info : Shdr → ℕ → Shdr
  set_section_info shdr value = record shdr { sh_info = htonl big value }

  unfoldable pub set_section_entsize : Shdr → ℕ → Shdr
  set_section_entsize shdr value = record shdr { sh_entsize = htonl big value }

  unfoldable pub set_section_sh_name : Shdr → ℕ → Shdr
  set_section_sh_name shdr value = record shdr { sh_name = htonl big value }

  unfoldable pub setsymstindx : Sym → ℕ → Sym
  setsymstindx symbol stindx = record symbol { st_shndx = htons big stindx }

  unfoldable pub setsymvalue : Sym → ℕ → Sym
  setsymvalue symbol value = record symbol { st_value = htonl big value }

-- The loaded symbol table: its memory, null before there is one, and the number of symbols.
pub record Symbol : Type 0 where
  pub symbols : Option (List ℕ)
  pub size : ℕ

unfoldable pub setsize : Symbol → ℕ → Symbol
setsize s n = record s { size = n }
