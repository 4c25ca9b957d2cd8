-- ===== src/Process/Setters/Reads.antt =====
-- Fields that are set and read back, in the byte order of the file, on either host.
use arm_reimplementation.Base.{ℕ, ◌≡◌, Bool, ◌∙◌, arith}
use arm_reimplementation.Runtime.Bytes.{IsU16, IsU32, ntohl, ntohs}
use arm_reimplementation.Runtime.Bytes.Swap.{ntohl-ntohl, ntohs-ntohs}
use arm_reimplementation.Elf.{Ehdr, Shdr}
use arm_reimplementation.Header.{
  get_header_shoff, get_header_phoff, get_header_shnum, get_header_shstrndx, get_header_entry,
  get_header_shentize, get_header_phnum, get_header_type, get_header_version, get_header_flag,
  get_header_machine, get_header_ehsize, get_header_phentsize,
}
use arm_reimplementation.Section.{
  get_section_type, get_section_offset, get_section_size, get_section_addr, get_section_link,
  get_section_info, get_section_flags, get_section_addralign, get_section_entsize,
}
use arm_reimplementation.Process.Setters.{
  set_header_shoff, set_header_phoff, set_header_shnum, set_header_shstrndx, set_header_entry,
  set_header_shentsize, set_header_phnum, set_header_type, set_header_version, set_header_flag,
  set_header_machine, set_header_ehsize, set_header_phentsize, set_section_type, set_section_offset,
  set_section_size, set_section_addr, set_section_link, set_section_info, set_section_flags,
  set_section_addralign, set_section_entsize, set_section_sh_name, get_sh_name,
}

read_word : (big : Bool) (v : ℕ) → IsU32 v → ntohl big (ntohl big v) ≡ v
read_word big v h = ntohl-ntohl big v ∙ omega arith

read_half : (big : Bool) (v : ℕ) → IsU16 v → ntohs big (ntohs big v) ≡ v
read_half big v h = ntohs-ntohs big v ∙ omega arith

-- Each of the five 32-bit fields of the file's header that is set to a value of 32 bits reads back as
-- it was set, on either host.
pub header_words_read :
    (big : Bool) (header : Ehdr) (v : ℕ)
    → IsU32 v
    → (get_header_shoff big (set_header_shoff big header v) ≡ v)
      × (get_header_phoff big (set_header_phoff big header v) ≡ v)
      × (get_header_entry big (set_header_entry big header v) ≡ v)
      × (get_header_version big (set_header_version big header v) ≡ v)
      × (get_header_flag big (set_header_flag big header v) ≡ v)
unfolding get_header_shoff set_header_shoff get_header_phoff set_header_phoff get_header_entry
    set_header_entry get_header_version set_header_version get_header_flag set_header_flag
header_words_read big header v h = let r = read_word big v h in (r, r, r, r, r)

-- Each of the eight 16-bit fields of the file's header that is set to a value of 16 bits reads back
-- as it was set, on either host.
pub header_halves_read :
    (big : Bool) (header : Ehdr) (v : ℕ)
    → IsU16 v
    → (get_header_shnum big (set_header_shnum big header v) ≡ v)
      × (get_header_shstrndx big (set_header_shstrndx big header v) ≡ v)
      × (get_header_shentize big (set_header_shentsize big header v) ≡ v)
      × (get_header_phnum big (set_header_phnum big header v) ≡ v)
      × (get_header_type big (set_header_type big header v) ≡ v)
      × (get_header_machine big (set_header_machine big header v) ≡ v)
      × (get_header_ehsize big (set_header_ehsize big header v) ≡ v)
      × (get_header_phentsize big (set_header_phentsize big header v) ≡ v)
unfolding get_header_shnum set_header_shnum get_header_shstrndx set_header_shstrndx
    get_header_shentize set_header_shentsize get_header_phnum set_header_phnum get_header_type
    set_header_type get_header_machine set_header_machine get_header_ehsize set_header_ehsize
    get_header_phentsize set_header_phentsize
header_halves_read big header v h = let r = read_half big v h in (r, r, r, r, r, r, r, r)

-- A field of a section's header that is set reads back as it was given.
pub section_fields_read :
    (big : Bool) (section : Shdr) (v : ℕ)
    → IsU32 v
    → (get_sh_name big (set_section_sh_name big section v) ≡ v)
      × (get_section_type big (set_section_type big section v) ≡ v)
      × (get_section_flags big (set_section_flags big section v) ≡ v)
      × (get_section_addr big (set_section_addr big section v) ≡ v)
      × (get_section_offset big (set_section_offset big section v) ≡ v)
      × (get_section_size big (set_section_size big section v) ≡ v)
      × (get_section_link big (set_section_link big section v) ≡ v)
      × (get_section_info big (set_section_info big section v) ≡ v)
      × (get_section_addralign big (set_section_addralign big section v) ≡ v)
      × (get_section_entsize big (set_section_entsize big section v) ≡ v)
unfolding get_sh_name set_section_sh_name get_section_type set_section_type get_section_flags
    set_section_flags get_section_addr set_section_addr get_section_offset set_section_offset
    get_section_size set_section_size get_section_link set_section_link get_section_info
    set_section_info get_section_addralign set_section_addralign get_section_entsize
    set_section_entsize
section_fields_read big section v h = let r = read_word big v h in (r, r, r, r, r, r, r, r, r, r)
