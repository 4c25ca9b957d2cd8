-- ===== src/Examples/Tables.antt =====
-- Headers, symbols and addresses.
use arm_reimplementation.Base.{
  ℕ, ◌*◌, ◌≤◌, ◌<◌, ◌≡◌, refl, true, false, Option, none, some, List, [], ◌∷◌, ◌++◌, get_elem?,
  take, replicate, arith, if◌then◌else◌,
}
use arm_reimplementation.Runtime.Bytes.{ntohl, ntohs, load32}
use arm_reimplementation.Runtime.Io.{World, Host, ok}
use arm_reimplementation.Elf.{c_string, Ehdr, Shdr, shdr_at, load_shdr, load_ehdr}
use arm_reimplementation.Header.{
  get_header_version, get_header_flag, get_header_machine, get_header_ehsize, get_header_phentsize,
  get_header_shoff, get_header_phoff, get_header_shnum, get_header_shstrndx, get_header_entry,
  get_header_shentize, get_header_phnum, get_header_type,
}
use arm_reimplementation.Section.{
  get_section_type, get_section_offset, get_section_size, get_section_addr, get_section_link,
  get_section_info, get_section_flags, get_section_addralign, get_section_entsize,
}
use arm_reimplementation.Util.{
  reverse_2, reverse_4, is_big_endian, is_big_endian_lem, reverse_4-ntohl,
}
use arm_reimplementation.Process.Setters.{
  set_header_version, set_header_flag, set_header_machine, set_header_ehsize, set_header_phentsize,
  set_header_shoff, set_header_phoff, set_header_shnum, set_header_shstrndx, set_header_entry,
  set_header_shentsize, set_header_phnum, set_header_type, set_section_type, set_section_offset,
  set_section_size, set_section_addr, set_section_link, set_section_info, set_section_flags,
  set_section_addralign, set_section_entsize, set_section_sh_name, get_sh_name,
}
use arm_reimplementation.Process.Setters.Reads.{
  header_words_read, header_halves_read, section_fields_read,
}
use arm_reimplementation.Process.Table.{is_rel, map_sections}
use arm_reimplementation.Process.Table.Numbering.{HasSections, kept, map_sections_numbers}
use arm_reimplementation.Process.Copy.{align_address, rename_section}
use arm_reimplementation.Process.Copy.Names.{rename_section-c_string}
use arm_reimplementation.Base.{codes, drop, ◌≢◌}
use arm_reimplementation.Process.Copy.Addresses.{align_address_lem}

abbrev pub section_of : ℕ → Shdr
section_of type = record {
  sh_name = 0;
  sh_type = type;
  sh_flags = 0;
  sh_addr = 0;
  sh_offset = 0;
  sh_size = 0;
  sh_link = 0;
  sh_info = 0;
  sh_addralign = 0;
  sh_entsize = 0;
}

-- A section, its relocation table, and one section more.
abbrev three_sections : List Shdr
three_sections = section_of 1 ∷ section_of 9 ∷ section_of 3 ∷ []

abbrev three_headers : List ℕ
three_headers =
    replicate 7 0 ++ (1 ∷ replicate 39 0 ++ (9 ∷ replicate 39 0 ++ (3 ∷ replicate 32 0)))

abbrev pub host : Host
host = record {
  big_endian = true;
  can_alloc = λ n. true;
  seekable = true;
  disk = 1000;
  file_at = λ name. none;
  creatable = λ name. true;
}

abbrev pub world : World
world = record { input = []; pos = 0; written = []; wpos = 0; out = []; err = [] }

three_headers-HasSections : HasSections true three_headers 0 three_sections
unfolding HasSections shdr_at load_shdr load32
three_headers-HasSections = (refl, (refl, (refl, tt)))

map_sections_numbers_example :
    (mapping : List (Option ℕ)) × (map_sections host three_headers 3 0 0 world
      ≡ ok (mapping, kept true three_sections) world)
    × ((k : ℕ) (section : Shdr)
        → get_elem? three_sections k ≡ some section
        → get_elem? mapping k
          ≡ some (if is_rel true section then none else some (kept true (take k three_sections))))
map_sections_numbers_example =
    map_sections_numbers host three_headers three_sections world three_headers-HasSections

align_address_lem_example :
    (q : ℕ) × (align_address 0x59 4 ≡ q * 4)
    × (0x59 ≤ align_address 0x59 4)
    × (align_address 0x59 4 < 0x5d)
align_address_lem_example = align_address_lem 2 30 0x59 refl (omega arith)

reverse_4-ntohl_example :
    (reverse_4 0x12345678 ≡ ntohl false 0x12345678) × (reverse_2 0x1234 ≡ ntohs false 0x1234)
reverse_4-ntohl_example = reverse_4-ntohl 0x12345678 0x1234 (omega arith) (omega arith)

is_big_endian_lem_example : is_big_endian false ≡ false
is_big_endian_lem_example = is_big_endian_lem false

abbrev pub zeros : Ehdr
zeros = load_ehdr true (replicate 52 0)

header_words_read_example :
    (get_header_shoff false (set_header_shoff false zeros 0x1234) ≡ 0x1234)
    × (get_header_phoff false (set_header_phoff false zeros 0x1234) ≡ 0x1234)
    × (get_header_entry false (set_header_entry false zeros 0x1234) ≡ 0x1234)
    × (get_header_version false (set_header_version false zeros 0x1234) ≡ 0x1234)
    × (get_header_flag false (set_header_flag false zeros 0x1234) ≡ 0x1234)
header_words_read_example = header_words_read false zeros 0x1234 (omega arith)

header_halves_read_example :
    (get_header_shnum false (set_header_shnum false zeros 7) ≡ 7)
    × (get_header_shstrndx false (set_header_shstrndx false zeros 7) ≡ 7)
    × (get_header_shentize false (set_header_shentsize false zeros 7) ≡ 7)
    × (get_header_phnum false (set_header_phnum false zeros 7) ≡ 7)
    × (get_header_type false (set_header_type false zeros 7) ≡ 7)
    × (get_header_machine false (set_header_machine false zeros 7) ≡ 7)
    × (get_header_ehsize false (set_header_ehsize false zeros 7) ≡ 7)
    × (get_header_phentsize false (set_header_phentsize false zeros 7) ≡ 7)
header_halves_read_example = header_halves_read false zeros 7 (omega arith)

section_fields_read_example :
    (get_sh_name false (set_section_sh_name false (section_of 1) 7) ≡ 7)
    × (get_section_type false (set_section_type false (section_of 1) 7) ≡ 7)
    × (get_section_flags false (set_section_flags false (section_of 1) 7) ≡ 7)
    × (get_section_addr false (set_section_addr false (section_of 1) 7) ≡ 7)
    × (get_section_offset false (set_section_offset false (section_of 1) 7) ≡ 7)
    × (get_section_size false (set_section_size false (section_of 1) 7) ≡ 7)
    × (get_section_link false (set_section_link false (section_of 1) 7) ≡ 7)
    × (get_section_info false (set_section_info false (section_of 1) 7) ≡ 7)
    × (get_section_addralign false (set_section_addralign false (section_of 1) 7) ≡ 7)
    × (get_section_entsize false (set_section_entsize false (section_of 1) 7) ≡ 7)
section_fields_read_example = section_fields_read false (section_of 1) 7 (omega arith)

-- A table of names with `.text` at offset 2, and a section that has it.
abbrev old_names : List ℕ
old_names = 0 ∷ b'a' ∷ codes ".text" ++ (0 ∷ [])

abbrev text_section : Shdr
text_section = record (section_of 1) { sh_name = 0x02000000 }

text_found : c_string (drop (get_sh_name false text_section) old_names) ≡ some (codes ".text")
unfolding c_string get_sh_name ntohl
text_found = refl

text_named : get_sh_name false text_section ≢ 0
unfolding get_sh_name ntohl
text_named e = omega arith

rename_section-c_string_example :
    (renamed : Shdr) × (names' : List ℕ) × (rename_section false
        (some old_names)
        20
        text_section
        (0 ∷ [])
      ≡ some (renamed, names'))
    × (c_string (drop (get_sh_name false renamed) (names' ++ (b'b' ∷ []))) ≡ some (codes ".text"))
rename_section-c_string_example =
    rename_section-c_string false old_names 20 text_section (0 ∷ []) (codes ".text") (b'b' ∷ [])
      text_named text_found (omega arith) (omega arith)
