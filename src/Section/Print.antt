-- ===== src/Section/Print.antt =====
-- `afficher_section_headers`: the section table in words, on the standard output.
use arm_reimplementation.Base.{
  ℕ, zero, suc, ◌+◌, Bool, Option, none, some, List, [], ◌∷◌, ◌++◌, codes, if◌then◌else◌,
}
use arm_reimplementation.Runtime.Io.{M, Host, ◌>>=◌, ◌>>◌, skip, deref, print}
use arm_reimplementation.Runtime.Printf.{
  print_unsigned, print_int, print_hex, print_hex_width, pad_left, pad_right,
}
use arm_reimplementation.Elf.{Shdr, shdr_at, c_string, has_flag}
use arm_reimplementation.Header.{get_header, get_header_shnum, get_header_shoff}
use arm_reimplementation.Section.{
  get_section_type, get_section_offset, get_section_size, get_section_addr, get_section_addralign,
  get_section_flags, get_section_link, get_section_info, get_section_entsize, get_section_name,
  get_section_type_name, get_sections, get_shstrtab,
}

-- One letter for a flag that is set.
abbrev letter : ℕ → ℕ → ℕ → List ℕ
letter flags bit c = if has_flag flags bit then c ∷ [] else []

-- The letters of the eight flags that are shown, in the order of the tests.
unfoldable pub flag_letters : ℕ → List ℕ
unfolding has_flag
flag_letters flags =
    letter flags 0x1 b'W'
    ++ (letter flags 0x2 b'A'
        ++ (letter flags 0x4 b'X'
            ++ (letter flags 0x10 b'M'
                ++ (letter flags 0x20 b'S'
                    ++ (letter flags 0x40 b'I'
                        ++ (letter flags 0x80 b'L' ++ letter flags 0x100 b'O'))))))

unfoldable pub section_row : Bool → ℕ → List ℕ → Shdr → List ℕ
section_row big i name section =
    codes "  ["
    ++ (pad_left b' ' 2 (print_unsigned i)
        ++ (codes "] "
            ++ (pad_right 18 name
                ++ (codes "   "
                    ++ (pad_right 15 (codes (get_section_type_name (get_section_type big section)))
                        ++ (codes "  "
                            ++ (print_hex_width 8 (get_section_addr big section)
                                ++ (codes "  "
                                    ++ (print_hex_width 6 (get_section_offset big section)
                                        ++ (codes "   "
                                            ++ (print_hex_width 6 (get_section_size big section)
                                                ++ (codes "   "
                                                    ++ (print_hex_width 2
                                                          (get_section_entsize big section)
                                                        ++ (codes "   "
                                                            ++ (pad_right 8 (
                                                            flag_letters
                                                            (get_section_flags big section))
                                                            ++ (codes " "
                                                            ++ (pad_left b' ' 2 (
                                                            print_int
                                                            (get_section_link big section))
                                                            ++ (codes "   "
                                                            ++ (pad_left b' ' 3 (
                                                            print_int
                                                            (get_section_info big section))
                                                            ++ (codes "   "
                                                            ++ (pad_left b' ' 2 (
                                                            print_int
                                                            (get_section_addralign big section))
                                                            ++ codes "\n")))))))))))))))))))))

-- The name that a row shows: empty where there is no name table.
unfoldable pub row_name : Bool → ℕ → List ℕ → Option (List ℕ) → Option (List ℕ)
unfolding get_section_name c_string
row_name big i shdrs none = some []
row_name big i shdrs (some shstrtab) =
    elim (get_section_name big i (shdr_at big shdrs) (some shstrtab)) [
      | none ↦ none
      | some memory ↦ c_string memory
    ]

-- The loop over the sections: `left` rounds from `i` on.
unfoldable pub print_sections : Bool → List ℕ → Option (List ℕ) → ℕ → ℕ → M (Unit {0})
unfolding print
print_sections big shdrs shstrtab zero i = skip
print_sections big shdrs shstrtab (suc left) i = do
  name ← deref (row_name big i shdrs shstrtab)
  section ← deref (shdr_at big shdrs i)
  print (section_row big i name section)
  print_sections big shdrs shstrtab left (i + 1)

unfoldable pub afficher_section_headers : Host → M (Unit {0})
unfolding get_header get_sections get_shstrtab print
afficher_section_headers host = do
  let big = host.big_endian
  pointer ← get_header host
  shdrs ← get_sections host pointer
  header ← deref pointer
  shstrtab ← get_shstrtab host header shdrs
  print (
      codes "There are "
      ++ (print_unsigned (get_header_shnum big header)
          ++ (codes " section headers, starting at offset 0x"
              ++ (print_hex (get_header_shoff big header) ++ codes ":\n\n"))))
  print (
      codes
        "  [Nr] Name                 Type             Addr      Off      Size     ES   Flg       Lk   Inf   Al\n")
  print_sections big shdrs shstrtab (get_header_shnum big header) 0
  print (
      codes
        "Key to Flags: \nW (write), A (alloc), X (execute), M (merge), S (strings), I (info), \nL (link order), O (extra OS processing required), G (group), T (TLS), \nC (compressed), x (unknown), o (OS specific), E (exclude), \nD (mbind), y (purecode), p (processor specific)\n")
