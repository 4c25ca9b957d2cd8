-- ===== src/Symbol/Print.antt =====
-- `afficher_table_symboles`: every symbol table in words, on the standard output.
use arm_reimplementation.Base.{
  ℕ, zero, suc, ◌+◌, ◌/◌, Bool, true, false, Option, some, List, [], ◌∷◌, ◌++◌, ◌==◌, ltb, not,
  ◌&&◌, ◌||◌, codes, drop, length, if◌then◌else◌,
}
use arm_reimplementation.Runtime.Io.{
  M, Host, perror, ◌>>=◌, ◌>>◌, pure, skip, deref, undefined, print, complain, malloc, fread, fseek,
}
use arm_reimplementation.Runtime.Printf.{print_unsigned, print_hex_width, pad_right}
use arm_reimplementation.Elf.{Shdr, Sym, shdr_at, sym_at, c_string}
use arm_reimplementation.Elf.Constants.{sht_symtab, sht_dynsym, stt_section, st_type}
use arm_reimplementation.Header.{get_header, get_header_shnum}
use arm_reimplementation.Section.{
  get_section_type, get_section_offset, get_section_size, get_section_link, get_section_entsize,
  get_section_name, get_sections, get_shstrtab,
}
use arm_reimplementation.Symbol.{
  get_symbol_type, get_symbol_binding, get_symbol_visibility, get_symbol_name, get_symbol_value,
  get_symbol_size, get_symbol_shndx,
}

unfoldable pub is_symbol_table : Bool → Shdr → Bool
is_symbol_table big section =
    get_section_type big section == sht_symtab || get_section_type big section == sht_dynsym

-- Where the printed name of a symbol starts: its section's name, its own, or a marker.
unfoldable pub symbol_name_at :
    Bool → ℕ → (ℕ → Option Shdr) → Option (List ℕ) → ℕ → List ℕ → Sym → Option (List ℕ)
unfolding get_section_name
symbol_name_at big shnum sections shstrtab strtab_size strtab sym =
    if st_type sym.st_info == stt_section && ltb (get_symbol_shndx big sym) shnum
    then get_section_name big (get_symbol_shndx big sym) sections shstrtab
    else if ltb (get_symbol_name big sym) strtab_size
    then some (drop (get_symbol_name big sym) strtab)
    else some (codes "<invalid>" ++ (0 ∷ []))

unfoldable pub symbol_row : Bool → ℕ → Sym → List ℕ → List ℕ
symbol_row big j sym name =
    codes "  "
    ++ (pad_right 5 (print_unsigned j)
        ++ (codes "  "
            ++ (print_hex_width 8 (get_symbol_value big sym)
                ++ (codes "  "
                    ++ (pad_right 6 (print_unsigned (get_symbol_size big sym))
                        ++ (codes " "
                            ++ (pad_right 7 (codes (get_symbol_type sym.st_info))
                                ++ (codes " "
                                    ++ (pad_right 6 (codes (get_symbol_binding sym.st_info))
                                        ++ (codes " "
                                            ++ (pad_right 10
                                                  (codes (get_symbol_visibility sym.st_other))
                                                ++ (codes " "
                                                    ++ (pad_right 6 (
                                                          print_unsigned (get_symbol_shndx big sym))
                                                        ++ (codes " "
                                                            ++ (pad_right 4 name
                                                            ++ codes "\n")))))))))))))))

-- The loop over the symbols of one table: `left` rounds from `j` on.
unfoldable pub print_symbols :
    Bool → ℕ → (ℕ → Option Shdr) → Option (List ℕ) → ℕ → List ℕ → List ℕ → ℕ → ℕ → M (Unit {0})
unfolding print symbol_name_at c_string
print_symbols big shnum sections shstrtab strtab_size strtab symbols zero j = skip
print_symbols big shnum sections shstrtab strtab_size strtab symbols (suc left) j = do
  sym ← deref (sym_at big symbols j)
  memory ← deref (symbol_name_at big shnum sections shstrtab strtab_size strtab sym)
  name ← deref (c_string memory)
  print (symbol_row big j sym name)
  print_symbols big shnum sections shstrtab strtab_size strtab symbols left (j + 1)

-- A buffer of `size` bytes from the file, by `malloc` with no test of its result, and `fread`.
unfoldable pub read_unchecked : Host → ℕ → ℕ → M (List ℕ)
unfolding fseek malloc fread
read_unchecked host offset size = do
  sought ← fseek host offset
  allocated ← malloc host size
  if allocated then fread size else undefined

-- One symbol table; the answer tells whether the function goes on to the next section.
unfoldable pub print_symbol_table :
    Host → ℕ → (ℕ → Option Shdr) → Option (List ℕ) → ℕ → Shdr → M Bool
unfolding get_section_name c_string print complain read_unchecked print_symbols
print_symbol_table host shnum sections shstrtab i symtab_hdr = do
  let big = host.big_endian
  memory ← deref (get_section_name big i sections shstrtab)
  section_name ← deref (c_string memory)
  print (codes "\nTable des symboles dans la section '" ++ (section_name ++ codes "':\n"))
  strtab_hdr ← deref (sections (get_section_link big symtab_hdr))
  let size = get_section_size big symtab_hdr
  let strtab_size = get_section_size big strtab_hdr
  symbols ← read_unchecked host (get_section_offset big symtab_hdr) size
  if not (length symbols == size)
      then (complain (perror "Erreur lors de la lecture des symboles") >> pure false)
      else do
        strtab ← read_unchecked host (get_section_offset big strtab_hdr) strtab_size
        if not (length strtab == strtab_size)
            then (complain (perror "Erreur lors de la lecture de la table des chaînes")
                >> pure false)
            else do
              print (codes "  Num:    Valeur   Taille Type    Lien   Vis        Ndx   Nom\n")
              print (codes "  ----   --------  ------ ------- ------ --------   ---   ---\n")
              let entsize = get_section_entsize big symtab_hdr
              if entsize == 0
                  then undefined
                  else (print_symbols big shnum sections shstrtab strtab_size strtab symbols
                        (size / entsize) 0
                      >> pure true)

-- The loop over the sections: `left` rounds from `i` on.
unfoldable pub print_symbol_tables : Host → ℕ → List ℕ → Option (List ℕ) → ℕ → ℕ → M (Unit {0})
unfolding is_symbol_table print_symbol_table
print_symbol_tables host shnum shdrs shstrtab zero i = skip
print_symbol_tables host shnum shdrs shstrtab (suc left) i = do
  let big = host.big_endian
  section ← deref (shdr_at big shdrs i)
  let rest = print_symbol_tables host shnum shdrs shstrtab left (i + 1)
  if not (is_symbol_table big section) then rest else do
    goes_on ← print_symbol_table host shnum (shdr_at big shdrs) shstrtab i section
    if goes_on then rest else skip

unfoldable pub afficher_table_symboles : Host → M (Unit {0})
unfolding get_header get_sections get_shstrtab print_symbol_tables
afficher_table_symboles host = do
  pointer ← get_header host
  shdrs ← get_sections host pointer
  ehdr ← deref pointer
  shstrtab ← get_shstrtab host ehdr shdrs
  let shnum = get_header_shnum host.big_endian ehdr
  print_symbol_tables host shnum shdrs shstrtab shnum 0
