-- ===== src/Header/Print.antt =====
-- `afficher_entete_elf`: the header in words, on the standard output.
use arm_reimplementation.Base.{
  ℕ, Bool, String, List, [], ◌∷◌, ◌++◌, ◌==◌, codes, take, if◌then◌else◌,
}
use arm_reimplementation.Runtime.Io.{M, Host, ◌>>=◌, skip, deref, print}
use arm_reimplementation.Runtime.Printf.{print_unsigned, print_hex, print_hex_width}
use arm_reimplementation.Elf.{Ehdr}
use arm_reimplementation.Header.{
  get_header, valider_elf, get_header_class, get_header_data, get_header_version,
  get_header_osabi_name, get_header_abi_version, get_header_type_name, get_header_machine_name,
  get_header_entry, get_header_phoff, get_header_shoff, get_header_flag, get_header_ehsize,
  get_header_phentsize, get_header_phnum, get_header_shentize, get_header_shnum,
  get_header_shstrndx,
}

-- `"%02x "` for each byte.
unfoldable pub print_magic : List ℕ → List ℕ
print_magic [] = []
print_magic (b ∷ bs) = print_hex_width 2 b ++ (b' ' ∷ print_magic bs)

-- A label, a value and the text behind it.
abbrev line : String → List ℕ → String → List ℕ
line label value tail = codes label ++ (value ++ codes tail)

unfoldable pub entete_text : Bool → Ehdr → List ℕ
unfolding print_magic
entete_text big header =
    codes "ELF header:\n"
    ++ (line "Magic:   " (print_magic (take 16 header.e_ident)) "\n"
        ++ (line "Class : " (codes (if get_header_class header == 1 then "ELF32" else "ELF64")) "\n"
            ++ (line "Data : "
                  (codes (
                    if get_header_data header == 1
                    then "2's complement, little endian"
                    else "2's complement, big endian"))
                  "\n"
                ++ (line "Version : "
                      (codes (
                        if get_header_version big header == 0
                        then "Invalid ELF version"
                        else "1 (current)"))
                      "\n"
                    ++ (line "OS/ABI: " (codes (get_header_osabi_name header)) "\n"
                        ++ (line "ABI Version: " (print_unsigned (get_header_abi_version header))
                              "\n"
                            ++ (line "Type: " (codes (get_header_type_name big header)) "\n"
                                ++ (line "Machine: " (codes (get_header_machine_name big header))
                                      "\n"
                                    ++ (line "Version: 0x"
                                          (print_hex (get_header_version big header)) "\n"
                                        ++ (line "Entry point address : 0x"
                                              (print_hex (get_header_entry big header)) "\n"
                                            ++ (line "Start of program headers: "
                                                  (print_hex (get_header_phoff big header))
                                                  " (bytes into file)\n"
                                                ++ (line "Start of section headers: "
                                                      (print_unsigned (get_header_shoff big header))
                                                      " (bytes into file)\n"
                                                    ++ (line "Flags: 0x"
                                                          (print_hex (get_header_flag big header))
                                                          ", Version5 EABI\n"
                                                        ++ (line "Size of this header: "
                                                            (print_unsigned
                                                            (get_header_ehsize big header))
                                                            " (bytes)\n"
                                                            ++ (line "Size of program headers: "
                                                            (print_unsigned
                                                            (get_header_phentsize big header))
                                                            " (bytes)\n"
                                                            ++ (line "Number of program headers: "
                                                            (print_unsigned
                                                            (get_header_phnum big header))
                                                            "\n"
                                                            ++ (line "Size of section headers: "
                                                            (print_unsigned
                                                            (get_header_shentize big header))
                                                            " (bytes)\n"
                                                            ++ (line "Number of section headers: "
                                                            (print_unsigned
                                                            (get_header_shnum big header))
                                                            "\n"
                                                            ++ line
                                                            "Section header string table index: "
                                                            (print_unsigned
                                                            (get_header_shstrndx big header))
                                                            "\n"))))))))))))))))))

-- A null header reaches `valider_elf`, which reads through it.
unfoldable pub afficher_entete_elf : Host → M (Unit {0})
unfolding get_header valider_elf print entete_text
afficher_entete_elf host = do
  pointer ← get_header host
  valid ← valider_elf pointer
  header ← deref pointer
  if valid then print (entete_text host.big_endian header) else skip
