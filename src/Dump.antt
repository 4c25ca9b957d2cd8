-- ===== src/Dump.antt =====
-- elf_section_contenu.c: the bytes of a section in hexadecimal and as text.
use arm_reimplementation.Base.{
  ℕ, zero, suc, ◌+◌, ◌-◌, ◌*◌, ◌%◌, ◌^◌, Bool, Option, none, some, List, [], ◌∷◌, ◌++◌, ◌==◌, ltb,
  leb, not, ◌&&◌, codes, get_or, length, take, drop, replicate, map, if◌then◌else◌,
}
use arm_reimplementation.Runtime.Io.{
  M, Host, text, perror, ◌>>=◌, ◌>>◌, pure, deref, undefined, print, complain, malloc, fread, fseek,
  items, mul_int, fopen_read,
}
use arm_reimplementation.Runtime.Printf.{print_int, print_hex_width}
use arm_reimplementation.Elf.{Ehdr, Shdr, load_ehdr, shdr_at, c_string, strcmp_eq, ehdr_size}
use arm_reimplementation.Header.{
  get_header_shoff, get_header_shentize, get_header_shnum, get_header_shstrndx, has_magic,
}
use arm_reimplementation.Section.{
  get_section_offset, get_section_size, get_section_addr, get_section_e_shnum, get_section_name,
}

-- The bytes of a line from place `j` on: a space before each group of four but the first.
unfoldable pub hex_groups : ℕ → List ℕ → List ℕ
hex_groups j [] = []
hex_groups j (b ∷ bs) =
    (if ltb 0 j && j % 4 == 0 then b' ' ∷ [] else [])
    ++ (print_hex_width 2 b ++ hex_groups (j + 1) bs)

unfoldable pub printable : ℕ → ℕ
printable c = if leb 32 c && leb c 126 then c else b'.'

-- The line of the `row` bytes, at most 16, that stand at an address. A short row is filled up.
unfoldable pub dump_line : ℕ → List ℕ → List ℕ
unfolding hex_groups printable
dump_line address row =
    codes "  0x"
    ++ (print_hex_width 8 address
        ++ (codes " "
            ++ (hex_groups 0 row
                ++ ((if ltb (length row) 16 then replicate (1 + 2 * (16 - length row)) b' ' else [])
                    ++ (codes " " ++ (map printable row ++ codes "\n"))))))

-- The loop `for (i = 0; i < size; i += 16)`; the address wraps. A round takes one byte at least,
-- so as many rounds as there are bytes are enough.
unfoldable pub dump_lines : ℕ → ℕ → List ℕ → List ℕ
unfolding dump_line
dump_lines zero address buffer = []
dump_lines (suc fuel) address [] = []
dump_lines (suc fuel) address (b ∷ bs) =
    dump_line address (take 16 (b ∷ bs))
    ++ dump_lines fuel ((address + 16) % 2 ^ 32) (drop 16 (b ∷ bs))

-- The name is memory that the pointer `section_name` leads to.
unfoldable pub afficher_contenu_section : Host → Shdr → List ℕ → M (Unit {0})
unfolding fseek malloc fread complain print dump_lines c_string
afficher_contenu_section host section_header section_name = do
  let big = host.big_endian
  let size = get_section_size big section_header
  sought ← fseek host (get_section_offset big section_header)
  if not sought
      then complain (perror "Erreur lors du déplacement vers l'offset de la section")
      else do
        allocated ← malloc host size
        if not allocated then complain (perror "Erreur d'allocation mémoire") else do
          buffer ← fread size
          if not (length buffer == size)
              then complain (perror "Erreur de lecture du contenu de la section")
              else do
                name ← deref (c_string section_name)
                print (
                    codes "\nVidange hexad"
                    ++ (0xc3 ∷ 0xa9 ∷ (codes "cimale de la section '" ++ (name ++ codes "':\n"))))
                print (dump_lines size (get_section_addr big section_header) buffer)

-- The index is never negative here: `atoi` reads it from text that starts with a digit.
unfoldable pub afficher_section_par_index :
    Host → Ehdr → List ℕ → Option (List ℕ) → ℕ → M (Unit {0})
unfolding complain get_section_name afficher_contenu_section
afficher_section_par_index host ehdr shdrs shstrtab section_index =
    let big = host.big_endian in
    if leb (get_section_e_shnum big ehdr) section_index
    then complain
        (text (codes "Index de section invalide : " ++ (print_int section_index ++ codes "\n")))
    else do
      section_name ← deref (get_section_name big section_index (shdr_at big shdrs) shstrtab)
      section ← deref (shdr_at big shdrs section_index)
      afficher_contenu_section host section section_name

-- The loop over the sections: `left` rounds from `i` on; the first that has the name is shown.
unfoldable pub find_by_name : Host → List ℕ → Option (List ℕ) → List ℕ → ℕ → ℕ → M (Unit {0})
unfolding complain get_section_name afficher_contenu_section strcmp_eq
find_by_name host shdrs shstrtab nom zero i =
    complain (text (codes "Section '" ++ (nom ++ codes "' introuvable\n")))
find_by_name host shdrs shstrtab nom (suc left) i = do
  let big = host.big_endian
  section_name ← deref (get_section_name big i (shdr_at big shdrs) shstrtab)
  same ← deref (strcmp_eq section_name nom)
  let rest = find_by_name host shdrs shstrtab nom left (i + 1)
  if same
      then (do
        section ← deref (shdr_at big shdrs i)
        afficher_contenu_section host section section_name)
      else rest

unfoldable pub afficher_section_par_nom :
    Host → Ehdr → List ℕ → Option (List ℕ) → List ℕ → M (Unit {0})
unfolding find_by_name
afficher_section_par_nom host ehdr shdrs shstrtab nom =
    find_by_name host shdrs shstrtab nom (get_section_e_shnum host.big_endian ehdr) 0

-- `isdigit`, and `atoi` of text that starts with a digit. A value that leaves `int` is undefined.
unfoldable pub is_digit : ℕ → Bool
is_digit c = leb b'0' c && leb c b'9'

unfoldable pub atoi_from : ℕ → List ℕ → ℕ
unfolding is_digit
atoi_from acc [] = acc
atoi_from acc (c ∷ cs) =
    let rest = atoi_from (acc * 10 + (c - b'0')) cs in if is_digit c then rest else acc

unfoldable pub atoi : List ℕ → Option ℕ
unfolding atoi_from
atoi s = if ltb (atoi_from 0 s) (2 ^ 31) then some (atoi_from 0 s) else none

-- Whether the argument is an index or a name. An empty argument ends in its null byte, no digit.
unfoldable pub show_section : Host → Ehdr → List ℕ → Option (List ℕ) → List ℕ → M (Unit {0})
unfolding is_digit atoi afficher_section_par_index afficher_section_par_nom
show_section host ehdr shdrs shstrtab section_arg =
    if is_digit (get_or section_arg 0 0)
    then (do
      index ← deref (atoi section_arg)
      afficher_section_par_index host ehdr shdrs shstrtab index)
    else afficher_section_par_nom host ehdr shdrs shstrtab section_arg

-- `malloc(allocated)` and then `fread` of up to `size` bytes, which must not pass the allocation.
-- The function allocates by fields that have not gone through `ntohs` or `ntohl`.
unfoldable pub read_into : ℕ → ℕ → M (List ℕ)
unfolding fread
read_into allocated size = do
  got ← fread size
  if leb (length got) allocated then pure got else undefined

-- The section table and the table of names, and then the section. The results of `fseek` are not
-- looked at.
unfoldable pub read_tables : Host → Ehdr → List ℕ → M (Unit {0})
unfolding mul_int fseek malloc fread complain read_into show_section items
read_tables host ehdr section_arg = do
  let big = host.big_endian
  let entsize = get_header_shentize big ehdr
  let count = get_header_shnum big ehdr
  sought ← fseek host (get_header_shoff big ehdr)
  table_size ← mul_int ehdr.e_shentsize ehdr.e_shnum
  allocated ← malloc host table_size
  if not allocated
      then complain (perror "Erreur d'allocation mémoire pour les en-têtes de sections")
      else do
        shdrs ← read_into table_size (entsize * count)
        if not (items entsize (length shdrs) == count)
            then complain (perror "Erreur de lecture des en-têtes de sections")
            else if get_header_shstrndx big ehdr == 0
            then show_section host ehdr shdrs none section_arg
            else do
              shstrtab_hdr ← deref (shdr_at big shdrs (get_header_shstrndx big ehdr))
              let size = get_section_size big shstrtab_hdr
              names_allocated ← malloc host shstrtab_hdr.sh_size
              if not names_allocated
                  then complain
                      (perror "Erreur d'allocation mémoire pour la table des noms de sections")
                  else do
                    names_sought ← fseek host (get_section_offset big shstrtab_hdr)
                    shstrtab ← read_into shstrtab_hdr.sh_size size
                    if not (items size (length shstrtab) == 1)
                        then complain (perror "Erreur de lecture de la table des noms de sections")
                        else show_section host ehdr shdrs (some shstrtab) section_arg

unfoldable pub read_section_content : Host → List ℕ → List ℕ → M (Unit {0})
unfolding fopen_read malloc fread complain has_magic read_tables items
read_section_content host filename section_arg = do
  opened ← fopen_read host filename
  if not opened then complain (perror "Erreur d'ouverture du fichier") else do
    allocated ← malloc host ehdr_size
    if not allocated then complain (perror "Erreur d'allocation mémoire pour l'en-tête ELF") else do
      got ← fread ehdr_size
      let ehdr = load_ehdr host.big_endian got
      if not (items ehdr_size (length got) == 1)
          then complain (perror "Erreur de lecture de l'en-tête ELF")
          else if not (has_magic ehdr)
          then complain (text (codes "Ce n'est pas un fichier ELF valide\n"))
          else read_tables host ehdr section_arg
