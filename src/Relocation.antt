-- ===== src/Relocation.antt =====
-- elf_relocation.c: the names of the relocation types and the print of the relocation sections.
use arm_reimplementation.Base.{
  ℕ, zero, suc, ◌+◌, ◌/◌, Bool, String, Option, some, List, [], ◌∷◌, ◌++◌, ◌==◌, not, codes, length,
  if◌then◌else◌,
}
use arm_reimplementation.Runtime.Bytes.{ntohl}
use arm_reimplementation.Runtime.Io.{
  M, Host, perror, ◌>>=◌, ◌>>◌, skip, exit, deref, undefined, print, complain, malloc, fread, fseek,
  items,
}
use arm_reimplementation.Runtime.Printf.{print_int, print_hex, print_hex_width, pad_right}
use arm_reimplementation.Elf.{Shdr, Rel, shdr_at, rel_at, c_string, switch}
use arm_reimplementation.Elf.Constants.{sht_rel, r_sym, r_type}
use arm_reimplementation.Header.{get_header, valider_elf}
use arm_reimplementation.Section.{
  get_section_type, get_section_offset, get_section_size, get_section_e_shnum, get_section_entsize,
  get_section_name, get_sections, get_shstrtab,
}

unfoldable pub get_relocation_type : ℕ → String
get_relocation_type r_type =
    switch r_type
      ((28, "R_ARM_CALL")
        ∷ (2, "R_ARM_ABS32")
        ∷ (5, "R_ARM_ABS16")
        ∷ (8, "R_ARM_ABS8")
        ∷ (29, "R_ARM_JUMP24")
        ∷ [])
      "Unknown"

unfoldable pub relocation_row : Bool → Rel → List ℕ
relocation_row big rel =
    let info = ntohl big rel.r_info in
    print_hex_width 8 (ntohl big rel.r_offset)
    ++ (codes "    "
        ++ (print_hex_width 8 info
            ++ (codes "    "
                ++ (pad_right 16 (codes (get_relocation_type (r_type info)))
                    ++ (codes "   " ++ (print_hex_width 8 (r_sym info) ++ codes "\n"))))))

-- The loop over the entries of a section: `left` rounds from `j` on.
unfoldable pub print_relocations : Bool → List ℕ → ℕ → ℕ → M (Unit {0})
unfolding print
print_relocations big rels zero j = skip
print_relocations big rels (suc left) j = do
  rel ← deref (rel_at big rels j)
  print (relocation_row big rel)
  print_relocations big rels left (j + 1)

-- One relocation section. A failed allocation or read is reported, and the next section follows.
unfoldable pub print_relocation_section :
    Host → (ℕ → Option Shdr) → Option (List ℕ) → ℕ → Shdr → M (Unit {0})
unfolding get_section_name c_string print complain malloc fseek fread items print_relocations
print_relocation_section host sections shstrtab i section = do
  let big = host.big_endian
  memory ← deref (get_section_name big i sections shstrtab)
  let sh_offset = get_section_offset big section
  let sh_size = get_section_size big section
  let sh_entsize = get_section_entsize big section
  section_name ← deref (c_string memory)
  if sh_entsize == 0 then undefined else do
    print (
        codes "Relocation section '"
        ++ (section_name
            ++ (codes "' at offset 0x"
                ++ (print_hex sh_offset
                    ++ (codes " contains "
                        ++ (print_int (sh_size / sh_entsize) ++ codes " entries:\n"))))))
    print (codes " Offset      Info        Type             Index\n")
    allocated ← malloc host sh_size
    if not allocated then complain (perror "Error allocating memory for relocation entries") else do
      sought ← fseek host sh_offset
      rels ← fread sh_size
      if not (items sh_size (length rels) == 1)
          then complain (perror "Error reading relocation entries")
          else print_relocations big rels (sh_size / sh_entsize) 0

-- The loop over the sections: `left` rounds from `i` on.
unfoldable pub print_relocation_sections : Host → List ℕ → Option (List ℕ) → ℕ → ℕ → M (Unit {0})
unfolding print_relocation_section
print_relocation_sections host shdrs shstrtab zero i = skip
print_relocation_sections host shdrs shstrtab (suc left) i = do
  let big = host.big_endian
  section ← deref (shdr_at big shdrs i)
  (if get_section_type big section == sht_rel
      then print_relocation_section host (shdr_at big shdrs) shstrtab i section
      else skip)
  print_relocation_sections host shdrs shstrtab left (i + 1)

unfoldable pub print_relocation_info : Host → M (Unit {0})
unfolding get_header valider_elf get_sections get_shstrtab print_relocation_sections
print_relocation_info host = do
  pointer ← get_header host
  ehdr ← deref pointer
  valid ← valider_elf (some ehdr)
  if not valid then exit 1 else do
    shdrs ← get_sections host (some ehdr)
    shstrtab ← get_shstrtab host ehdr shdrs
    print_relocation_sections host shdrs shstrtab (get_section_e_shnum host.big_endian ehdr) 0
