-- ===== src/Process/Rewrite.antt =====
-- `process_and_remove_relocation_sections` as a whole, and `main` of process_rel.c.
use arm_reimplementation.Base.{
  ℕ, ◌*◌, Option, none, some, List, [], ◌∷◌, ◌++◌, ◌==◌, not, length, take, get_elem?, codes,
  if◌then◌else◌,
}
use arm_reimplementation.Runtime.Io.{
  M, Host, text, perror, ◌>>=◌, ◌>>◌, pure, skip, exit, deref, undefined, complain, print, malloc,
  fread, fwrite, fopen_read, fopen_write, items,
}
use arm_reimplementation.Elf.{Ehdr, load_ehdr, store_ehdr, shdr_at, ehdr_size, shdr_size}
use arm_reimplementation.Header.{get_header_shnum, get_header_shstrndx}
use arm_reimplementation.Section.{get_section_size, get_sections, get_shstrtab, die}
use arm_reimplementation.Process.Setters.{Symbol}
use arm_reimplementation.Process.Symbols.{remap_symbols}
use arm_reimplementation.Process.Table.{map_sections, load_symbols, final_shstrtab_size}
use arm_reimplementation.Process.Copy.{Plan, Copy, copy_sections}
use arm_reimplementation.Process.Patch.{relocate_sections}
use arm_reimplementation.Process.Finish.{write_end}

module _ (host : Host) where
  -- From the copy of the sections on.
  unfoldable pub write_file : Plan → Copy → M (Unit {0})
  unfolding copy_sections relocate_sections write_end
  write_file plan start = do
    copied ← copy_sections host plan plan.old_shnum 0 start
    elim copied [
      | none ↦ skip
      | some state ↦ do
        relocated ← relocate_sections host plan state plan.old_shnum 0
        if relocated then write_end host plan state else skip
    ]

  -- From the opening of the output file on, with the symbols loaded and remapped.
  unfoldable pub write_output : Plan → Symbol → List ℕ → M (Unit {0})
  unfolding fopen_write complain fwrite final_shstrtab_size write_file
  write_output plan sym output_path = do
    opened ← fopen_write host output_path
    if not opened then complain (perror "Erreur lors de l'ouverture du fichier de sortie") else do
      sent ← fwrite host (store_ehdr host.big_endian plan.header)
      if not (sent == ehdr_size)
          then complain (perror "Erreur lors de l'écriture de l'en-tête")
          else do
            size ← final_shstrtab_size host plan.shdrs plan.mapping plan.shstrtab 0 1
            write_file (record plan { final_size = size })
                (record {
                  new_shdrs = [];
                  current_offset = ehdr_size;
                  current_address = 0x58;
                  new_shstrtab = 0 ∷ [];
                  sym = sym;
                })

  -- The symbols with their new section indices.
  unfoldable pub remap_all : ℕ → List (Option ℕ) → Symbol → M Symbol
  unfolding remap_symbols
  remap_all old_shnum mapping sym = elim (sym.symbols) [
    | none ↦ pure sym
    | some before ↦ do
      after ← deref (remap_symbols host.big_endian old_shnum mapping sym.size 0 before)
      pure (record sym { symbols = some after })
  ]

  unfoldable pub process_and_remove_relocation_sections :
      Ehdr → List ℕ → Option (List ℕ) → List ℕ → M (Unit {0})
  unfolding malloc die map_sections load_symbols remap_all write_output
  process_and_remove_relocation_sections header shdrs shstrtab output_path = do
    let big = host.big_endian
    let old_shnum = get_header_shnum big header
    mapping_allocated ← malloc host (old_shnum * 4)
    if not mapping_allocated
        then die "Erreur d'allocation mémoire pour le mapping des sections"
        else do
          (mapping, new_shnum) ← map_sections host shdrs old_shnum 0 0
          sym ← load_symbols host shdrs old_shnum 0 (record { symbols = none; size = 0 })
          names_section ← deref (shdr_at big shdrs (get_header_shstrndx big header))
          let capacity = get_section_size big names_section
          names_allocated ← malloc host capacity
          if not names_allocated
              then die "Erreur d'allocation mémoire pour new_shstrtab"
              else if capacity == 0
              then undefined
              else do
                table_allocated ← malloc host (new_shnum * shdr_size)
                if not table_allocated then exit 1 else do
                  sym' ← remap_all old_shnum mapping sym
                  write_output
                      (record {
                        header = header;
                        shdrs = shdrs;
                        shstrtab = shstrtab;
                        old_shnum = old_shnum;
                        mapping = mapping;
                        new_shnum = new_shnum;
                        capacity = capacity;
                        final_size = 0;
                      })
                      sym' output_path

  -- The name of the output file, as `snprintf` cuts it to its buffer of 256 bytes.
  unfoldable pub output_name : List ℕ → List ℕ
  output_name input_path = take 255 (input_path ++ codes "_modified")

  unfoldable pub process_file : List ℕ → M ℕ
  unfolding fopen_read fread items die get_sections get_shstrtab output_name print
      process_and_remove_relocation_sections
  process_file input_path = do
    opened ← fopen_read host input_path
    if not opened then die "Erreur d'ouverture du fichier ELF" else do
      got ← fread ehdr_size
      if not (items ehdr_size (length got) == 1)
          then die "Erreur lors de la lecture de l'entête ELF."
          else do
            let header = load_ehdr host.big_endian got
            shdrs ← get_sections host (some header)
            shstrtab ← get_shstrtab host header shdrs
            process_and_remove_relocation_sections header shdrs shstrtab (output_name input_path)
            print (
                codes "Le fichier modifi"
                ++ (0xc3
                    ∷ 0xa9
                    ∷ (codes " a "
                        ++ (0xc3
                            ∷ 0xa9
                            ∷ (codes "t"
                                ++ (0xc3
                                    ∷ 0xa9
                                    ∷ (codes " "
                                        ++ (0xc3
                                            ∷ 0xa9
                                            ∷ (codes "crit dans: "
                                                ++ (output_name input_path ++ codes "\n"))))))))))
            pure 0

  unfoldable pub main : List (List ℕ) → M ℕ
  unfolding process_file complain
  main argv =
      if not (length argv == 2)
      then (do
        prog_name ← deref (get_elem? argv 0)
        complain (text (codes "Usage: " ++ (prog_name ++ codes " <input_elf_file>\n")))
        exit 1)
      else do input_path ← deref (get_elem? argv 1); process_file input_path
