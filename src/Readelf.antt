-- ===== src/Readelf.antt =====
-- elf_readelf.c: the command line of the reader.
use arm_reimplementation.Base.{
  ℕ, List, [], ◌∷◌, ◌++◌, ◌==◌, ltb, codes, get_elem?, length, if◌then◌else◌,
}
use arm_reimplementation.Runtime.Io.{
  M, Host, text, ◌>>=◌, ◌>>◌, pure, skip, exit, deref, print, complain, fopen_read,
}
use arm_reimplementation.Header.Print.{afficher_entete_elf}
use arm_reimplementation.Section.Print.{afficher_section_headers}
use arm_reimplementation.Symbol.Print.{afficher_table_symboles}
use arm_reimplementation.Relocation.{print_relocation_info}
use arm_reimplementation.Dump.{read_section_content}

unfoldable pub print_help : List ℕ → M (Unit {0})
unfolding print
print_help prog_name = do
  print (codes "Usage: " ++ (prog_name ++ codes " [options] <ELF file>\n"))
  print (codes "Options:\n")
  print (codes "  -h        Display ELF header\n")
  print (codes "  -S        Display section headers\n")
  print (codes "  -s        Display symbol table\n")
  print (codes "  -r        Display relocation sections\n")
  print (codes "  -x        <number|name>  Dump the contents of section <number|name> as bytes\n")
  print (codes "  -o        Display this help message\n")

-- A reader of an open file, on a file that may not open.
unfoldable pub on_file : Host → List ℕ → (Host → M (Unit {0})) → M (Unit {0})
unfolding fopen_read
on_file host name reader = do opened ← fopen_read host name; if opened then reader host else skip

-- One result of `getopt`: the option's letter and `optarg`. `argv` includes the program's name.
unfoldable pub run_option : Host → List (List ℕ) → ℕ × List ℕ → M (Unit {0})
unfolding print_help on_file complain
run_option host argv (option, optarg) =
    if option == b'h'
    then on_file host optarg afficher_entete_elf
    else if option == b'S'
    then on_file host optarg afficher_section_headers
    else if option == b's'
    then on_file host optarg afficher_table_symboles
    else if option == b'x'
    then (if ltb (length argv) 4
        then (complain (text (codes "Error: Option -x requires two arguments\n")) >> exit 1)
        else do
          filename ← deref (get_elem? argv 2)
          section ← deref (get_elem? argv 3)
          read_section_content host filename section)
    else if option == b'r'
    then on_file host optarg print_relocation_info
    else do
      prog_name ← deref (get_elem? argv 0)
      print_help prog_name
      exit (if option == b'o' then 0 else 1)

unfoldable pub run_options : Host → List (List ℕ) → List (ℕ × List ℕ) → M (Unit {0})
unfolding run_option
run_options host argv [] = skip
run_options host argv (opt ∷ opts) = run_option host argv opt >> run_options host argv opts

-- `getopt` splits the arguments: it gives the options that it finds and where it stops.
unfoldable pub main : (List (List ℕ) → List (ℕ × List ℕ) × ℕ) → Host → List (List ℕ) → M ℕ
unfolding run_options print_help
main getopt host argv =
    let (opts, optind) = getopt argv in
    do
      run_options host argv opts
      if optind == 1
          then (do prog_name ← deref (get_elem? argv 0); print_help prog_name; exit 1)
          else pure 0
