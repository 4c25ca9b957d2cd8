-- ===== src/Examples/Headers.antt =====
-- The header of a file of 52 bytes.
use arm_reimplementation.Base.{
  ◌+◌, ◌≡◌, true, ◌∷◌, length, take, drop, replicate, codes, if◌then◌else◌,
}
use arm_reimplementation.Runtime.Io.{World, fault, text, print, complain}
use arm_reimplementation.Header.{has_magic}
use arm_reimplementation.Header.Print.{entete_text, afficher_entete_elf}
use arm_reimplementation.Header.Outcomes.{has_header, header_at, afficher_entete_elf_lem}
use arm_reimplementation.Examples.Tables.{host, world}

abbrev elf_file : World
elf_file = record world { input = 0x7f ∷ b'E' ∷ b'L' ∷ b'F' ∷ replicate 48 1 }

afficher_entete_elf_lem_example : afficher_entete_elf host elf_file ≡ (
    if has_header host elf_file
    then (if has_magic (header_at host elf_file)
          then print (entete_text true (header_at host elf_file))
          else complain (text (codes "Le fichier n'est pas un fichier ELF valide.\n")))
        (record elf_file { pos = 0 + length (take 52 (drop 0 elf_file.input)) })
    else fault)
afficher_entete_elf_lem_example = afficher_entete_elf_lem host elf_file
