-- ===== src/Process/Patch.antt =====
-- `process_and_remove_relocation_sections`: the loop over the relocation sections.
pub mod Frame
use arm_reimplementation.Base.{
  ℕ, zero, suc, ◌+◌, ◌/◌, Bool, true, false, Option, List, ◌==◌, not, length, get_elem?,
  if◌then◌else◌,
}
use arm_reimplementation.Runtime.Io.{
  M, Host, perror, ◌>>=◌, ◌>>◌, pure, deref, undefined, complain, malloc, fread, fwrite, fseek,
  fseek_out, items,
}
use arm_reimplementation.Elf.{Shdr, shdr_at, rel_at, rel_size}
use arm_reimplementation.Section.{
  get_section_offset, get_section_size, get_section_addr, get_section_info,
}
use arm_reimplementation.Process.Setters.{}
use arm_reimplementation.Process.Apply.{Applied, patched, refused, broken, apply_relocation}
use arm_reimplementation.Process.Table.{is_rel}
use arm_reimplementation.Process.Copy.{Plan, Copy}

-- What an entry leaves of the section's bytes.
unfoldable pub settle : Applied → List ℕ → M (List ℕ)
unfolding complain
settle (patched out) target = pure out
settle (refused why) target = complain why >> pure target
settle broken target = undefined

module _ (host : Host) where
  -- The loop over the entries: `left` rounds from `j` on.
  unfoldable pub apply_all : List ℕ → Option (List ℕ) → ℕ → ℕ → ℕ → List ℕ → M (List ℕ)
  unfolding apply_relocation settle
  apply_all rel_entries symbols addresse zero j target_data = pure target_data
  apply_all rel_entries symbols addresse (suc left) j target_data = do
    rel ← deref (rel_at host.big_endian rel_entries j)
    next ← settle (apply_relocation host.big_endian rel symbols target_data addresse) target_data
    apply_all rel_entries symbols addresse left (j + 1) next

  -- The new header of the section that a relocation section is about. An index of -1 leaves the
  -- table of the new headers.
  unfoldable pub new_target : Plan → Copy → Shdr → M Shdr
  new_target plan state rel_section = do
    index ← deref (get_elem? plan.mapping (get_section_info host.big_endian rel_section))
    new_index ← deref index
    deref (get_elem? state.new_shdrs new_index)

  -- One relocation section; the answer is false for `goto cleanup`.
  unfoldable pub relocate_section : Plan → Copy → Shdr → M Bool
  unfolding malloc fseek fread items complain apply_all fseek_out fwrite new_target
  relocate_section plan state rel_section = do
    let big = host.big_endian
    let rel_bytes = get_section_size big rel_section
    entries_allocated ← malloc host rel_bytes
    entries_sought ← fseek host (get_section_offset big rel_section)
    if not entries_allocated then undefined else do
      rel_entries ← fread rel_bytes
      if not (items rel_bytes (length rel_entries) == 1)
          then (complain (perror "Erreur lors de la lecture des entrées de réimplantation.")
              >> pure false)
          else do
            target_section ← deref (shdr_at big plan.shdrs (get_section_info big rel_section))
            let target_bytes = get_section_size big target_section
            target_allocated ← malloc host target_bytes
            new_section ← new_target plan state rel_section
            target_sought ← fseek host (get_section_offset big target_section)
            if not target_allocated then undefined else do
              target_data ← fread target_bytes
              if not (items target_bytes (length target_data) == 1)
                  then (complain (perror "Erreur lors de la lecture des entrées de réimplantation.")
                      >> pure false)
                  else do
                    patched_data ←
                        apply_all rel_entries state.sym.symbols (get_section_addr big new_section)
                          (rel_bytes / rel_size) 0 target_data
                    found ← fseek_out host (get_section_offset big new_section)
                    if not found
                        then (complain (perror "Erreur lors du déplacement à l'offset calculé")
                            >> pure false)
                        else do
                          sent ← fwrite host patched_data
                          if sent == target_bytes
                              then pure true
                              else (complain
                                    (perror "Erreur lors de l'écriture des données modifiées")
                                  >> pure false)

  -- The loop over the old sections: `left` rounds from `i` on.
  unfoldable pub relocate_sections : Plan → Copy → ℕ → ℕ → M Bool
  unfolding is_rel relocate_section
  relocate_sections plan state zero i = pure true
  relocate_sections plan state (suc left) i = do
    section ← deref (shdr_at host.big_endian plan.shdrs i)
    goes_on ←
        (if is_rel host.big_endian section then relocate_section plan state section else pure true)
    if goes_on then relocate_sections plan state left (i + 1) else pure false
