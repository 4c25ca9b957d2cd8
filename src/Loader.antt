-- ===== src/Loader.antt =====
-- load_sim.c: the loader that sends the allocated sections of a file to the simulator.
pub mod Sections
use arm_reimplementation.Base.{
  ℕ, zero, suc, ◌+◌, Bool, Option, none, some, List, ◌++◌, ◌==◌, not, ltb, length, get_elem?, codes,
  if◌then◌else◌,
}
use arm_reimplementation.Runtime.Bytes.{ntohl}
use arm_reimplementation.Runtime.Io.{
  Run, M, World, Host, ok, exits, fault, text, ◌>>=◌, ◌>>◌, pure, skip, exit, deref, undefined,
  complain, malloc, fread, fseek, fopen_read,
}
use arm_reimplementation.Elf.{Shdr, shdr_at, has_flag}
use arm_reimplementation.Elf.Constants.{shf_alloc}
use arm_reimplementation.Header.{get_header, get_header_shnum, get_header_entry, valider_elf}
use arm_reimplementation.Section.{
  get_section_offset, get_section_size, get_section_addr, get_sections, get_shstrtab, die,
}
use arm_reimplementation.Gdb.Packet.{Link, Writer}
use arm_reimplementation.Simulator.{
  Attempt, arm_connect, arm_write_register, arm_write_memory, arm_run,
}

-- The file and the connection side by side.
pub record Session : Type 0 where
  pub world : World
  pub link : Link

abbrev pub on_world : {A : Type 0} → M A → Run Session A
on_world m s = elim (m (s.world)) [
  | ok a w ↦ ok a (record s { world = w })
  | exits n w ↦ exits n (record s { world = w })
  | fault ↦ fault
]

abbrev pub on_link : {A : Type 0} → Run Link A → Run Session A
on_link m s = elim (m (s.link)) [
  | ok a l ↦ ok a (record s { link = l })
  | exits n l ↦ exits n (record s { link = l })
  | fault ↦ fault
]

-- The bytes of a section; the result of `malloc` is not tested, a short read ends the program.
unfoldable pub read_section : Host → Shdr → M (List ℕ)
unfolding malloc fseek fread die
read_section host section = do
  let big = host.big_endian
  let section_size = get_section_size big section
  allocated ← malloc host section_size
  sought ← fseek host (get_section_offset big section)
  if not allocated then undefined else do
    section_data ← fread section_size
    if length section_data == section_size
        then pure section_data
        else die "Failed to read section data."

-- A connection that failed ends the program, with the message of `error`.
unfoldable pub need_link : Option Link → Run Session (Unit {0})
unfolding complain
need_link none s =
    (on_world (complain (text (codes "[ERROR] arm_simulator_interface.c, 67: Could not connect\n")))
        >> exit 1)
      s
need_link (some l) s = ok tt (record s { link = l })

module _ (rio_writen : Writer) (host : Host) where
  unfoldable pub load_section : Shdr → Run Session (Unit {0})
  unfolding read_section arm_write_memory has_flag
  load_section section =
      if has_flag (ntohl host.big_endian section.sh_flags) shf_alloc
      then (do
        section_data ← on_world (read_section host section)
        on_link
            (arm_write_memory rio_writen (get_section_addr host.big_endian section) section_data))
      else skip

  -- The loop over the sections: `left` rounds from `i` on.
  unfoldable pub load_sections : List ℕ → ℕ → ℕ → Run Session (Unit {0})
  unfolding load_section
  load_sections shdrs zero i = skip
  load_sections shdrs (suc left) i = do
    section ← deref (shdr_at host.big_endian shdrs i)
    load_section section
    load_sections shdrs left (i + 1)

  -- The connection is made once the tables are read. `target_big_endian` is the byte order of the
  -- simulator that the program is built for.
  unfoldable pub load_elf_to_simulator : Bool → List ℕ → List Attempt → Run Session (Unit {0})
  unfolding fopen_read get_header valider_elf get_sections get_shstrtab arm_connect load_sections
      arm_write_register arm_run complain die need_link
  load_elf_to_simulator target_big_endian filename attempts = do
    let big = host.big_endian
    opened ← on_world (fopen_read host filename)
    if not opened then on_world (die "Failed to open ELF file") else do
      pointer ← on_world (get_header host)
      valid ← on_world (valider_elf pointer)
      ehdr ← deref pointer
      if not valid then (on_world (complain (text (codes "Invalid ELF file.\n"))) >> exit 1) else do
        shdrs ← on_world (get_sections host pointer)
        shstrtab ← on_world (get_shstrtab host ehdr shdrs)
        need_link (arm_connect attempts)
        load_sections shdrs (get_header_shnum big ehdr) 0
        on_link (arm_write_register rio_writen big target_big_endian 15 (get_header_entry big ehdr))
        on_link (arm_run rio_writen)

  unfoldable pub main : Bool → List (List ℕ) → List Attempt → Run Session ℕ
  unfolding load_elf_to_simulator complain
  main target_big_endian argv attempts =
      if ltb (length argv) 4
      then (do
        prog_name ← deref (get_elem? argv 0)
        on_world (
            complain (
              text
                (codes "Usage: " ++ (prog_name ++ codes " <ELF file> <hostname> <servicename>\n"))))
        pure 1)
      else do
        filename ← deref (get_elem? argv 1)
        load_elf_to_simulator target_big_endian filename attempts
        pure 0
