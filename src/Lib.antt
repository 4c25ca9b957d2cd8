-- ===== src/Lib.antt =====
-- A model of the ELF tools for ARM: a readelf, a relocator that turns an object file into a loadable
-- one, and a loader that sends a file to an ARM simulator over the remote protocol of GDB.
--
-- The program reads an ELF file (elf_header.c, elf_section.c, elf_table_symbole.c,
-- elf_relocation.c, elf_section_contenu.c) and prints it (elf_readelf.c). process_rel.c uses the
-- same readers: it drops the relocation sections, gives the others addresses, renumbers and moves the
-- symbols, applies the relocations, and writes `<file>_modified`. load_sim.c reads such a file and
-- hands its allocated sections to arm_simulator_interface.c, which speaks through gdb_protocol.c and
-- gets the answers from scanner.l (scanner.c is what flex makes of it). ARM_runner_example.c sends a
-- fixed program the same way. debug.c keeps the names of the files whose traces are shown.
--
-- The files, and the code that each is about:
--   Base       numbers, lists and `int32_t`, for all the others
--   Runtime    the C that the program runs on: words in memory and byte order (Bytes), files,
--              allocation, output, `exit` and undefined behaviour (Io), `printf` (Printf)
--   Elf        the records of ELF, read from and written to bytes (elf.h of the system)
--   Util       util.c and util.h
--   Header     elf_header.c; Section: elf_section.c; Symbol: elf_table_symbole.c;
--   Relocation elf_relocation.c; Dump: elf_section_contenu.c; Readelf: elf_readelf.c
--   Process    process_rel.c: Setters the functions that set one field, Apply `apply_relocation`
--              with its theorems in Relocation, Symbols the two loops over the symbols, and
--              `process_and_remove_relocation_sections` in the order of its loops: Table, Copy,
--              Patch, Finish, and Rewrite, which is the whole, and `main`
--   Gdb        Packet and Commands: gdb_protocol.c; Scanner: the rules of scanner.l, and under
--              Scanner/Tables the tables of scanner.c with the loops of `yylex`
--   Simulator  arm_simulator_interface.c, and sessions of its calls; Loader: load_sim.c;
--   Runner     ARM_runner_example.c
--   Debug      debug.c, and the macros of debug.h that keep a flag
--   Examples   the theorems on concrete inputs
-- A definition has the name of the C function that it models; a loop of a larger function, or a part
-- of its body, has a name of its own, with a comment.
--
-- A function of the program is a function from a state to an outcome (Runtime.Io): a result with the
-- new state, a call of `exit`, or undefined behaviour, which an access through a null pointer or
-- outside of an array is. The state of the readers is the file with its position, the output file and
-- what was printed; the state of the protocol is the connection (Gdb.Packet.Link), whose packet is
-- an array of 1024 bytes. A `Host` says what the machine decides: the byte order, which `malloc`
-- succeeds, whether a file can be sought in, how much the disk takes, and the files that there are.
-- The byte order of the host is a parameter throughout.
--
-- Integers are natural numbers with their wrap-around written out; `int32_t` in `apply_relocation` is
-- an integer, with overflow as undefined behaviour. Loops with a counter are structural recursion on
-- the rounds that are left. Three loops run on fuel: the outer loop of `gdb_write_memory`, which
-- copies a byte a round and gets one round for each byte; the binary search of debug.c, which gets one
-- round more than there are entries; and the scanner, which uses up a byte of input with each token.
--
-- Not modelled: csapp.c, a copy of a library, of which `Rio_writen` is called and is a parameter here;
-- the memory of the buffers of scanner.c: its input is a list of bytes, or a list of reads where the
-- end of the buffer matters; traces on the error stream; `fclose` and `free`, but for the connection,
-- whose use after `cleanup` is undefined behaviour; the contents of memory that is not initialised,
-- which is 0 in the packet and undefined behaviour elsewhere; the two allocations of `arm_connect`,
-- which are taken to succeed. `getopt`, `getopt_long`, `getaddrinfo` and `connect` are parameters:
-- what they give.
pub mod Base
pub mod Runtime
pub mod Util
pub mod Elf
pub mod Header
pub mod Section
pub mod Symbol
pub mod Relocation
pub mod Dump
pub mod Readelf
pub mod Process
pub mod Gdb
pub mod Simulator
pub mod Loader
pub mod Runner
pub mod Debug
pub mod Examples
