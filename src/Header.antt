-- ===== src/Header.antt =====
-- elf_header.c: the fields of the ELF header, their names, and how the header is read and checked.
pub mod Print
pub mod Outcomes
use arm_reimplementation.Base.{
  ℕ, ◌≡◌, Bool, true, false, String, Option, none, some, List, [], ◌∷◌, ◌==◌, ◌&&◌, ◌||◌, not,
  get_or, length, codes, if◌then◌else◌,
}
use arm_reimplementation.Runtime.Bytes.{ntohs, ntohl}
use arm_reimplementation.Runtime.Io.{
  Run, M, Host, text, perror, ◌>>=◌, ◌>>◌, pure, deref, complain, malloc, fread,
}
use arm_reimplementation.Elf.{Ehdr, load_ehdr, ehdr_size, switch}

module _ (big : Bool) where
  unfoldable pub get_header_shoff : Ehdr → ℕ
  get_header_shoff header = ntohl big header.e_shoff

  unfoldable pub get_header_phoff : Ehdr → ℕ
  get_header_phoff header = ntohl big header.e_phoff

  unfoldable pub get_header_shentize : Ehdr → ℕ
  get_header_shentize header = ntohs big header.e_shentsize

  unfoldable pub get_header_phentsize : Ehdr → ℕ
  get_header_phentsize header = ntohs big header.e_phentsize

  unfoldable pub get_header_phnum : Ehdr → ℕ
  get_header_phnum header = ntohs big header.e_phnum

  unfoldable pub get_header_ehsize : Ehdr → ℕ
  get_header_ehsize header = ntohs big header.e_ehsize

  unfoldable pub get_header_shnum : Ehdr → ℕ
  get_header_shnum header = ntohs big header.e_shnum

  unfoldable pub get_header_shstrndx : Ehdr → ℕ
  get_header_shstrndx header = ntohs big header.e_shstrndx

  unfoldable pub get_header_type : Ehdr → ℕ
  get_header_type header = ntohs big header.e_type

  unfoldable pub get_header_machine : Ehdr → ℕ
  get_header_machine header = ntohs big header.e_machine

  unfoldable pub get_header_version : Ehdr → ℕ
  get_header_version header = ntohl big header.e_version

  unfoldable pub get_header_flag : Ehdr → ℕ
  get_header_flag header = ntohl big header.e_flags

  unfoldable pub get_header_entry : Ehdr → ℕ
  get_header_entry header = ntohl big header.e_entry

  unfoldable pub get_header_type_name : Ehdr → String
  get_header_type_name header =
      switch (get_header_type header)
        ((0, "No file type")
          ∷ (1, "REL (Relocatable file)")
          ∷ (2, "EXE (Executable file)")
          ∷ (3, "SOF (Shared Object File)")
          ∷ (4, "CF (Core file)")
          ∷ (0xff00, "Processor-specific (low)")
          ∷ (0xffff, "Processor-specific (high)")
          ∷ [])
        "Unknown type"

  unfoldable pub get_header_machine_name : Ehdr → String
  get_header_machine_name header =
      switch (get_header_machine header)
        ((0, "No machine")
          ∷ (40, "ARM")
          ∷ (1, "AT&T WE 32100")
          ∷ (2, "SPARC")
          ∷ (3, "Intel 80386")
          ∷ (4, "Motorola 68000")
          ∷ (5, "Motorola 88000")
          ∷ (7, "Intel 80860")
          ∷ (8, "MIPS RS3000 Big-Endian")
          ∷ (10, "MIPS RS4000 Big-Endian")
          ∷ (11, "Reserved for future use")
          ∷ (12, "Reserved for future use")
          ∷ (13, "Reserved for future use")
          ∷ (14, "Reserved for future use")
          ∷ (15, "Reserved for future use")
          ∷ (16, "Reserved for future use")
          ∷ [])
        "Unknown machine"

-- The four bytes of `e_ident` that the program reads by name.
unfoldable pub get_header_osabi : Ehdr → ℕ
get_header_osabi header = get_or header.e_ident 7 0

unfoldable pub get_header_abi_version : Ehdr → ℕ
get_header_abi_version header = get_or header.e_ident 8 0

unfoldable pub get_header_class : Ehdr → ℕ
get_header_class header = get_or header.e_ident 4 0

unfoldable pub get_header_data : Ehdr → ℕ
get_header_data header = get_or header.e_ident 5 0

unfoldable pub get_header_osabi_name : Ehdr → String
get_header_osabi_name header =
    switch (get_header_osabi header)
      ((0, "UNIX - System V")
        ∷ (1, "HP-UX")
        ∷ (2, "NetBSD")
        ∷ (3, "GNU/Linux")
        ∷ (6, "Sun Solaris")
        ∷ (7, "IBM AIX")
        ∷ (8, "SGI Irix")
        ∷ (9, "FreeBSD")
        ∷ (10, "Compaq TRU64 UNIX")
        ∷ (11, "Novell Modesto")
        ∷ (12, "OpenBSD")
        ∷ (64, "ARM EABI")
        ∷ (97, "ARM")
        ∷ (255, "Standalone (embedded) application")
        ∷ [])
      "Unknown OS/ABI"

-- The null pointer is `none`. The error paths also close the file, which no caller looks at.
unfoldable pub get_header : Host → M (Option Ehdr)
unfolding malloc fread complain
get_header host = do
  allocated ← malloc host ehdr_size
  if not allocated
      then (complain (perror "Failed to allocate memory for ELF header") >> pure none)
      else do
        got ← fread ehdr_size
        if length got == ehdr_size
            then pure (some (load_ehdr host.big_endian got))
            else (complain (perror "Failed to read ELF header") >> pure none)

-- The magic number: 0x7f, then the letters ELF.
unfoldable pub has_magic : Ehdr → Bool
has_magic header =
    get_or header.e_ident 0 0 == 0x7f
    && (get_or header.e_ident 1 0 == b'E'
        && (get_or header.e_ident 2 0 == b'L' && get_or header.e_ident 3 0 == b'F'))

-- The argument is a pointer, which `get_header` may have returned null.
unfoldable pub valider_elf : Option Ehdr → M Bool
unfolding has_magic complain
valider_elf pointer = do
  header ← deref pointer
  if has_magic header
      then pure true
      else (complain (text (codes "Le fichier n'est pas un fichier ELF valide.\n")) >> pure false)
