-- ===== src/Elf.antt =====
-- The ELF structures as they lie in memory (from the system's elf.h): each field holds the number
-- that the host reads there, so the fields of a big-endian file go through `ntohl` or `ntohs`.
pub mod Constants
pub mod Layout
pub mod Strings
use arm_reimplementation.Base.{
  ℕ, ◌+◌, ◌*◌, ◌/◌, ◌%◌, Bool, String, Option, none, some, List, [], ◌∷◌, ◌++◌, ◌==◌, ◌&&◌, not,
  true, false, leb, length, take, drop, get_or, get_elem?, if◌then◌else◌, bit_and,
}
use arm_reimplementation.Runtime.Bytes.{load16, load32, store16, store32}

pub record Ehdr : Type 0 where
  pub e_ident : List ℕ
  pub e_type : ℕ
  pub e_machine : ℕ
  pub e_version : ℕ
  pub e_entry : ℕ
  pub e_phoff : ℕ
  pub e_shoff : ℕ
  pub e_flags : ℕ
  pub e_ehsize : ℕ
  pub e_phentsize : ℕ
  pub e_phnum : ℕ
  pub e_shentsize : ℕ
  pub e_shnum : ℕ
  pub e_shstrndx : ℕ

pub record Shdr : Type 0 where
  pub sh_name : ℕ
  pub sh_type : ℕ
  pub sh_flags : ℕ
  pub sh_addr : ℕ
  pub sh_offset : ℕ
  pub sh_size : ℕ
  pub sh_link : ℕ
  pub sh_info : ℕ
  pub sh_addralign : ℕ
  pub sh_entsize : ℕ

pub record Sym : Type 0 where
  pub st_name : ℕ
  pub st_value : ℕ
  pub st_size : ℕ
  pub st_info : ℕ
  pub st_other : ℕ
  pub st_shndx : ℕ

pub record Rel : Type 0 where
  pub r_offset : ℕ
  pub r_info : ℕ

-- The sizes of the four structures.
abbrev pub ehdr_size : ℕ
ehdr_size = 52

abbrev pub shdr_size : ℕ
shdr_size = 40

abbrev pub sym_size : ℕ
sym_size = 16

abbrev pub rel_size : ℕ
rel_size = 8

module _ (big : Bool) where
  -- The structure that lies in memory from the first byte of the list on.
  unfoldable pub load_ehdr : List ℕ → Ehdr
  load_ehdr bs = record {
    e_ident = take 16 bs;
    e_type = load16 big bs 16;
    e_machine = load16 big bs 18;
    e_version = load32 big bs 20;
    e_entry = load32 big bs 24;
    e_phoff = load32 big bs 28;
    e_shoff = load32 big bs 32;
    e_flags = load32 big bs 36;
    e_ehsize = load16 big bs 40;
    e_phentsize = load16 big bs 42;
    e_phnum = load16 big bs 44;
    e_shentsize = load16 big bs 46;
    e_shnum = load16 big bs 48;
    e_shstrndx = load16 big bs 50;
  }

  unfoldable pub load_shdr : List ℕ → Shdr
  load_shdr bs = record {
    sh_name = load32 big bs 0;
    sh_type = load32 big bs 4;
    sh_flags = load32 big bs 8;
    sh_addr = load32 big bs 12;
    sh_offset = load32 big bs 16;
    sh_size = load32 big bs 20;
    sh_link = load32 big bs 24;
    sh_info = load32 big bs 28;
    sh_addralign = load32 big bs 32;
    sh_entsize = load32 big bs 36;
  }

  unfoldable pub load_sym : List ℕ → Sym
  load_sym bs = record {
    st_name = load32 big bs 0;
    st_value = load32 big bs 4;
    st_size = load32 big bs 8;
    st_info = get_or bs 12 0;
    st_other = get_or bs 13 0;
    st_shndx = load16 big bs 14;
  }

  unfoldable pub load_rel : List ℕ → Rel
  load_rel bs = record { r_offset = load32 big bs 0; r_info = load32 big bs 4 }

  -- The bytes of a structure in memory.
  unfoldable pub store_ehdr : Ehdr → List ℕ
  store_ehdr h =
      h.e_ident
      ++ (store16 big h.e_type
          ++ (store16 big h.e_machine
              ++ (store32 big h.e_version
                  ++ (store32 big h.e_entry
                      ++ (store32 big h.e_phoff
                          ++ (store32 big h.e_shoff
                              ++ (store32 big h.e_flags
                                  ++ (store16 big h.e_ehsize
                                      ++ (store16 big h.e_phentsize
                                          ++ (store16 big h.e_phnum
                                              ++ (store16 big h.e_shentsize
                                                  ++ (store16 big h.e_shnum
                                                      ++ store16 big h.e_shstrndx))))))))))))

  unfoldable pub store_shdr : Shdr → List ℕ
  store_shdr s =
      store32 big s.sh_name
      ++ (store32 big s.sh_type
          ++ (store32 big s.sh_flags
              ++ (store32 big s.sh_addr
                  ++ (store32 big s.sh_offset
                      ++ (store32 big s.sh_size
                          ++ (store32 big s.sh_link
                              ++ (store32 big s.sh_info
                                  ++ (store32 big s.sh_addralign ++ store32 big s.sh_entsize))))))))

  unfoldable pub store_sym : Sym → List ℕ
  store_sym s =
      store32 big s.st_name
      ++ (store32 big s.st_value
          ++ (store32 big s.st_size ++ (s.st_info ∷ s.st_other ∷ store16 big s.st_shndx)))

  -- Element `i` of an array of structures in a buffer; `none` when it leaves the buffer.
  unfoldable pub shdr_at : List ℕ → ℕ → Option Shdr
  shdr_at buf i =
      if leb (i * 40 + 40) (length buf) then some (load_shdr (drop (i * 40) buf)) else none

  unfoldable pub sym_at : List ℕ → ℕ → Option Sym
  sym_at buf i =
      if leb (i * 16 + 16) (length buf) then some (load_sym (drop (i * 16) buf)) else none

  unfoldable pub rel_at : List ℕ → ℕ → Option Rel
  rel_at buf i = if leb (i * 8 + 8) (length buf) then some (load_rel (drop (i * 8) buf)) else none

-- A C string is memory up to its end: the characters before the first null byte, or `none` when the
-- memory ends before one.
unfoldable pub c_string : List ℕ → Option (List ℕ)
c_string [] = none
c_string (c ∷ cs) =
    if c == 0 then some [] else elim (c_string cs) [ none ↦ none | some s ↦ some (c ∷ s) ]

-- `strcmp(memory, text) == 0`, which reads up to the first difference.
unfoldable pub strcmp_eq : List ℕ → List ℕ → Option Bool
strcmp_eq [] t = none
strcmp_eq (c ∷ cs) [] = some (c == 0)
strcmp_eq (c ∷ cs) (d ∷ ds) = if c == d then strcmp_eq cs ds else some false

-- A `switch` on constants that returns a text.
unfoldable pub switch : ℕ → List (ℕ × String) → String → String
switch n [] default = default
switch n ((c, name) ∷ cases) default = if n == c then name else switch n cases default

-- `flags & bit`, read as a test.
unfoldable pub has_flag : ℕ → ℕ → Bool
has_flag flags bit = not (bit_and flags bit == 0)
