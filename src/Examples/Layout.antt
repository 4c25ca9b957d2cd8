-- ===== src/Examples/Layout.antt =====
-- Sections placed, copied and relocated, on a big-endian host.
use arm_reimplementation.Base.{
  ℕ, ◌≡◌, inl, inr, refl, true, none, some, List, [], ◌∷◌, ◌++◌, length, take, drop, replicate,
  get_or, arith,
}
use arm_reimplementation.Runtime.Bytes.{ntohl, load16, load32, store32, poke, write_at}
use arm_reimplementation.Runtime.Io.{World, ok}
use arm_reimplementation.Elf.{Shdr, rel_at, load_rel, sym_at, load_sym}
use arm_reimplementation.Section.{
  get_section_offset, get_section_size, get_section_addralign, get_section_type, get_section_link,
}
use arm_reimplementation.Symbol.{get_symbol_value}
use arm_reimplementation.Symbol.Print.{is_symbol_table}
use arm_reimplementation.Process.Setters.{get_sh_name, set_section_offset}
use arm_reimplementation.Process.Apply.{apply_relocation, apply_type, store_word}
use arm_reimplementation.Process.Copy.{
  Plan, Copy, align_address, place_section, rename_section, relink_section, new_header,
  copy_section,
}
use arm_reimplementation.Process.Copy.Spans.{IsAlignment, IsApart, spans, extent, spans-IsApart}
use arm_reimplementation.Process.Copy.Contents.{IsCopied}
use arm_reimplementation.Process.Copy.Layout.{InStep, section_bytes, copy_section_bytes}
use arm_reimplementation.Process.Patch.{settle, apply_all}
use arm_reimplementation.Process.Patch.Frame.{IsOutside, apply_all_frame}
use arm_reimplementation.Examples.Branches.{two_symbols, two_words}
use arm_reimplementation.Examples.Tables.{host, world, section_of, zeros}

-- Five bytes without an alignment, and eight bytes aligned to 4.
abbrev two_sections : List Shdr
two_sections =
    record (section_of 1) { sh_size = 5 }
    ∷ record (section_of 1) { sh_size = 8; sh_addralign = 4 }
    ∷ []

spans-IsApart_example : IsApart (spans true two_sections 0x58)
unfolding IsAlignment get_section_addralign get_section_size extent ntohl
spans-IsApart_example =
    spans-IsApart true two_sections 0x58 ((inl refl), ((inr (2, 30, refl, refl)), tt)) (omega arith)

-- The bytes 7, 8, 9 at offset 2 of the old file.
abbrev three_bytes : Shdr
three_bytes = record (section_of 1) { sh_offset = 2; sh_size = 3 }

abbrev plan : Plan
plan = record {
  header = zeros;
  shdrs = [];
  shstrtab = none;
  old_shnum = 0;
  mapping = [];
  new_shnum = 1;
  capacity = 1;
  final_size = 1;
}

abbrev at_start : Copy
at_start = record {
  new_shdrs = [];
  current_offset = 52;
  current_address = 0x58;
  new_shstrtab = 0 ∷ [];
  sym = record { symbols = none; size = 0 };
}

abbrev old_file : World
old_file = record world { input = 1 ∷ 2 ∷ 7 ∷ 8 ∷ 9 ∷ []; written = replicate 52 0; wpos = 52 }

abbrev copied_header : Shdr
copied_header = record three_bytes { sh_offset = 52; sh_addr = 0x58 }

gets_header : new_header host plan three_bytes at_start ≡ some (copied_header, 0 ∷ [])
unfolding new_header place_section align_address set_section_offset rename_section relink_section
    get_section_addralign get_section_link get_sh_name ntohl
gets_header = refl

copy_section_bytes_example :
    (state' : Copy) × (w' : World) × (copy_section host plan 1 three_bytes at_start old_file
      ≡ ok (some state') w')
    × (state'.new_shdrs ≡ copied_header ∷ [])
    × (take
          (get_section_size true three_bytes)
          (drop (get_section_offset true copied_header) (w'.written ++ (5 ∷ [])))
        ≡ section_bytes true three_bytes old_file)
    × InStep state' w'
unfolding get_section_size get_section_offset ntohl InStep IsCopied is_symbol_table get_section_type
copy_section_bytes_example =
    copy_section_bytes host plan 1 three_bytes copied_header at_start (0 ∷ []) (5 ∷ []) old_file
      gets_header (refl, refl) refl refl (omega arith) (refl, refl) (omega arith) (omega arith)

-- One entry, `R_ARM_ABS32` about the second word.
abbrev one_entry : List ℕ
one_entry = 0 ∷ 0 ∷ 0 ∷ 4 ∷ 0 ∷ 0 ∷ 1 ∷ 2 ∷ []

abbrev relocated : List ℕ
relocated = 0xe1 ∷ 0xa0 ∷ 0 ∷ 0 ∷ 0 ∷ 0 ∷ 1 ∷ 0 ∷ []

relocates :
    apply_all host one_entry (some two_symbols) 0x58 1 0 two_words world ≡ ok relocated world
unfolding apply_all rel_at load_rel load32 settle apply_relocation sym_at load_sym load16 apply_type
    get_symbol_value ntohl store_word store32 poke write_at
relocates = refl

apply_all_frame_example :
    (length relocated ≡ length two_words)
    × ((k : ℕ) → IsOutside true one_entry k → get_or relocated k 0 ≡ get_or two_words k 0)
apply_all_frame_example =
    apply_all_frame host one_entry (some two_symbols) 0x58 1 0 two_words relocated world world
      relocates
