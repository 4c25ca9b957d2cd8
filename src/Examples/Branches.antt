-- ===== src/Examples/Branches.antt =====
-- Entries of a relocation section about a symbol at 0x100, in a section at 0x58, on a little-endian
-- host.
use arm_reimplementation.Base.{
  ℕ, ◌+◌, ◌*◌, ◌/◌, ◌^◌, ◌≡◌, refl, false, some, List, [], ◌∷◌, inl, arith, All,
}
use arm_reimplementation.Runtime.Bytes.{IsByte, ntohl, load32, load16, store32, write_at}
use arm_reimplementation.Elf.{Rel, Sym, sym_at, load_sym}
use arm_reimplementation.Symbol.{get_symbol_value}
use arm_reimplementation.Process.Apply.{patched, out_of_range, apply_relocation}
use arm_reimplementation.Process.Apply.Words.{branch_target}
use arm_reimplementation.Process.Apply.Stores.{word_at, IsPatch}
use arm_reimplementation.Process.Apply.Entries.{IsEntry}
use arm_reimplementation.Process.Relocation.{
  call_reaches_symbol, jump_reaches_symbol, branch_refused, absolute_stores_symbol,
}

abbrev at_0x100 : Sym
at_0x100 = record {
  st_name = 0;
  st_value = 0x00010000;
  st_size = 0;
  st_info = 0;
  st_other = 0;
  st_shndx = 0x0100;
}

abbrev pub two_symbols : List ℕ
two_symbols =
    0 ∷ 0 ∷ 0 ∷ 0 ∷ 0 ∷ 0 ∷ 0 ∷ 0 ∷ 0 ∷ 0 ∷ 0 ∷ 0 ∷ 0 ∷ 0 ∷ 0 ∷ 0 ∷ 0 ∷ 0 ∷ 0 ∷ 0 ∷ 0 ∷ 0 ∷ 1 ∷ 0
    ∷ 0 ∷ 0 ∷ 0 ∷ 0 ∷ 0 ∷ 0 ∷ 0 ∷ 1 ∷ []

-- Two instructions: `mov r0, r0` and a `BNE`.
abbrev pub two_words : List ℕ
two_words = 0xe1 ∷ 0xa0 ∷ 0 ∷ 0 ∷ 0x1a ∷ 0xff ∷ 0xff ∷ 0xfe ∷ []

-- About the second word.
abbrev entry_of : ℕ → Rel
entry_of type = record { r_offset = 0x04000000; r_info = type * 2 ^ 24 + 0x00010000 }

call-IsEntry : IsEntry false (entry_of 28) two_symbols two_words 28 at_0x100
unfolding ntohl sym_at load_sym load32 load16
call-IsEntry = record { has_type = refl; has_symbol = refl; has_word = omega arith }

jump-IsEntry : IsEntry false (entry_of 29) two_symbols two_words 29 at_0x100
unfolding ntohl sym_at load_sym load32 load16
jump-IsEntry = record { has_type = refl; has_symbol = refl; has_word = omega arith }

two_words-IsByte : All IsByte two_words
two_words-IsByte = omega arith

call_reaches_symbol_example :
    (out : List ℕ) × (apply_relocation false (entry_of 28) (some two_symbols) two_words 0x58
      ≡ patched out)
    × (branch_target 0x5c (word_at out 4) ≡ 0x100)
    × (word_at out 4 / 2 ^ 24 ≡ 0xEB)
    × IsPatch two_words out 4 4
unfolding ntohl get_symbol_value
call_reaches_symbol_example =
    call_reaches_symbol false (entry_of 28) two_symbols two_words 0x58 at_0x100 call-IsEntry
      (omega arith) (omega arith) refl refl

jump_reaches_symbol_example :
    (out : List ℕ) × (apply_relocation false (entry_of 29) (some two_symbols) two_words 0x58
      ≡ patched out)
    × (branch_target 0x5c (word_at out 4) ≡ 0x100)
    × (word_at out 4 / 2 ^ 24 ≡ 0x1a)
    × IsPatch two_words out 4 4
unfolding ntohl get_symbol_value
jump_reaches_symbol_example =
    jump_reaches_symbol false (entry_of 29) two_symbols two_words 0x58 at_0x100 jump-IsEntry
      two_words-IsByte (omega arith) (omega arith) refl refl refl

-- From 64 MB away.
branch_refused_example :
    apply_relocation false (entry_of 28) (some two_symbols) two_words 0x4000000 ≡ out_of_range
unfolding ntohl get_symbol_value
branch_refused_example =
    branch_refused false (entry_of 28) two_symbols two_words 0x4000000 28 at_0x100 call-IsEntry
      (inl refl) (omega arith) (omega arith) refl

absolute_stores_symbol_example :
    apply_relocation false (entry_of 2) (some two_symbols) two_words 0x58
    ≡ patched (write_at two_words 4 (0 ∷ 0 ∷ 1 ∷ 0 ∷ []))
unfolding ntohl get_symbol_value sym_at load_sym load32 load16 store32
absolute_stores_symbol_example =
    absolute_stores_symbol false (entry_of 2) two_symbols two_words 0x58 2 at_0x100 (inl refl) refl
      refl (omega arith)
