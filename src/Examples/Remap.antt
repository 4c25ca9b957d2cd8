-- ===== src/Examples/Remap.antt =====
-- Two symbols that move with their sections, and are renumbered in a file whose second section is
-- removed.
use arm_reimplementation.Base.{
  ℕ, zero, suc, ◌^◌, ◌≤◌, ◌<◌, ◌≡◌, inr, refl, ap, true, Option, none, some, List, [], ◌∷◌, ◌++◌,
  get_elem?, codes, arith, subst,
}
use arm_reimplementation.Elf.{Sym, Shdr, sym_at, load_sym, c_string}
use arm_reimplementation.Runtime.Bytes.{load16, ntohs, ntohl}
use arm_reimplementation.Symbol.{get_symbol_shndx}
use arm_reimplementation.Process.Setters.{get_sh_name}
use arm_reimplementation.Process.Symbols.{remap_symbols, update_symbol_addresses}
use arm_reimplementation.Process.Symbols.Steps.{AreMapped}
use arm_reimplementation.Process.Symbols.Values.{HasSection, IsMoved}
use arm_reimplementation.Process.Symbols.Addresses.{update_addresses-AreMapped}
use arm_reimplementation.Process.Symbols.Remap.Table.{IsRemapped, remap_symbols-IsRemapped}

abbrev mapping : List (Option ℕ)
mapping = some 0 ∷ none ∷ some 1 ∷ []

index_of : Option (Option ℕ) → ℕ
index_of none = 0
index_of (some none) = 0
index_of (some (some k)) = k

small_indices : (j k : ℕ) → get_elem? mapping j ≡ some (some k) → k < 2 ^ 16
unfolding index_of
small_indices zero k e = omega (arith, ap index_of e)
small_indices (suc zero) k e = omega (arith, ap index_of e)
small_indices (suc (suc zero)) k e = omega (arith, ap index_of e)
small_indices (suc (suc (suc j))) k e = omega (arith, ap index_of e)

-- Symbols of the removed section and of the third.
abbrev symbols : List ℕ
symbols =
    0 ∷ 0 ∷ 0 ∷ 0 ∷ 0 ∷ 0 ∷ 0 ∷ 8 ∷ 0 ∷ 0 ∷ 0 ∷ 0 ∷ 0 ∷ 0 ∷ 0 ∷ 1 ∷ 0 ∷ 0 ∷ 0 ∷ 0 ∷ 0 ∷ 0 ∷ 1 ∷ 0
    ∷ 0 ∷ 0 ∷ 0 ∷ 0 ∷ 0 ∷ 0 ∷ 0 ∷ 2 ∷ []

remap_symbols-IsRemapped_example :
    (out : List ℕ) × (remap_symbols true 3 mapping 2 0 symbols ≡ some out)
    × IsRemapped true 3 mapping 2 0 symbols out
remap_symbols-IsRemapped_example =
    remap_symbols-IsRemapped true 3 mapping 2 0 symbols (omega arith) (omega arith) refl
      small_indices

abbrev section_named : ℕ → ℕ → Shdr
section_named name address = record {
  sh_name = name;
  sh_type = 1;
  sh_flags = 6;
  sh_addr = address;
  sh_offset = 0x34;
  sh_size = 16;
  sh_link = 0;
  sh_info = 0;
  sh_addralign = 4;
  sh_entsize = 0;
}

-- The headers that are filled in so far, of four.
abbrev headers : List Shdr
headers = section_named 0 0 ∷ section_named 1 0x58 ∷ section_named 7 0x68 ∷ []

abbrev names : List ℕ
names = 0 ∷ codes ".text" ++ (0 ∷ codes ".note" ++ (0 ∷ []))

section_of_symbol : Option Sym → ℕ
unfolding get_symbol_shndx
section_of_symbol none = 0
section_of_symbol (some s) = get_symbol_shndx true s

text_there : HasSection true headers 4 names 1
unfolding HasSection get_sh_name ntohl c_string
text_there = inr (section_named 1 0x58, refl, inr (codes ".text", refl))

note_there : HasSection true headers 4 names 2
unfolding HasSection get_sh_name ntohl c_string
note_there = inr (section_named 7 0x68, refl, inr (codes ".note", refl))

sections_there :
    (k : ℕ) (s : Sym)
    → 0 ≤ k
    → sym_at true symbols k ≡ some s
    → HasSection true headers 4 names (get_symbol_shndx true s)
unfolding sym_at load_sym load16 ntohs get_symbol_shndx section_of_symbol
sections_there zero s from e =
    subst (HasSection true headers 4 names) (ap section_of_symbol e) text_there
sections_there (suc zero) s from e =
    subst (HasSection true headers 4 names) (ap section_of_symbol e) note_there
sections_there (suc (suc k)) s from e = absurd (ground arith)

update_addresses-AreMapped_example :
    (out : List ℕ) × (update_symbol_addresses true headers 4 names 2 0 symbols ≡ some out)
    × AreMapped true (IsMoved true headers 4 names) 2 0 symbols out
update_addresses-AreMapped_example =
    update_addresses-AreMapped true headers 4 names 2 0 symbols (omega arith) (omega arith)
      sections_there
