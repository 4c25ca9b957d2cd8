-- ===== src/Process/Symbols.antt =====
-- `update_symbol_addresses`, and the loop that gives the symbols their new section indices.
pub mod Steps
pub mod Remap
pub mod Values
pub mod Moves
pub mod Addresses
use arm_reimplementation.Base.{
  ℕ, zero, suc, ◌+◌, ◌*◌, ◌%◌, ◌^◌, Bool, true, false, Option, none, some, List, [], ◌∷◌, ◌++◌,
  ◌==◌, ◌&&◌, ◌||◌, ltb, leb, not, length, get_elem?, codes, if◌then◌else◌,
}
use arm_reimplementation.Runtime.Bytes.{poke}
use arm_reimplementation.Elf.{Sym, Shdr, sym_at, store_sym, strcmp_eq, has_flag}
use arm_reimplementation.Elf.Constants.{shn_undef, shn_abs, shn_loreserve, shf_alloc}
use arm_reimplementation.Section.{get_section_name, get_section_flags, get_section_addr}
use arm_reimplementation.Symbol.{get_symbol_shndx, get_symbol_value}
use arm_reimplementation.Process.Setters.{setsymstindx, setsymvalue}

-- Here `none` is undefined behaviour.
infixl 5 ◌>>=◌
abbrev pub ◌>>=◌ {ℓ κ} : {A : Type ℓ} {B : Type κ} → Option A → (A → Option B) → Option B
none >>= f = none
some a >>= f = f a

-- `strcmp` with each of the three names, up to the first that fits.
unfoldable pub is_program_section : List ℕ → Option Bool
unfolding strcmp_eq
is_program_section name = do
  text ← strcmp_eq name (codes ".text")
  if text then some true else do
    bss_or_data ← strcmp_eq name (codes ".data")
    if bss_or_data then some true else strcmp_eq name (codes ".bss")

module _ (big : Bool) where
  -- Element `i` of the symbol table in memory, written back.
  unfoldable pub set_sym : List ℕ → ℕ → Sym → Option (List ℕ)
  unfolding poke
  set_sym symbols i symbol = poke symbols (i * 16) (store_sym big symbol)

  -- One symbol's new value.
  unfoldable pub relocated_symbol : Sym → ℕ → Sym
  relocated_symbol symbol section_address =
      if get_symbol_value big symbol == 0
      then setsymvalue big symbol section_address
      else setsymvalue big symbol ((get_symbol_value big symbol + section_address) % 2 ^ 32)

  -- One round of the loop. `sections` holds the new headers that are filled in so far; one behind
  -- them is not initialised.
  unfoldable pub update_symbol : List Shdr → ℕ → List ℕ → List ℕ → ℕ → Option (List ℕ)
  unfolding is_program_section set_sym relocated_symbol get_section_name has_flag
  update_symbol sections num_sections shstrtab symbols i = do
    symbol ← sym_at big symbols i
    let section_index = get_symbol_shndx big symbol
    if section_index == shn_undef || (section_index == shn_abs || leb num_sections section_index)
        then some symbols
        else do
          section_name ← get_section_name big section_index (get_elem? sections) (some shstrtab)
          section ← get_elem? sections section_index
          if not (has_flag (get_section_flags big section) shf_alloc) then some symbols else do
            named ← is_program_section section_name
            if named
                then set_sym symbols i (relocated_symbol symbol (get_section_addr big section))
                else some symbols

  -- `left` rounds from `i` on.
  unfoldable pub update_symbol_addresses : List Shdr → ℕ → List ℕ → ℕ → ℕ → List ℕ → Option (List ℕ)
  unfolding update_symbol
  update_symbol_addresses sections num_sections shstrtab zero i symbols = some symbols
  update_symbol_addresses sections num_sections shstrtab (suc left) i symbols = do
    symbols' ← update_symbol sections num_sections shstrtab symbols i
    update_symbol_addresses sections num_sections shstrtab left (i + 1) symbols'

  -- The new index of a section: `mapping` has `none` for a section that is removed.
  unfoldable pub new_shndx : ℕ → List (Option ℕ) → ℕ → Option (Option ℕ)
  new_shndx old_shnum mapping old_shndx =
      if ltb old_shndx old_shnum then get_elem? mapping old_shndx else some none

  unfoldable pub remap_symbol : ℕ → List (Option ℕ) → List ℕ → ℕ → Option (List ℕ)
  unfolding new_shndx set_sym
  remap_symbol old_shnum mapping symbols i = do
    symbol ← sym_at big symbols i
    let old_shndx = get_symbol_shndx big symbol
    target ← new_shndx old_shnum mapping old_shndx
    elim target [
      | some index ↦ set_sym symbols i (setsymstindx big symbol index)
      | none ↦
          if leb shn_loreserve old_shndx
          then some symbols
          else set_sym symbols i (setsymstindx big symbol shn_undef)
    ]

  unfoldable pub remap_symbols : ℕ → List (Option ℕ) → ℕ → ℕ → List ℕ → Option (List ℕ)
  unfolding remap_symbol
  remap_symbols old_shnum mapping zero i symbols = some symbols
  remap_symbols old_shnum mapping (suc left) i symbols = do
    symbols' ← remap_symbol old_shnum mapping symbols i
    remap_symbols old_shnum mapping left (i + 1) symbols'
