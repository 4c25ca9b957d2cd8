-- ===== src/Process/Symbols/Remap.antt =====
-- The section index of a symbol, once sections are removed.
pub mod Rounds
pub mod Table
use arm_reimplementation.Base.{
  ℕ, zero, suc, ◌+◌, ◌*◌, ◌%◌, ◌^◌, ◌≤◌, ◌<◌, ◌≡◌, ◌≢◌, ◌⊎◌, inl, inr, refl, sym, ap, ◌∙◌, Bool,
  true, false, Option, none, some, List, [], ◌∷◌, ◌==◌, ltb, leb, length, get_elem?, drop, All,
  arith, if◌then◌else◌, subst, Option-cases, Bool-cases,
}
use arm_reimplementation.Runtime.Bytes.{IsByte, htons, ntohs, poke, write_at}
use arm_reimplementation.Runtime.Bytes.Swap.{ntohs-ntohs, ntohs-lt}
use arm_reimplementation.Runtime.Bytes.Stores.{length-write_at, write_at-IsByte}
use arm_reimplementation.Elf.{Sym, sym_at, load_sym, store_sym}
use arm_reimplementation.Elf.Constants.{shn_undef, shn_loreserve}
use arm_reimplementation.Elf.Layout.{
  IsSym, load_sym-IsSym, sym_at_inside, sym_at_self, sym_at_other, poke_sym, store_sym-IsByte,
  drop-IsByte,
}
use arm_reimplementation.Symbol.{get_symbol_shndx}
use arm_reimplementation.Process.Setters.{setsymstindx}
use arm_reimplementation.Process.Symbols.{◌>>=◌, set_sym, new_shndx, remap_symbol, remap_symbols}

-- The index that a symbol should have: the new one of a section that is kept, none of a section that
-- is removed or is not there, and a reserved index as it was.
unfoldable pub renumbered : ℕ → List (Option ℕ) → ℕ → ℕ
renumbered old_shnum mapping index =
    elim (if ltb index old_shnum then get_elem? mapping index else none) [
      | some (some new_index) ↦ new_index
      | some none ↦ if leb shn_loreserve index then index else 0
      | none ↦ if leb shn_loreserve index then index else 0
    ]

-- A symbol with another section index, and nothing else changed.
unfoldable pub IsRenumbered : Bool → ℕ → List (Option ℕ) → Sym → Sym → Type 0
IsRenumbered big old_shnum mapping s t =
    (get_symbol_shndx big t ≡ renumbered old_shnum mapping (get_symbol_shndx big s))
    × (t.st_name ≡ s.st_name)
    × (t.st_value ≡ s.st_value)
    × (t.st_size ≡ s.st_size)
    × (t.st_info ≡ s.st_info)
    × (t.st_other ≡ s.st_other)

pub get_elem?-inside :
    (xs : List (Option ℕ)) (i : ℕ) → i < length xs → (x : Option ℕ) × (get_elem? xs i ≡ some x)
get_elem?-inside [] i h = absurd (omega arith)
get_elem?-inside (x ∷ xs) zero h = (x, refl)
get_elem?-inside (x ∷ xs) (suc i) h = get_elem?-inside xs i (omega arith)

pub setsymstindx-IsSym :
    (big : Bool) (s : Sym) (index : ℕ) → IsSym s → IsSym (setsymstindx big s index)
unfolding setsymstindx
setsymstindx-IsSym big s index h = record {
  name_fits = h.name_fits;
  value_fits = h.value_fits;
  size_fits = h.size_fits;
  info_fits = h.info_fits;
  other_fits = h.other_fits;
  shndx_fits = ntohs-lt big index;
}
