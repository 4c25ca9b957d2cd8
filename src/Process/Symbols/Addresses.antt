-- ===== src/Process/Symbols/Addresses.antt =====
-- What `update_symbol_addresses` makes of a table of symbols.
use arm_reimplementation.Base.{
  ℕ, zero, suc, ◌+◌, ◌*◌, ◌≤◌, ◌≡◌, refl, sym, ◌∙◌, Bool, some, List, length, drop, All, arith,
}
use arm_reimplementation.Runtime.Bytes.{IsByte}
use arm_reimplementation.Elf.{Sym, Shdr, sym_at, load_sym}
use arm_reimplementation.Elf.Layout.{sym_at_inside}
use arm_reimplementation.Symbol.{get_symbol_shndx}
use arm_reimplementation.Process.Symbols.{◌>>=◌, update_symbol_addresses}
use arm_reimplementation.Process.Symbols.Steps.{Round, AreMapped, extend, none_mapped}
use arm_reimplementation.Process.Symbols.Values.{HasSection, IsMoved}
use arm_reimplementation.Process.Symbols.Moves.{Moves, update-Moves}

-- In a table of whole symbols, every symbol moves, modulo 2^32, by the address of the section that it
-- lies in, where that section is in memory and is named `.text`, `.data` or `.bss`, and every other
-- symbol stays; no other field changes. The condition is that the section of each symbol is among
-- those that are filled in, with a name if it is in memory, unless its index is passed over (none,
-- absolute, or behind the last section).
pub update_addresses-AreMapped :
    (big : Bool) (sections : List Shdr) (num_sections : ℕ) (shstrtab : List ℕ) (left i : ℕ)
    (symbols : List ℕ)
    → All IsByte symbols
    → (i + left) * 16 ≤ length symbols
    → ((k : ℕ) (s : Sym)
        → i ≤ k
        → sym_at big symbols k ≡ some s
        → HasSection big sections num_sections shstrtab (get_symbol_shndx big s))
    → (out : List ℕ) × (update_symbol_addresses big sections num_sections shstrtab left i symbols
        ≡ some out)
      × AreMapped big (IsMoved big sections num_sections shstrtab) left i symbols out
unfolding update_symbol_addresses Round Moves
update_addresses-AreMapped big sections num_sections shstrtab zero i symbols bytes fits there =
    (symbols, refl, none_mapped big (IsMoved big sections num_sections shstrtab) i symbols)
update_addresses-AreMapped big sections num_sections shstrtab (suc left) i symbols bytes fits
      there =
    let inside : i * 16 + 16 ≤ length symbols = omega arith in
    let (t, middle, done, round, spec) =
      update-Moves big sections num_sections shstrtab symbols i bytes inside (
        there i (load_sym big (drop (i * 16) symbols)) (omega arith)
          (sym_at_inside big symbols i inside)) in
    let (out, rest_done, rest) =
      update_addresses-AreMapped big sections num_sections shstrtab left (i + 1) middle round.1
        (omega (arith, round.0))
        (λ k s from here. there k s (omega arith) (sym (round.3 k (λ e. omega arith)) ∙ here)) in
    (
      out,
      (λ k. done k >>= λ symbols'.
            update_symbol_addresses big sections num_sections shstrtab left (i + 1) symbols')
          ∙ rest_done,
      extend big (IsMoved big sections num_sections shstrtab) left i symbols middle out t inside
          round spec rest,
    )
