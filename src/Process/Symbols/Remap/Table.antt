-- ===== src/Process/Symbols/Remap/Table.antt =====
-- The section indices of all symbols of a table.
use arm_reimplementation.Base.{
  ℕ, zero, suc, ◌+◌, ◌*◌, ◌^◌, ◌≤◌, ◌<◌, ◌≡◌, refl, ◌∙◌, Bool, Option, some, List, length,
  get_elem?, All, arith,
}
use arm_reimplementation.Runtime.Bytes.{IsByte}
use arm_reimplementation.Process.Symbols.{◌>>=◌, remap_symbols}
use arm_reimplementation.Process.Symbols.Steps.{AreMapped, extend, none_mapped, Round}
use arm_reimplementation.Process.Symbols.Remap.{IsRenumbered}
use arm_reimplementation.Process.Symbols.Remap.Rounds.{remap-Round}

-- The symbols from `i` on, `left` of them, are renumbered; the others are as they were.
unfoldable pub IsRemapped : Bool → ℕ → List (Option ℕ) → ℕ → ℕ → List ℕ → List ℕ → Type 0
IsRemapped big old_shnum mapping left i symbols out =
    AreMapped big (IsRenumbered big old_shnum mapping) left i symbols out

-- In a table of whole symbols, every symbol gets the new index of its section, or none where the
-- section is removed, and a reserved index stays; the rest of the symbols stays too. The mapping has
-- an entry for each of the old sections, as the loop before makes it, with indices of 16 bits.
pub remap_symbols-IsRemapped :
    (big : Bool) (old_shnum : ℕ) (mapping : List (Option ℕ)) (left i : ℕ) (symbols : List ℕ)
    → All IsByte symbols
    → (i + left) * 16 ≤ length symbols
    → length mapping ≡ old_shnum
    → ((j k : ℕ) → get_elem? mapping j ≡ some (some k) → k < 2 ^ 16)
    → (out : List ℕ) × (remap_symbols big old_shnum mapping left i symbols ≡ some out)
      × IsRemapped big old_shnum mapping left i symbols out
unfolding remap_symbols IsRemapped Round
remap_symbols-IsRemapped big old_shnum mapping zero i symbols bytes fits full small =
    (symbols, refl, none_mapped big (IsRenumbered big old_shnum mapping) i symbols)
remap_symbols-IsRemapped big old_shnum mapping (suc left) i symbols bytes fits full small =
    let (t, middle, done, round, spec) =
      remap-Round big old_shnum mapping symbols i bytes (omega arith) full small in
    let (out, rest_done, rest) =
      remap_symbols-IsRemapped big old_shnum mapping left (i + 1) middle round.1
        (omega (arith, round.0)) full small in
    (
      out,
      (λ k. done k >>= λ symbols'. remap_symbols big old_shnum mapping left (i + 1) symbols')
          ∙ rest_done,
      extend big (IsRenumbered big old_shnum mapping) left i symbols middle out t (omega arith)
          round spec rest,
    )
