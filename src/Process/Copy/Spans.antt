-- ===== src/Process/Copy/Spans.antt =====
-- The sections of the new file in the memory of the simulator.
use arm_reimplementation.Base.{
  ℕ, ◌+◌, ◌*◌, ◌^◌, ◌≤◌, ◌<◌, ◌≡◌, ◌⊎◌, inl, inr, sym, Bool, List, [], ◌∷◌, All, arith, subst,
}
use arm_reimplementation.Runtime.Bytes.Swap.{ntohl-ntohl}
use arm_reimplementation.Elf.{Shdr}
use arm_reimplementation.Section.{get_section_addr, get_section_addralign, get_section_size}
use arm_reimplementation.Process.Setters.{set_section_offset}
use arm_reimplementation.Process.Copy.{align_address, next_address, place_section, address_behind}
use arm_reimplementation.Process.Copy.Addresses.{align_address_lem}

-- What ELF allows: no alignment, or a power of two that 32 bits hold.
unfoldable pub IsAlignment : ℕ → Type 0
IsAlignment a = (a ≡ 0) ⊎ ((k : ℕ) × (j : ℕ) × (j + k ≡ 32) × (a ≡ 2 ^ k))

-- The addresses and sizes of sections that are placed one after another from an address on.
unfoldable pub spans : Bool → List Shdr → ℕ → List (ℕ × ℕ)
spans big [] address = []
spans big (section ∷ sections) address =
    (get_section_addr big (place_section big section address 0), get_section_size big section)
    ∷ spans big sections (address_behind big section address)

-- No section reaches into one behind it.
unfoldable pub IsApart : List (ℕ × ℕ) → Type 0
IsApart [] = Unit {0}
IsApart (span ∷ behind) = All (λ later. span.0 + span.1 ≤ later.0) behind × IsApart behind

-- The room that the sections need at most.
unfoldable pub extent : Bool → List Shdr → ℕ
extent big [] = 0
extent big (section ∷ sections) =
    2 * get_section_addralign big section + get_section_size big section + 1 + extent big sections

aligned :
    (alignment address : ℕ)
    → IsAlignment alignment
    → address + alignment ≤ 2 ^ 32
    → (address ≤ align_address address alignment)
      × (align_address address alignment ≤ address + alignment)
unfolding IsAlignment align_address
aligned alignment address (inl none) room = ground arith
aligned alignment address (inr (k, j, e, power)) room =
    subst (λ n. (address ≤ align_address address n) × (align_address address n ≤ address + n))
      (sym power)
      (let (q, multiple, above, below) = align_address_lem k j address e (omega (arith, power)) in
        (above, omega (arith, below)))

next_above :
    (address alignment size : ℕ)
    → address + alignment + size + 1 < 2 ^ 32
    → (address + size ≤ next_address address alignment size)
      × (next_address address alignment size ≤ address + alignment + size + 1)
unfolding next_address
next_above address alignment size room = ground arith

module _ (big : Bool) where
  -- One section: it stands at the address or above, and what follows stands behind it.
  place_round :
      (section : Shdr) (address : ℕ)
      → IsAlignment (get_section_addralign big section)
      → address + (2 * get_section_addralign big section + get_section_size big section + 1)
        < 2 ^ 32
      → (address ≤ get_section_addr big (place_section big section address 0))
        × (get_section_addr big (place_section big section address 0) + get_section_size big section
            ≤ address_behind big section address)
        × (address_behind big section address
            ≤ address + (2 * get_section_addralign big section + get_section_size big section + 1))
  unfolding get_section_addr place_section address_behind set_section_offset
  place_round section address ok room =
      let alignment : ℕ = get_section_addralign big section in
      let size : ℕ = get_section_size big section in
      let at : ℕ = align_address address alignment in
      let (above, below) = aligned alignment address ok (omega arith) in
      let (behind, up_to) = next_above at alignment size (omega arith) in
      let read = ntohl-ntohl big at in (omega (arith, read), omega (arith, read), omega arith)

  spans_above :
      (sections : List Shdr) (address : ℕ)
      → All (λ s. IsAlignment (get_section_addralign big s)) sections
      → address + extent big sections < 2 ^ 32
      → (bound : ℕ) → bound ≤ address
      → All (λ span. bound ≤ span.0) (spans big sections address)
  unfolding spans extent
  spans_above [] address ok room bound h = tt
  spans_above (section ∷ sections) address ok room bound h =
      let (above, behind, up_to) = place_round section address ok.0 (omega arith) in
      (
        omega arith,
        spans_above sections (address_behind big section address) ok.1 (omega arith) bound
            (omega arith),
      )

-- Sections that are placed one after another, with the alignments that ELF allows and room below
-- 2^32, do not overlap, in whatever order they come and whichever are empty.
pub spans-IsApart :
    (big : Bool) (sections : List Shdr) (address : ℕ)
    → All (λ s. IsAlignment (get_section_addralign big s)) sections
    → address + extent big sections < 2 ^ 32
    → IsApart (spans big sections address)
unfolding spans extent IsApart
spans-IsApart big [] address ok room = tt
spans-IsApart big (section ∷ sections) address ok room =
    let (above, behind, up_to) = place_round big section address ok.0 (omega arith) in
    (
      spans_above big sections (address_behind big section address) ok.1 (omega arith)
          (get_section_addr big (place_section big section address 0)
            + get_section_size big section)
          behind,
      spans-IsApart big sections (address_behind big section address) ok.1 (omega arith),
    )
