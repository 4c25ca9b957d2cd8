-- ===== src/Process/Symbols/Remap/Rounds.antt =====
-- One round of the loop over the symbols.
use arm_reimplementation.Base.{
  ℕ, ◌+◌, ◌*◌, ◌^◌, ◌≤◌, ◌<◌, ◌≡◌, inl, inr, refl, sym, ap, ◌∙◌, Bool, true, false, Option, none,
  some, List, ltb, leb, length, get_elem?, drop, All, arith, if◌then◌else◌, Bool-cases,
}
use arm_reimplementation.Runtime.Bytes.{IsByte}
use arm_reimplementation.Runtime.Bytes.Swap.{ntohs-ntohs}
use arm_reimplementation.Elf.{Sym, sym_at, load_sym}
use arm_reimplementation.Elf.Constants.{shn_undef, shn_loreserve}
use arm_reimplementation.Elf.Layout.{load_sym-IsSym, sym_at_inside, drop-IsByte}
use arm_reimplementation.Symbol.{get_symbol_shndx}
use arm_reimplementation.Process.Setters.{setsymstindx}
use arm_reimplementation.Process.Symbols.{◌>>=◌, set_sym, new_shndx, remap_symbol}
use arm_reimplementation.Process.Symbols.Remap.{
  renumbered, IsRenumbered, get_elem?-inside, setsymstindx-IsSym,
}
use arm_reimplementation.Process.Symbols.Steps.{Round, kept-Round, set-Round}

-- The index by what the loop looks up.
by_target : ℕ → Option ℕ → ℕ
by_target index (some new_index) = new_index
by_target index none = if leb shn_loreserve index then index else 0

looked_up : Option (Option ℕ) → Option ℕ
looked_up none = none
looked_up (some target) = target

renumbered_by :
    (b : Bool) (m : Option (Option ℕ)) (index : ℕ) (target : Option ℕ)
    → (if b then m else some none) ≡ some target
    → (elim (if b then m else none) as (λ x. ℕ) [
      | some (some new_index) ↦ new_index
      | some none ↦ if leb shn_loreserve index then index else 0
      | none ↦ if leb shn_loreserve index then index else 0
    ])
      ≡ by_target index target
unfolding by_target looked_up
renumbered_by true none index target e = cc e
renumbered_by true (some none) index target e = ap (λ m. by_target index (looked_up m)) e
renumbered_by true (some (some n)) index target e = ap (λ m. by_target index (looked_up m)) e
renumbered_by false m index target e = ap (λ m. by_target index (looked_up m)) e

module _ (big : Bool) (old_shnum : ℕ) (mapping : List (Option ℕ)) where
  -- The loop's body, once the target is looked up.
  remap_with : List ℕ → ℕ → Sym → Option ℕ → Option (List ℕ)
  remap_with symbols i symbol target = elim target [
    | some index ↦ set_sym big symbols i (setsymstindx big symbol index)
    | none ↦
        if leb shn_loreserve (get_symbol_shndx big symbol)
        then some symbols
        else set_sym big symbols i (setsymstindx big symbol shn_undef)
  ]

  remap_symbol_lem :
      (symbols : List ℕ) (i : ℕ) (symbol : Sym) (target : Option ℕ)
      → sym_at big symbols i ≡ some symbol
      → new_shndx big old_shnum mapping (get_symbol_shndx big symbol) ≡ some target
      → remap_symbol big old_shnum mapping symbols i ≡ remap_with symbols i symbol target
  unfolding remap_symbol remap_with
  remap_symbol_lem symbols i symbol target e f =
      (λ k. e k >>= λ s.
      new_shndx big old_shnum mapping (get_symbol_shndx big s) >>= λ t. remap_with symbols i s t)
      ∙ (λ k. f k >>= λ t. remap_with symbols i symbol t)

  -- The symbol that is written, or stays.
  with_index :
      (symbol : Sym) (index : ℕ)
      → index < 2 ^ 16
      → renumbered old_shnum mapping (get_symbol_shndx big symbol) ≡ index
      → IsRenumbered big old_shnum mapping symbol (setsymstindx big symbol index)
  unfolding IsRenumbered setsymstindx get_symbol_shndx
  with_index symbol index small e =
      (ntohs-ntohs big index ∙ omega (arith, e), refl, refl, refl, refl, refl)

  as_it_was :
      (symbol : Sym)
      → renumbered old_shnum mapping (get_symbol_shndx big symbol) ≡ get_symbol_shndx big symbol
      → IsRenumbered big old_shnum mapping symbol symbol
  unfolding IsRenumbered
  as_it_was symbol e = (sym e, refl, refl, refl, refl, refl)

  target_renumbered :
      (index : ℕ) (target : Option ℕ)
      → new_shndx big old_shnum mapping index ≡ some target
      → renumbered old_shnum mapping index ≡ by_target index target
  unfolding new_shndx renumbered
  target_renumbered index target e =
      renumbered_by (ltb index old_shnum) (get_elem? mapping index) index target e

  -- Where the mapping has an entry for every section, the target is there.
  target_there :
      (index : ℕ)
      → length mapping ≡ old_shnum
      → (target : Option ℕ) × (new_shndx big old_shnum mapping index ≡ some target)
  unfolding new_shndx
  target_there index full = elim (Bool-cases (ltb index old_shnum)) [
    | inl inside ↦
        let (target, e) = get_elem?-inside mapping index (ground arith) in
        (target, (λ k. if inside k then get_elem? mapping index else some none) ∙ e)
    | inr behind ↦ (none, (λ k. if behind k then get_elem? mapping index else some none))
  ]

  target_small :
      (index new_index : ℕ)
      → new_shndx big old_shnum mapping index ≡ some (some new_index)
      → ((j k : ℕ) → get_elem? mapping j ≡ some (some k) → k < 2 ^ 16)
      → new_index < 2 ^ 16
  unfolding new_shndx
  target_small index new_index e small = elim (Bool-cases (ltb index old_shnum)) [
    | inl inside ↦
        small index new_index
          ((λ k. if sym inside k then get_elem? mapping index else some none) ∙ e)
    | inr behind ↦
        absurd (cc ((λ k. if sym behind k then get_elem? mapping index else some none) ∙ e))
  ]

  -- A round with the target at hand.
  Round-with :
      (symbols : List ℕ) (i : ℕ) (target : Option ℕ)
      → All IsByte symbols
      → i * 16 + 16 ≤ length symbols
      → ((j k : ℕ) → get_elem? mapping j ≡ some (some k) → k < 2 ^ 16)
      → new_shndx big old_shnum mapping
          (get_symbol_shndx big (load_sym big (drop (i * 16) symbols)))
        ≡ some target
      → (t : Sym) × (out : List ℕ) × (remap_with symbols i
            (load_sym big (drop (i * 16) symbols))
            target
          ≡ some out)
        × Round big symbols i t out
        × IsRenumbered big old_shnum mapping (load_sym big (drop (i * 16) symbols)) t
  unfolding remap_with by_target
  Round-with symbols i (some index) bytes fits small e =
      let symbol : Sym = load_sym big (drop (i * 16) symbols) in
      let fit = load_sym-IsSym big (drop (i * 16) symbols) (drop-IsByte (i * 16) symbols bytes) in
      let t : Sym = setsymstindx big symbol index in
      let (out, done, round) =
        set-Round big symbols i bytes fits t (setsymstindx-IsSym big symbol index fit) in
      (
        t,
        out,
        done,
        round,
        with_index symbol index (target_small (get_symbol_shndx big symbol) index e small)
            (target_renumbered (get_symbol_shndx big symbol) (some index) e),
      )
  Round-with symbols i none bytes fits small e =
      let symbol : Sym = load_sym big (drop (i * 16) symbols) in
      let index : ℕ = get_symbol_shndx big symbol in
      let fit = load_sym-IsSym big (drop (i * 16) symbols) (drop-IsByte (i * 16) symbols bytes) in
      let t : Sym = setsymstindx big symbol shn_undef in
      let (out, done, round) =
        set-Round big symbols i bytes fits t (setsymstindx-IsSym big symbol shn_undef fit) in
      let spec = target_renumbered index none e in
      elim (Bool-cases (leb shn_loreserve index)) [
        | inl reserved ↦ (
          symbol,
          symbols,
          (λ k. if reserved k then some symbols else set_sym big symbols i t),
          kept-Round big symbols i bytes fits,
          as_it_was symbol (spec ∙ (λ k. if reserved k then index else 0)),
        )
        | inr plain ↦ (
          t,
          out,
          (λ k. if plain k then some symbols else set_sym big symbols i t) ∙ done,
          round,
          with_index symbol shn_undef (omega arith) (spec ∙ (λ k. if plain k then index else 0)),
        )
      ]

  -- A round of the loop: the symbol gets its index, and the others stay.
  pub remap-Round :
      (symbols : List ℕ) (i : ℕ)
      → All IsByte symbols
      → i * 16 + 16 ≤ length symbols
      → length mapping ≡ old_shnum
      → ((j k : ℕ) → get_elem? mapping j ≡ some (some k) → k < 2 ^ 16)
      → (t : Sym) × (out : List ℕ) × (remap_symbol big old_shnum mapping symbols i ≡ some out)
        × Round big symbols i t out
        × IsRenumbered big old_shnum mapping (load_sym big (drop (i * 16) symbols)) t
  remap-Round symbols i bytes fits full small =
      let symbol : Sym = load_sym big (drop (i * 16) symbols) in
      let (target, e) = target_there (get_symbol_shndx big symbol) full in
      let (t, out, done, round, spec) = Round-with symbols i target bytes fits small e in
      (
        t,
        out,
        remap_symbol_lem symbols i symbol target (sym_at_inside big symbols i fits) e ∙ done,
        round,
        spec,
      )
