-- ===== src/Process/Symbols/Values.antt =====
-- What `update_symbol_addresses` makes of one symbol.
use arm_reimplementation.Base.{
  ℕ, ◌+◌, ◌%◌, ◌^◌, ◌≡◌, ◌⊎◌, refl, sym, ap, ◌∙◌, Bool, true, false, Option, none, some, List, ◌==◌,
  ◌&&◌, ◌||◌, leb, get_elem?, drop, codes, arith, if◌then◌else◌, subst,
}
use arm_reimplementation.Runtime.Bytes.Swap.{ntohl-ntohl, ntohl-lt}
use arm_reimplementation.Elf.{Sym, Shdr, c_string, has_flag}
use arm_reimplementation.Elf.Constants.{shn_undef, shn_abs, shf_alloc}
use arm_reimplementation.Elf.Strings.{same_text, strcmp_eq_lem}
use arm_reimplementation.Elf.Layout.{IsSym}
use arm_reimplementation.Section.{get_section_flags, get_section_addr}
use arm_reimplementation.Symbol.{get_symbol_value, get_symbol_shndx}
use arm_reimplementation.Process.Setters.{setsymvalue, get_sh_name}
use arm_reimplementation.Process.Symbols.{◌>>=◌, is_program_section, relocated_symbol}

-- A name is that of one of the three sections that move their symbols.
unfoldable pub is_program_name : Option (List ℕ) → Bool
is_program_name none = false
is_program_name (some n) =
    same_text n (codes ".text") || (same_text n (codes ".data") || same_text n (codes ".bss"))

pub is_program_section_lem :
    (memory n : List ℕ)
    → c_string memory ≡ some n
    → is_program_section memory ≡ some (is_program_name (some n))
unfolding is_program_section is_program_name
is_program_section_lem memory n e =
    (λ k. strcmp_eq_lem memory (codes ".text") n e (omega arith) k >>= λ text.
    if text
    then some true
    else (strcmp_eq_lem memory (codes ".data") n e (omega arith) k >>= λ data_name.
        if data_name then some true else strcmp_eq_lem memory (codes ".bss") n e (omega arith) k))
    ∙ by_tests (same_text n (codes ".text")) (same_text n (codes ".data"))
        (same_text n (codes ".bss"))
  where
    by_tests :
        (a b c : Bool)
        → (if a then some true else (if b then some true else some c)) ≡ some (a || (b || c))
    by_tests true b c = refl
    by_tests false true c = refl
    by_tests false false c = refl

-- The code passes over a symbol with one of these section indices.
unfoldable pub is_passed_over : ℕ → ℕ → Bool
is_passed_over num_sections index =
    index == shn_undef || (index == shn_abs || leb num_sections index)

module _ (big : Bool) (shstrtab : List ℕ) where
  -- By how much the symbols of a section move: by its address, where it is in memory and is named
  -- `.text`, `.data` or `.bss`, and not at all elsewhere.
  unfoldable pub section_move : Shdr → ℕ
  section_move section =
      if has_flag (get_section_flags big section) shf_alloc
        && is_program_name (c_string (drop (get_sh_name big section) shstrtab))
      then get_section_addr big section
      else 0

module _ (big : Bool) (sections : List Shdr) (num_sections : ℕ) (shstrtab : List ℕ) where
  unfoldable pub move_of : ℕ → ℕ
  move_of index = if is_passed_over num_sections index then 0 else elim (get_elem? sections index) [
    | none ↦ 0
    | some section ↦ section_move big shstrtab section
  ]

  -- The index is passed over, or its section is there, with a name where it is in memory.
  unfoldable pub HasSection : ℕ → Type 0
  HasSection index =
      (is_passed_over num_sections index ≡ true)
      ⊎ ((section : Shdr) × (get_elem? sections index ≡ some section)
          × ((has_flag (get_section_flags big section) shf_alloc ≡ false)
              ⊎ ((n : List ℕ) × (c_string (drop (get_sh_name big section) shstrtab) ≡ some n))))

  -- A symbol whose value has moved with the section that it lies in, modulo 2^32, and nothing else
  -- changed.
  unfoldable pub IsMoved : Sym → Sym → Type 0
  IsMoved s t =
      (get_symbol_value big t
        ≡ (get_symbol_value big s + move_of (get_symbol_shndx big s)) % 2 ^ 32)
      × (t.st_shndx ≡ s.st_shndx)
      × (t.st_name ≡ s.st_name)
      × (t.st_size ≡ s.st_size)
      × (t.st_info ≡ s.st_info)
      × (t.st_other ≡ s.st_other)

  pub stays-IsMoved : (s : Sym) → move_of (get_symbol_shndx big s) ≡ 0 → IsMoved s s
  unfolding IsMoved get_symbol_value
  stays-IsMoved s e = (omega (arith, e, ntohl-lt big s.st_value), refl, refl, refl, refl, refl)

  -- The value that the code gives, also where the symbol had none.
  new_value : Sym → ℕ → ℕ
  new_value s address =
      if get_symbol_value big s == 0 then address else (get_symbol_value big s + address) % 2 ^ 32

  relocated_symbol_lem :
      (s : Sym) (address : ℕ)
      → relocated_symbol big s address ≡ setsymvalue big s (new_value s address)
  unfolding relocated_symbol new_value
  relocated_symbol_lem s address = by_value (get_symbol_value big s == 0)
    where
      by_value :
          (b : Bool)
          → (if b
              then setsymvalue big s address
              else setsymvalue big s ((get_symbol_value big s + address) % 2 ^ 32))
            ≡ setsymvalue big s (if b then address else (get_symbol_value big s + address) % 2 ^ 32)
      by_value true = refl
      by_value false = refl

  value_moves :
      (s : Sym) (address : ℕ)
      → get_symbol_value big (setsymvalue big s (new_value s address))
        ≡ (get_symbol_value big s + address) % 2 ^ 32
  unfolding get_symbol_value setsymvalue new_value
  value_moves s address = ntohl-ntohl big (new_value s address) ∙ ground arith

  set_keeps :
      (s : Sym) (v : ℕ)
      → get_symbol_value big (setsymvalue big s v)
        ≡ (get_symbol_value big s + move_of (get_symbol_shndx big s)) % 2 ^ 32
      → IsMoved s (setsymvalue big s v)
  unfolding IsMoved setsymvalue
  set_keeps s v e = (e, refl, refl, refl, refl, refl)

  pub moves-IsMoved :
      (s : Sym) (address : ℕ)
      → move_of (get_symbol_shndx big s) ≡ address
      → IsMoved s (relocated_symbol big s address)
  moves-IsMoved s address e = subst (IsMoved s) (sym (relocated_symbol_lem s address)) (
      set_keeps s (new_value s address)
        (value_moves s address ∙ ap (λ a. (get_symbol_value big s + a) % 2 ^ 32) (sym e)))

  set-IsSym : (s : Sym) (v : ℕ) → IsSym s → IsSym (setsymvalue big s v)
  unfolding setsymvalue
  set-IsSym s v h = record {
    name_fits = h.name_fits;
    value_fits = ntohl-lt big v;
    size_fits = h.size_fits;
    info_fits = h.info_fits;
    other_fits = h.other_fits;
    shndx_fits = h.shndx_fits;
  }

  pub relocated-IsSym : (s : Sym) (address : ℕ) → IsSym s → IsSym (relocated_symbol big s address)
  relocated-IsSym s address h =
      subst IsSym (sym (relocated_symbol_lem s address)) (set-IsSym s (new_value s address) h)
