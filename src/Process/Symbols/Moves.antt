-- ===== src/Process/Symbols/Moves.antt =====
-- One round of `update_symbol_addresses`, on every branch of its body.
use arm_reimplementation.Base.{
  ℕ, ◌+◌, ◌*◌, ◌≤◌, ◌≡◌, ◌⊎◌, refl, sym, ap, ◌∙◌, Bool, true, false, not, Option, none, some, List,
  ◌&&◌, length, get_elem?, drop, All, if◌then◌else◌, inl, inr, Bool-cases, subst,
}
use arm_reimplementation.Runtime.Bytes.{IsByte}
use arm_reimplementation.Elf.{Sym, Shdr, sym_at, load_sym, c_string, has_flag}
use arm_reimplementation.Elf.Constants.{shf_alloc}
use arm_reimplementation.Elf.Layout.{load_sym-IsSym, sym_at_inside, drop-IsByte}
use arm_reimplementation.Section.{get_section_name, get_section_flags, get_section_addr}
use arm_reimplementation.Symbol.{get_symbol_shndx}
use arm_reimplementation.Process.Setters.{get_sh_name}
use arm_reimplementation.Process.Symbols.{
  ◌>>=◌, is_program_section, set_sym, relocated_symbol, update_symbol,
}
use arm_reimplementation.Process.Symbols.Steps.{Round, kept-Round, set-Round}
use arm_reimplementation.Process.Symbols.Values.{
  is_program_name, is_program_section_lem, is_passed_over, section_move, move_of, HasSection,
  IsMoved, stays-IsMoved, moves-IsMoved, relocated-IsSym,
}

module _ (big : Bool) (sections : List Shdr) (num_sections : ℕ) (shstrtab : List ℕ) where
  -- The loop's body: behind the reading of the symbol, and behind that of its section.
  with_section : List ℕ → ℕ → Sym → Shdr → Option (List ℕ)
  with_section symbols i symbol section =
      if not (has_flag (get_section_flags big section) shf_alloc)
      then some symbols
      else (is_program_section (drop (get_sh_name big section) shstrtab) >>= λ named.
          if named
          then set_sym big symbols i (relocated_symbol big symbol (get_section_addr big section))
          else some symbols)

  with_symbol : List ℕ → ℕ → Sym → Option (List ℕ)
  with_symbol symbols i symbol =
      if is_passed_over num_sections (get_symbol_shndx big symbol)
      then some symbols
      else (get_section_name big (get_symbol_shndx big symbol) (get_elem? sections) (some shstrtab)
          >>= λ name. get_elem? sections (get_symbol_shndx big symbol) >>= λ section.
              if not (has_flag (get_section_flags big section) shf_alloc)
              then some symbols
              else (is_program_section name >>= λ named.
                  if named
                  then set_sym big symbols i
                      (relocated_symbol big symbol (get_section_addr big section))
                  else some symbols))

  update_symbol_lem :
      (symbols : List ℕ) (i : ℕ) (symbol : Sym)
      → sym_at big symbols i ≡ some symbol
      → update_symbol big sections num_sections shstrtab symbols i ≡ with_symbol symbols i symbol
  unfolding update_symbol with_symbol is_passed_over
  update_symbol_lem symbols i symbol e = λ k. e k >>= λ s. with_symbol symbols i s

  -- A symbol of a section that is there.
  found_lem :
      (symbols : List ℕ) (i : ℕ) (symbol : Sym) (section : Shdr)
      → is_passed_over num_sections (get_symbol_shndx big symbol) ≡ false
      → get_elem? sections (get_symbol_shndx big symbol) ≡ some section
      → (with_symbol symbols i symbol ≡ with_section symbols i symbol section)
        × (move_of big sections num_sections shstrtab (get_symbol_shndx big symbol)
            ≡ section_move big shstrtab section)
  unfolding with_symbol with_section get_section_name get_sh_name move_of
  found_lem symbols i symbol section plain here = (
    (λ k.
        if plain k
        then some symbols
        else ((elim (here k) as (λ x. Option (List ℕ)) [
          | none ↦ none
          | some found ↦ some (drop (get_sh_name big found) shstrtab)
        ])
            >>= λ name. here k >>= λ found.
                if not (has_flag (get_section_flags big found) shf_alloc)
                then some symbols
                else (is_program_section name >>= λ named.
                    if named
                    then set_sym big symbols i
                        (relocated_symbol big symbol (get_section_addr big found))
                    else some symbols))),
    (λ k.
        if plain k
        then 0
        else elim (here k) [ none ↦ 0 | some found ↦ section_move big shstrtab found ]),
  )

  over_lem :
      (symbols : List ℕ) (i : ℕ) (symbol : Sym)
      → is_passed_over num_sections (get_symbol_shndx big symbol) ≡ true
      → (with_symbol symbols i symbol ≡ some symbols)
        × (move_of big sections num_sections shstrtab (get_symbol_shndx big symbol) ≡ 0)
  unfolding with_symbol move_of
  over_lem symbols i symbol over = (
    (λ k.
        if over k
        then some symbols
        else (get_section_name big (get_symbol_shndx big symbol) (get_elem? sections)
              (some shstrtab)
            >>= λ name. get_elem? sections (get_symbol_shndx big symbol) >>= λ section.
                if not (has_flag (get_section_flags big section) shf_alloc)
                then some symbols
                else (is_program_section name >>= λ named.
                    if named
                    then set_sym big symbols i
                        (relocated_symbol big symbol (get_section_addr big section))
                    else some symbols))),
    (λ k. if over k then 0 else elim (get_elem? sections (get_symbol_shndx big symbol)) [
      | none ↦ 0
      | some section ↦ section_move big shstrtab section
    ]),
  )

  -- A section that is not in memory.
  unloaded_lem :
      (symbols : List ℕ) (i : ℕ) (symbol : Sym) (section : Shdr)
      → has_flag (get_section_flags big section) shf_alloc ≡ false
      → (with_section symbols i symbol section ≡ some symbols)
        × (section_move big shstrtab section ≡ 0)
  unfolding with_section section_move
  unloaded_lem symbols i symbol section unloaded = (rw unloaded refl, rw unloaded refl)

  -- A section that is in memory, with its name.
  loaded_lem :
      (symbols : List ℕ) (i : ℕ) (symbol : Sym) (section : Shdr) (n : List ℕ) (named : Bool)
      → has_flag (get_section_flags big section) shf_alloc ≡ true
      → c_string (drop (get_sh_name big section) shstrtab) ≡ some n
      → is_program_name (some n) ≡ named
      → (with_section symbols i symbol section ≡ (
          if named
          then set_sym big symbols i (relocated_symbol big symbol (get_section_addr big section))
          else some symbols))
        × (section_move big shstrtab section ≡ (if named then get_section_addr big section else 0))
  unfolding with_section section_move
  loaded_lem symbols i symbol section n named loaded read e = (
    (λ k.
        if not (loaded k)
        then some symbols
        else ((is_program_section_lem (drop (get_sh_name big section) shstrtab) n read ∙ ap some e)
              k
            >>= λ b.
                if b
                then set_sym big symbols i
                    (relocated_symbol big symbol (get_section_addr big section))
                else some symbols)),
    (λ k. if loaded k && (ap is_program_name read ∙ e) k then get_section_addr big section else 0),
  )

  -- What a round makes of a table: a new one, in which a symbol has moved.
  unfoldable pub Moves : List ℕ → ℕ → Sym → Option (List ℕ) → Type 0
  Moves symbols i symbol o =
      (t : Sym) × (out : List ℕ) × (o ≡ some out)
      × Round big symbols i t out
      × IsMoved big sections num_sections shstrtab symbol t

  module _ (symbols : List ℕ) (i : ℕ) (bytes : All IsByte symbols)
      (fits : i * 16 + 16 ≤ length symbols) where
    abbrev pub symbol : Sym
    symbol = load_sym big (drop (i * 16) symbols)

    stays :
        (o : Option (List ℕ))
        → o ≡ some symbols
        → move_of big sections num_sections shstrtab (get_symbol_shndx big symbol) ≡ 0
        → Moves symbols i symbol o
    unfolding Moves
    stays o e still = (
      symbol,
      symbols,
      e,
      kept-Round big symbols i bytes fits,
      stays-IsMoved big sections num_sections shstrtab symbol still,
    )

    moves :
        (o : Option (List ℕ)) (address : ℕ)
        → o ≡ set_sym big symbols i (relocated_symbol big symbol address)
        → move_of big sections num_sections shstrtab (get_symbol_shndx big symbol) ≡ address
        → Moves symbols i symbol o
    unfolding Moves
    moves o address e by =
        let fit = load_sym-IsSym big (drop (i * 16) symbols) (drop-IsByte (i * 16) symbols bytes) in
        let t : Sym = relocated_symbol big symbol address in
        let (out, done, round) =
          set-Round big symbols i bytes fits t
            (relocated-IsSym big sections num_sections shstrtab symbol address fit) in
        (
          t,
          out,
          e ∙ done,
          round,
          moves-IsMoved big sections num_sections shstrtab symbol address by,
        )

    of_section :
        (section : Shdr)
        → is_passed_over num_sections (get_symbol_shndx big symbol) ≡ false
        → get_elem? sections (get_symbol_shndx big symbol) ≡ some section
        → (has_flag (get_section_flags big section) shf_alloc ≡ false)
          ⊎ ((n : List ℕ) × (c_string (drop (get_sh_name big section) shstrtab) ≡ some n))
        → Moves symbols i symbol (with_symbol symbols i symbol)
    of_section section plain here name =
        let found = found_lem symbols i symbol section plain here in
        elim (Bool-cases (has_flag (get_section_flags big section) shf_alloc)) [
          | inr unloaded ↦
              let quiet = unloaded_lem symbols i symbol section unloaded in
              stays _ (found.0 ∙ quiet.0) (found.1 ∙ quiet.1)
          | inl loaded ↦ elim name [
            | inl unloaded ↦ absurd (cc (loaded, unloaded))
            | inr (n, read) ↦ elim (Bool-cases (is_program_name (some n))) [
              | inl named ↦
                  let moved = loaded_lem symbols i symbol section n true loaded read named in
                  moves _ (get_section_addr big section) (found.0 ∙ moved.0) (found.1 ∙ moved.1)
              | inr other ↦
                  let quiet = loaded_lem symbols i symbol section n false loaded read other in
                  stays _ (found.0 ∙ quiet.0) (found.1 ∙ quiet.1)
            ]
          ]
        ]

    pub update-Moves :
        HasSection big sections num_sections shstrtab (get_symbol_shndx big symbol)
        → Moves symbols i symbol (update_symbol big sections num_sections shstrtab symbols i)
    unfolding HasSection
    update-Moves h =
        subst (Moves symbols i symbol)
          (sym (update_symbol_lem symbols i symbol (sym_at_inside big symbols i fits)))
          (elim (Bool-cases (is_passed_over num_sections (get_symbol_shndx big symbol))) [
            | inl over ↦ let quiet = over_lem symbols i symbol over in stays _ quiet.0 quiet.1
            | inr plain ↦ elim h [
              | inl over ↦ absurd (cc (over, plain))
              | inr (section, here, name) ↦ of_section section plain here name
            ]
          ])
