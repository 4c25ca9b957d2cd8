-- ===== src/Process/Copy.antt =====
-- `process_and_remove_relocation_sections`, up to the copy of the sections that are kept.
pub mod Addresses
pub mod Contents
pub mod Headers
pub mod Layout
pub mod Names
pub mod Spans
use arm_reimplementation.Base.{
  ℕ, zero, suc, ◌+◌, ◌-◌, ◌*◌, ◌/◌, ◌%◌, ◌^◌, Bool, true, false, Option, none, some, List, [], ◌∷◌,
  ◌++◌, ◌==◌, ◌&&◌, ◌||◌, ltb, leb, not, length, get_elem?, set, take, drop, if◌then◌else◌, bit_and,
}
use arm_reimplementation.Runtime.Bytes.{ntohl, htonl}
use arm_reimplementation.Runtime.Io.{
  Run, M, Host, perror, ◌>>=◌, ◌>>◌, pure, skip, deref, undefined, complain, malloc, fread, fwrite,
  fseek, items,
}
use arm_reimplementation.Elf.{Ehdr, Shdr, shdr_at, c_string}
use arm_reimplementation.Elf.Constants.{sht_symtab, sht_dynsym, sht_strtab}
use arm_reimplementation.Header.{get_header_shstrndx}
use arm_reimplementation.Section.{
  get_section_type, get_section_offset, get_section_size, get_section_addralign, get_section_link,
  die,
}
use arm_reimplementation.Symbol.Print.{is_symbol_table}
use arm_reimplementation.Process.Setters.{
  Symbol, setsize, get_sh_name, set_section_offset, set_section_size, set_section_sh_name,
  set_section_link,
}
use arm_reimplementation.Process.Table.{name_bytes}
use arm_reimplementation.Process.Symbols.{update_symbol_addresses}

-- The variables of the function that the loop reads. `capacity` is what was allocated for the new
-- names.
pub record Plan : Type 0 where
  pub header : Ehdr
  pub shdrs : List ℕ
  pub shstrtab : Option (List ℕ)
  pub old_shnum : ℕ
  pub mapping : List (Option ℕ)
  pub new_shnum : ℕ
  pub capacity : ℕ
  pub final_size : ℕ

-- What the loop over the sections changes: the new headers so far, the offset and the address that
-- come next, the new table of names, and the symbols.
pub record Copy : Type 0 where
  pub new_shdrs : List Shdr
  pub current_offset : ℕ
  pub current_address : ℕ
  pub new_shstrtab : List ℕ
  pub sym : Symbol

-- `(address + alignment - 1) & ~(alignment - 1)` on `uint32_t`, for an alignment that is not 0.
unfoldable pub align_address : ℕ → ℕ → ℕ
align_address address alignment =
    if ltb 0 alignment
    then bit_and ((address + alignment - 1) % 2 ^ 32) (2 ^ 32 - alignment)
    else address

-- The address behind a section: an empty one takes its alignment, or 1.
unfoldable pub next_address : ℕ → ℕ → ℕ → ℕ
next_address address alignment size =
    if size == 0
    then (address + (if ltb 0 alignment then alignment else 1)) % 2 ^ 32
    else (address + size) % 2 ^ 32

module _ (big : Bool) where
  -- The address and the offset of a section that is kept.
  unfoldable pub place_section : Shdr → ℕ → ℕ → Shdr
  unfolding align_address
  place_section section address offset =
      set_section_offset big
        (record section {
          sh_addr = htonl big (align_address address (get_section_addralign big section));
        })
        offset

  unfoldable pub address_behind : Shdr → ℕ → ℕ
  unfolding align_address next_address
  address_behind section address =
      next_address (align_address address (get_section_addralign big section))
        (get_section_addralign big section) (get_section_size big section)

  -- The name goes behind the names so far, which must fit what was allocated.
  unfoldable pub rename_section : Option (List ℕ) → ℕ → Shdr → List ℕ → Option (Shdr × List ℕ)
  unfolding name_bytes
  rename_section shstrtab capacity section names =
      if get_sh_name big section == 0
      then some (section, names)
      else elim (name_bytes big shstrtab section) [
        | none ↦ none
        | some name ↦
            if leb (length names + length name) capacity
            then some (set_section_sh_name big section (length names), names ++ name)
            else none
      ]

  -- The link, through the mapping: 0 where its section is removed.
  unfoldable pub relink_section : ℕ → List (Option ℕ) → Shdr → Option Shdr
  relink_section old_shnum mapping section =
      if ltb (get_section_link big section) old_shnum
      then elim (get_elem? mapping (get_section_link big section)) [
        | none ↦ none
        | some none ↦ some (set_section_link big section 0)
        | some (some new_link) ↦ some (set_section_link big section new_link)
      ]
      else some section

-- The end of the loop's body: the new header and state, or `none` for `goto cleanup`.
abbrev Next : Type 0
Next = Option (Shdr × Copy)

module _ (host : Host) where
  -- `fwrite` of all the bytes; a short count is `goto cleanup`.
  unfoldable pub write_or_stop : List ℕ → Next → M Next
  unfolding fwrite
  write_or_stop bytes next = do
    sent ← fwrite host bytes
    if sent == length bytes then pure next else pure none

  abbrev advance : Copy → ℕ → Copy
  advance state size = record state { current_offset = (state.current_offset + size) % 2 ^ 32 }

  -- A symbol table is written from memory, with the addresses that the new headers give so far.
  unfoldable pub copy_symbols : ℕ → Shdr → Copy → ℕ → M Next
  unfolding update_symbol_addresses write_or_stop
  copy_symbols new_shnum new_shdr state size = do
    before ← deref state.sym.symbols
    symbols ← deref (
        update_symbol_addresses host.big_endian (state.new_shdrs ++ (new_shdr ∷ [])) new_shnum
          state.new_shstrtab state.sym.size 0 before)
    if ltb (length symbols) size
        then undefined
        else (let sym' = record (state.sym) { symbols = some symbols } in
            write_or_stop (take size symbols)
              (some (new_shdr, advance (record state { sym = sym' }) size)))

  -- The names are written as far as they are there; the header and the offset take the full size.
  unfoldable pub copy_names : ℕ → Shdr → Copy → M Next
  unfolding write_or_stop
  copy_names final_size new_shdr state =
      write_or_stop state.new_shstrtab
        (some (set_section_size host.big_endian new_shdr final_size, advance state final_size))

  unfoldable pub copy_plain : Shdr → Copy → ℕ → M Next
  unfolding fread write_or_stop
  copy_plain new_shdr state size = do
    section_data ← fread size
    if length section_data == size
        then write_or_stop section_data (some (new_shdr, advance state size))
        else pure none

  -- The contents of the section that was at index `i`.
  unfoldable pub copy_contents : Plan → ℕ → Shdr → Shdr → Copy → M Next
  unfolding malloc complain fseek is_symbol_table copy_symbols copy_names copy_plain
  copy_contents plan i section new_shdr state = do
    let big = host.big_endian
    let size = get_section_size big section
    if size == 0 then pure (some (new_shdr, state)) else do
      allocated ← malloc host size
      if not allocated
          then (complain (perror "Erreur d'allocation mémoire pour les données de section")
              >> pure none)
          else do
            sought ← fseek host (get_section_offset big section)
            if is_symbol_table big section
                then copy_symbols plan.new_shnum new_shdr state size
                else if get_section_type big section == sht_strtab
                    && i == get_header_shstrndx big plan.header
                then copy_names plan.final_size new_shdr state
                else copy_plain new_shdr state size

  -- The new header of a section, before its contents are copied, and the names with its own.
  unfoldable pub new_header : Plan → Shdr → Copy → Option (Shdr × List ℕ)
  unfolding place_section rename_section relink_section
  new_header plan section state =
      let big = host.big_endian in
      elim (rename_section big plan.shstrtab plan.capacity
        (place_section big section state.current_address state.current_offset) state.new_shstrtab) [
          | none ↦ none
          | some (renamed, names) ↦ elim (relink_section big plan.old_shnum plan.mapping renamed) [
            | none ↦ none
            | some relinked ↦ some (relinked, names)
          ]
        ]

  -- The state with the header that a round fills in.
  unfoldable pub fill : Next → Option Copy
  fill none = none
  fill (some (filled, state)) = some (record state { new_shdrs = state.new_shdrs ++ (filled ∷ []) })

  -- The loop's body for a section that is kept.
  unfoldable pub copy_section : Plan → ℕ → Shdr → Copy → M (Option Copy)
  unfolding new_header address_behind copy_contents fill
  copy_section plan i section state = do
    (new_shdr, names) ← deref (new_header plan section state)
    next ← copy_contents plan i section new_shdr (record state {
      current_address = address_behind host.big_endian section state.current_address;
      new_shstrtab = names;
    })
    pure (fill next)

  -- One round of the loop; `none` is `goto cleanup`.
  unfoldable pub copy_round : Plan → ℕ → Copy → M (Option Copy)
  unfolding copy_section
  copy_round plan i state = do
    kept ← deref (get_elem? plan.mapping i)
    elim kept [
      | none ↦ pure (some state)
      | some _ ↦ do
        section ← deref (shdr_at host.big_endian plan.shdrs i)
        copy_section plan i section state
    ]

  -- The loop over the old sections: `left` rounds from `i` on.
  unfoldable pub copy_sections : Plan → ℕ → ℕ → Copy → M (Option Copy)
  unfolding copy_round
  copy_sections plan zero i state = pure (some state)
  copy_sections plan (suc left) i state = do
    next ← copy_round plan i state
    elim next [ none ↦ pure none | some state' ↦ copy_sections plan left (i + 1) state' ]
