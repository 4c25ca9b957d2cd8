-- ===== src/Process/Table/Numbering.antt =====
-- The numbers of the sections that are kept.
use arm_reimplementation.Base.{
  ℕ, zero, suc, ◌+◌, ◌≡◌, ap, ◌∙◌, Bool, Option, none, some, List, [], ◌∷◌, length, take, get_elem?,
  arith, if◌then◌else◌,
}
use arm_reimplementation.Runtime.Io.{World, M, Host, ok, ◌>>=◌, pure, bind_ok, deref}
use arm_reimplementation.Elf.{Shdr, shdr_at}
use arm_reimplementation.Process.Table.{is_rel, map_sections}

-- The headers from index `i` on are those of the list.
unfoldable pub HasSections : Bool → List ℕ → ℕ → List Shdr → Type 0
HasSections big shdrs i [] = Unit {0}
HasSections big shdrs i (section ∷ sections) =
    (shdr_at big shdrs i ≡ some section) × HasSections big shdrs (i + 1) sections

-- How many of the sections are no relocation tables.
unfoldable pub kept : Bool → List Shdr → ℕ
kept big [] = 0
kept big (section ∷ sections) =
    if is_rel big section then kept big sections else suc (kept big sections)

-- The numbers from `n` on.
unfoldable pub numbering : Bool → List Shdr → ℕ → List (Option ℕ)
numbering big [] n = []
numbering big (section ∷ sections) n =
    (if is_rel big section then none else some n)
    ∷ numbering big sections (if is_rel big section then n else n + 1)

kept_step :
    (big : Bool) (section : Shdr) (sections : List Shdr) (n : ℕ)
    → (if is_rel big section then n else n + 1) + kept big sections
      ≡ n + kept big (section ∷ sections)
unfolding kept
kept_step big section sections n = ground arith

numbering_at :
    (big : Bool) (sections : List Shdr) (n k : ℕ) (section : Shdr)
    → get_elem? sections k ≡ some section
    → get_elem? (numbering big sections n) k
      ≡ some (if is_rel big section then none else some (n + kept big (take k sections)))
unfolding numbering kept
numbering_at big [] n k section at = cc at
numbering_at big (first ∷ sections) n zero section at =
    let n0 : n ≡ n + 0 = omega arith in
    λ i. some (if is_rel big (same i) then none else some (n0 i))
  where
    out : Option Shdr → Shdr
    out none = first
    out (some s) = s

    same : first ≡ section
    same = ap out at
numbering_at big (first ∷ sections) n (suc k) section at =
    numbering_at big sections (if is_rel big first then n else n + 1) k section at
    ∙ ap (λ m. some (if is_rel big section then none else some m))
        (kept_step big first (take k sections) n)

map_sections_run :
    (host : Host) (shdrs : List ℕ) (sections : List Shdr) (i n : ℕ) (w : World)
    → HasSections host.big_endian shdrs i sections
    → map_sections host shdrs (length sections) i n w
      ≡ ok (numbering host.big_endian sections n, n + kept host.big_endian sections) w
unfolding map_sections HasSections numbering kept
map_sections_run host shdrs [] i n w has = λ j. ok ([], n0 j) w
  where
    n0 : n ≡ n + 0
    n0 = omega arith
map_sections_run host shdrs (section ∷ sections) i n w has =
    (λ j. (deref (has.0 j) >>= round) w)
    ∙ bind_ok (map_sections host shdrs (length sections) (i + 1) next)
        (λ r. pure (number ∷ r.0, r.1)) (map_sections_run host shdrs sections (i + 1) next w has.1)
    ∙ (λ j. ok (number ∷ numbering big sections next, kept_step big section sections n j) w)
  where
    big : Bool
    big = host.big_endian

    next : ℕ
    next = if is_rel big section then n else n + 1

    number : Option ℕ
    number = if is_rel big section then none else some n

    round : Shdr → M (List (Option ℕ) × ℕ)
    round s =
        map_sections host shdrs (length sections) (i + 1) (if is_rel big s then n else n + 1)
        >>= λ r. pure ((if is_rel big s then none else some n) ∷ r.0, r.1)

-- On the headers of a file, the loop gives the number of sections that are kept, and for each
-- section its new index: how many kept sections come before it, or `none` for a relocation table.
pub map_sections_numbers :
    (host : Host) (shdrs : List ℕ) (sections : List Shdr) (w : World)
    → HasSections host.big_endian shdrs 0 sections
    → (mapping : List (Option ℕ)) × (map_sections host shdrs (length sections) 0 0 w
        ≡ ok (mapping, kept host.big_endian sections) w)
      × ((k : ℕ) (section : Shdr)
          → get_elem? sections k ≡ some section
          → get_elem? mapping k
            ≡ some (
                if is_rel host.big_endian section
                then none
                else some (kept host.big_endian (take k sections))))
map_sections_numbers host shdrs sections w has = (
  numbering host.big_endian sections 0,
  map_sections_run host shdrs sections 0 0 w has ∙ (λ j.
      ok (numbering host.big_endian sections 0, from_zero (kept host.big_endian sections) j) w),
  (λ k section at.
      numbering_at host.big_endian sections 0 k section at
      ∙ ap (λ m. some (if is_rel host.big_endian section then none else some m)) (from_zero _)),
)
  where
    from_zero : (m : ℕ) → 0 + m ≡ m
    from_zero m = omega arith
