-- ===== src/Process/Copy/Names.antt =====
-- The names of the sections in the new table of names.
use arm_reimplementation.Base.{
  ℕ, ◌+◌, ◌≤◌, ◌≡◌, ◌≢◌, sym, ap, ◌∙◌, Bool, true, false, Option, none, some, List, [], ◌∷◌, ◌++◌,
  ◌==◌, append_assoc, length, drop, length-append, drop-append_self, leb, le→leb, Bool-cases,
  Option-cases, inl, inr, if◌then◌else◌, arith,
}
use arm_reimplementation.Runtime.Bytes.{IsU32}
use arm_reimplementation.Elf.{Shdr, c_string}
use arm_reimplementation.Process.Setters.{get_sh_name, set_section_sh_name}
use arm_reimplementation.Process.Setters.Reads.{section_fields_read}
use arm_reimplementation.Process.Table.{name_bytes}
use arm_reimplementation.Process.Copy.{rename_section}

-- A string that was read ends at the null byte that is put behind it.
c_string-append :
    (bytes name rest : List ℕ)
    → c_string bytes ≡ some name
    → c_string (name ++ (0 ∷ rest)) ≡ some name
unfolding c_string
c_string-append [] name rest e = cc e
c_string-append (b ∷ bytes) name rest e = elim (Bool-cases (b == 0)) [
  | inl ends ↦
      let empty : [] ≡ name =
        ap the_text ((λ i. if sym ends i then some [] else behind (c_string bytes)) ∙ e) in
      ap (λ (n : List ℕ). c_string (n ++ (0 ∷ rest))) (sym empty) ∙ ap some empty
  | inr goes_on ↦
      let found : behind (c_string bytes) ≡ some name =
        (λ i. if sym goes_on i then some [] else behind (c_string bytes)) ∙ e in
      elim (Option-cases (c_string bytes)) [
        | inl endless ↦ cc ((λ i. behind (sym endless i)) ∙ found)
        | inr (text, read) ↦
            let whole : b ∷ text ≡ name = ap the_text ((λ i. behind (sym read i)) ∙ found) in
            ap (λ (n : List ℕ). c_string (n ++ (0 ∷ rest))) (sym whole)
            ∙ (λ i. if goes_on i then some [] else behind (c_string-append bytes text rest read i))
            ∙ ap some whole
      ]
]
  where
    the_text : Option (List ℕ) → List ℕ
    the_text none = []
    the_text (some n) = n

    behind : Option (List ℕ) → Option (List ℕ)
    behind o = elim o [ none ↦ none | some n ↦ some (b ∷ n) ]

-- A section that has a name keeps it: the new table has the name at the offset that the new header
-- gives, also once more names are put behind it. The names fit what was allocated.
pub rename_section-c_string :
    (big : Bool) (shstrtab : List ℕ) (capacity : ℕ) (section : Shdr) (names name later : List ℕ)
    → get_sh_name big section ≢ 0
    → c_string (drop (get_sh_name big section) shstrtab) ≡ some name
    → length names + length name + 1 ≤ capacity
    → IsU32 capacity
    → (renamed : Shdr) × (names' : List ℕ) × (rename_section big
          (some shstrtab)
          capacity
          section
          names
        ≡ some (renamed, names'))
      × (c_string (drop (get_sh_name big renamed) (names' ++ later)) ≡ some name)
unfolding rename_section name_bytes
rename_section-c_string big shstrtab capacity section names name later named found fits small = (
  set_section_sh_name big section (length names),
  names ++ (name ++ (0 ∷ [])),
  (λ i. if unnamed i then some (section, names) else elim (with_null (found i)) [
    | none ↦ none
    | some n ↦
        if leb (length names + length n) capacity
        then some (set_section_sh_name big section (length names), names ++ n)
        else none
  ])
      ∙ (λ i.
          if room i
          then some (set_section_sh_name big section (length names), names ++ (name ++ (0 ∷ [])))
          else none),
  ap c_string (
        ap (λ k. drop k ((names ++ (name ++ (0 ∷ []))) ++ later)) offset
        ∙ ap (drop (length names)) (append_assoc names (name ++ (0 ∷ [])) later)
        ∙ drop-append_self names ((name ++ (0 ∷ [])) ++ later)
        ∙ append_assoc name (0 ∷ []) later)
      ∙ c_string-append (drop (get_sh_name big section) shstrtab) name later found,
)
  where
    with_null : Option (List ℕ) → Option (List ℕ)
    with_null o = elim o [ none ↦ none | some n ↦ some (n ++ (0 ∷ [])) ]

    unnamed : (get_sh_name big section == 0) ≡ false
    unnamed = ground arith

    room : leb (length names + length (name ++ (0 ∷ []))) capacity ≡ true
    room = le→leb _ _ (omega (arith, length-append name (0 ∷ [])))

    offset : get_sh_name big (set_section_sh_name big section (length names)) ≡ length names
    offset = (section_fields_read big section (length names) (omega arith)).0
