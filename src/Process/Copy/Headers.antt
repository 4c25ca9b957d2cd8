-- ===== src/Process/Copy/Headers.antt =====
-- What the new header of a section has of the place that the section is given.
use arm_reimplementation.Base.{
  if_both, ℕ, ◌+◌, ◌≡◌, refl, ◌∙◌, Bool, Option, none, some, List, ◌++◌, ◌==◌, ltb, leb, length,
  get_elem?, if◌then◌else◌, subst,
}
use arm_reimplementation.Runtime.Io.{Host}
use arm_reimplementation.Elf.{Shdr}
use arm_reimplementation.Section.{get_section_link}
use arm_reimplementation.Process.Setters.{get_sh_name, set_section_link, set_section_sh_name}
use arm_reimplementation.Process.Table.{name_bytes}
use arm_reimplementation.Process.Copy.{
  Plan, Copy, place_section, rename_section, relink_section, new_header,
}

-- The header has the offset, the address and the size of another.
unfoldable pub IsPlacedAs : Shdr → Shdr → Type 0
IsPlacedAs placed s =
    (s.sh_offset ≡ placed.sh_offset) × (s.sh_addr ≡ placed.sh_addr) × (s.sh_size ≡ placed.sh_size)

AllPlaced : Shdr → Option (Shdr × List ℕ) → Type 0
AllPlaced placed none = Unit {0}
AllPlaced placed (some (s, names)) = IsPlacedAs placed s

rename_section-AllPlaced :
    (big : Bool) (shstrtab : Option (List ℕ)) (capacity : ℕ) (section : Shdr) (names : List ℕ)
    → AllPlaced section (rename_section big shstrtab capacity section names)
unfolding rename_section AllPlaced IsPlacedAs set_section_sh_name
rename_section-AllPlaced big shstrtab capacity section names =
    if_both (AllPlaced section) (get_sh_name big section == 0) (some (section, names))
      (with_name (name_bytes big shstrtab section)) (refl, refl, refl)
      (with_name-AllPlaced (name_bytes big shstrtab section))
  where
    with_name : Option (List ℕ) → Option (Shdr × List ℕ)
    with_name m = elim m [
      | none ↦ none
      | some name ↦
          if leb (length names + length name) capacity
          then some (set_section_sh_name big section (length names), names ++ name)
          else none
    ]

    with_name-AllPlaced : (m : Option (List ℕ)) → AllPlaced section (with_name m)
    with_name-AllPlaced none = tt
    with_name-AllPlaced (some name) =
        if_both (AllPlaced section) (leb (length names + length name) capacity)
          (some (set_section_sh_name big section (length names), names ++ name)) none
          (refl, refl, refl) tt

-- A header and what `relink_section` makes of it.
AllLinked : Shdr → Option Shdr → Type 0
AllLinked renamed none = Unit {0}
AllLinked renamed (some s) = IsPlacedAs renamed s

relink_section-AllLinked :
    (big : Bool) (old_shnum : ℕ) (mapping : List (Option ℕ)) (section : Shdr)
    → AllLinked section (relink_section big old_shnum mapping section)
unfolding relink_section AllLinked IsPlacedAs set_section_link
relink_section-AllLinked big old_shnum mapping section =
    if_both (AllLinked section) (ltb (get_section_link big section) old_shnum)
      (with_index (get_elem? mapping (get_section_link big section))) (some section)
      (with_index-AllLinked (get_elem? mapping (get_section_link big section))) (refl, refl, refl)
  where
    with_index : Option (Option ℕ) → Option Shdr
    with_index m = elim m [
      | none ↦ none
      | some none ↦ some (set_section_link big section 0)
      | some (some new_link) ↦ some (set_section_link big section new_link)
    ]

    with_index-AllLinked : (m : Option (Option ℕ)) → AllLinked section (with_index m)
    with_index-AllLinked none = tt
    with_index-AllLinked (some none) = (refl, refl, refl)
    with_index-AllLinked (some (some new_link)) = (refl, refl, refl)

-- What is made of a renamed header.
then_relinked :
    (placed : Shdr) (big : Bool) (old_shnum : ℕ) (mapping : List (Option ℕ))
    (m : Option (Shdr × List ℕ))
    → AllPlaced placed m
    → AllPlaced placed (elim m as (λ x. Option (Shdr × List ℕ)) [
      | none ↦ none
      | some (renamed, names) ↦ elim (relink_section big old_shnum mapping renamed) [
        | none ↦ none
        | some linked ↦ some (linked, names)
      ]
    ])
unfolding AllPlaced IsPlacedAs AllLinked
then_relinked placed big old_shnum mapping none h = tt
then_relinked placed big old_shnum mapping (some (renamed, names)) h =
    on_link (relink_section big old_shnum mapping renamed)
      (relink_section-AllLinked big old_shnum mapping renamed) h
  where
    on_link :
        (m : Option Shdr)
        → AllLinked renamed m
        → IsPlacedAs placed renamed
        → AllPlaced placed (elim m as (λ x. Option (Shdr × List ℕ)) [
          | none ↦ none
          | some linked ↦ some (linked, names)
        ])
    on_link none k p = tt
    on_link (some s) k p = (k.0 ∙ p.0, k.1 ∙ p.1, k.2 ∙ p.2)

-- The new header has the place that the section is given, whatever its name and its link become.
pub new_header-IsPlacedAs :
    (host : Host) (plan : Plan) (section new_shdr : Shdr) (state : Copy) (names : List ℕ)
    → new_header host plan section state ≡ some (new_shdr, names)
    → IsPlacedAs
        (place_section host.big_endian section state.current_address state.current_offset)
        new_shdr
unfolding new_header AllPlaced
new_header-IsPlacedAs host plan section new_shdr state names e = subst (AllPlaced placed) e (
    then_relinked placed host.big_endian plan.old_shnum plan.mapping
      (rename_section host.big_endian plan.shstrtab plan.capacity placed state.new_shstrtab)
      (rename_section-AllPlaced host.big_endian plan.shstrtab plan.capacity placed
        state.new_shstrtab))
  where
    placed : Shdr
    placed = place_section host.big_endian section state.current_address state.current_offset
