-- ===== src/Process/Apply.antt =====
-- `apply_relocation`: one entry of a relocation section, applied to the bytes of its section.
pub mod Words
pub mod Stores
pub mod Kept
pub mod Branches
pub mod Entries
use arm_reimplementation.Base.{
  ℕ, ◌+◌, ◌-◌, ◌*◌, ◌/◌, ◌%◌, ◌^◌, Bool, true, false, Option, none, some, List, [], ◌∷◌, ◌++◌, ◌==◌,
  ◌||◌, not, leb, length, codes, if◌then◌else◌, bit_and, bit_or, ℤ, pos, negsuc, ◌-ℤ◌, ltb_ℤ,
  signed32, pattern32, fits_int32, shr_ℤ,
}
use arm_reimplementation.Runtime.Bytes.{ntohl, htonl, htons, load32, store16, store32, poke}
use arm_reimplementation.Runtime.Io.{Message, text}
use arm_reimplementation.Runtime.Printf.{print_unsigned}
use arm_reimplementation.Elf.{Rel, Sym, sym_at}
use arm_reimplementation.Elf.Constants.{r_sym, r_type}
use arm_reimplementation.Symbol.{get_symbol_value}

-- The section's new bytes; or a message, with the bytes as they were; or undefined behaviour.
pub data Applied : Type 0 where
  patched : List ℕ → Applied
  refused : Message → Applied
  broken : Applied

abbrev pub stored : Option (List ℕ) → Applied
stored none = broken
stored (some out) = patched out

-- A difference of two `int32_t`: `none` is a signed overflow.
unfoldable pub int_sub : ℤ → ℤ → Option ℤ
unfolding ◌-ℤ◌
int_sub a b = if fits_int32 (a -ℤ b) then some (a -ℤ b) else none

-- `(int32_t)symbol_value - (int32_t)place - 8`
unfoldable pub displacement_of : ℕ → ℕ → Option ℤ
unfolding int_sub
displacement_of symbol_value place = elim (int_sub (signed32 symbol_value) (signed32 place)) [
  | none ↦ none
  | some d ↦ int_sub d (pos 8)
]

abbrev pub misaligned : Applied
misaligned = refused (text (codes "Error: Target address not aligned\n"))

abbrev pub out_of_range : Applied
out_of_range = refused (text (codes "Error: Branch target out of range\n"))

-- `*location` as it is read: the word at an offset of the section, or undefined behaviour.
unfoldable pub peek32 : Bool → List ℕ → ℕ → Option ℕ
peek32 big target offset =
    if leb (offset + 4) (length target) then some (load32 big target offset) else none

unfoldable pub store_word : Bool → List ℕ → ℕ → ℕ → Applied
store_word big target offset v = stored (poke target offset (store32 big (htonl big v)))

-- The case `R_ARM_JUMP24`, once the instruction is read.
unfoldable pub jump24_word : ℕ → ℤ → ℕ
jump24_word instruction displacement =
    bit_or (bit_and instruction 0xFF000000) (bit_and 0x00FFFFFF (pattern32 (shr_ℤ displacement 2)))

unfoldable pub store_jump24 : Bool → List ℕ → ℕ → ℕ → ℤ → Applied
store_jump24 big target offset instruction displacement =
    if ltb_ℤ displacement (negsuc 33554431) || ltb_ℤ (pos 33554428) displacement
    then out_of_range
    else store_word big target offset (jump24_word instruction displacement)

unfoldable pub apply_jump24 : Bool → List ℕ → ℕ → ℕ → ℕ → ℕ → Applied
apply_jump24 big target offset instruction place symbol_value =
    if not (bit_and symbol_value 3 == 0)
    then misaligned
    else elim (displacement_of symbol_value place) [
      | none ↦ broken
      | some displacement ↦ store_jump24 big target offset instruction displacement
    ]

-- The case `R_ARM_CALL`; the displacement is in words once it is shifted.
unfoldable pub call_word : ℤ → ℕ
call_word words = bit_or 0xEB000000 (bit_and (pattern32 words) 0x00FFFFFF)

unfoldable pub store_call : Bool → List ℕ → ℕ → ℤ → Applied
store_call big target offset displacement =
    if not (bit_and (pattern32 displacement) 3 == 0)
    then misaligned
    else if ltb_ℤ (shr_ℤ displacement 2) (negsuc 0x7FFFFF)
        || ltb_ℤ (pos 0x7FFFFF) (shr_ℤ displacement 2)
    then out_of_range
    else store_word big target offset (call_word (shr_ℤ displacement 2))

unfoldable pub apply_call : Bool → List ℕ → ℕ → ℕ → ℕ → Applied
apply_call big target offset place symbol_value = elim (displacement_of symbol_value place) [
  | none ↦ broken
  | some displacement ↦ store_call big target offset displacement
]

-- The `switch` on the type, with the symbol's value at hand.
unfoldable pub apply_type : Bool → ℕ → ℕ → List ℕ → ℕ → ℕ → Applied
apply_type big type symbol_value target offset addresse =
    let place = (addresse + offset) % 2 ^ 32 in
    if type == 2
    then store_word big target offset symbol_value
    else if type == 5
    then stored (poke target offset (store16 big (htons big (symbol_value % 2 ^ 16))))
    else if type == 8
    then stored (poke target offset ((symbol_value % 2 ^ 8) ∷ []))
    else if type == 29
    then elim (peek32 big target offset) [
      | none ↦ broken
      | some word ↦ apply_jump24 big target offset (ntohl big word) place symbol_value
    ]
    else if type == 28
    then elim (peek32 big target offset) [
      | none ↦ broken
      | some word ↦ apply_call big target offset place symbol_value
    ]
    else refused (
        text
          (codes "Type de relocation non pris en charge : " ++ (print_unsigned type ++ codes "\n")))

-- The symbol is read first, whatever the type; the symbol table may be null.
unfoldable pub apply_relocation : Bool → Rel → Option (List ℕ) → List ℕ → ℕ → Applied
apply_relocation big rel none target_data addresse = broken
apply_relocation big rel (some symbols) target_data addresse =
    let info = ntohl big rel.r_info in
    elim (sym_at big symbols (r_sym info)) [
      | none ↦ broken
      | some symbol ↦
          apply_type big (r_type info) (get_symbol_value big symbol) target_data
            (ntohl big rel.r_offset) addresse
    ]
