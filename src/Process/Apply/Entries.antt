-- ===== src/Process/Apply/Entries.antt =====
-- `apply_relocation` on an entry of one of the two branch types: from the entry to the outcome.
use arm_reimplementation.Base.{
  ℕ, ◌+◌, ◌%◌, ◌^◌, ◌≤◌, ◌≡◌, subst, ◌∙◌, Bool, true, not, none, some, List, ◌==◌, length,
  if◌then◌else◌, arith,
}
use arm_reimplementation.Runtime.Bytes.{IsU32, ntohl, load32, store32, write_at}
use arm_reimplementation.Runtime.Bytes.Swap.{length-store32}
use arm_reimplementation.Elf.{Rel, Sym, sym_at}
use arm_reimplementation.Elf.Constants.{r_sym, r_type}
use arm_reimplementation.Symbol.{get_symbol_value}
use arm_reimplementation.Process.Apply.{
  Applied, patched, broken, misaligned, out_of_range, apply_relocation, apply_type, apply_call,
  apply_jump24, peek32,
}
use arm_reimplementation.Process.Apply.Stores.{word_at, IsPatch, write_at-IsPatch, word_at-write_at}
use arm_reimplementation.Process.Apply.Branches.{
  IsLow, in_reach, jump_in_reach, call_instruction, jump_instruction, apply_call_lem,
  apply_jump24_lem,
}

-- The parts of an entry, and the address of the word that it is about.
abbrev pub info_of : Bool → Rel → ℕ
info_of big rel = ntohl big rel.r_info

abbrev pub offset_of : Bool → Rel → ℕ
offset_of big rel = ntohl big rel.r_offset

abbrev pub place_of : Bool → Rel → ℕ → ℕ
place_of big rel addresse = (addresse + offset_of big rel) % 2 ^ 32

-- The entry is one of a type, about a symbol that the table has and a word that the section has.
pub record IsEntry (big : Bool) (rel : Rel) (symbols target : List ℕ) (type : ℕ) (symbol : Sym)
    : Type 0 where
  pub has_type : r_type (info_of big rel) ≡ type
  pub has_symbol : sym_at big symbols (r_sym (info_of big rel)) ≡ some symbol
  pub has_word : offset_of big rel + 4 ≤ length target

pub dispatch :
    (big : Bool) (rel : Rel) (symbols target : List ℕ) (addresse type : ℕ) (symbol : Sym)
    → r_type (info_of big rel) ≡ type
    → sym_at big symbols (r_sym (info_of big rel)) ≡ some symbol
    → apply_relocation big rel (some symbols) target addresse
      ≡ apply_type big type (get_symbol_value big symbol) target (offset_of big rel) addresse
unfolding apply_relocation
dispatch big rel symbols target addresse type symbol has_type has_symbol =
    (λ i. elim (has_symbol i) [
      | none ↦ broken
      | some s ↦
          apply_type big (r_type (info_of big rel)) (get_symbol_value big s) target
            (offset_of big rel) addresse
    ])
    ∙ (λ i.
        apply_type big (has_type i) (get_symbol_value big symbol) target (offset_of big rel)
          addresse)

pub peek32_inside :
    (big : Bool) (target : List ℕ) (offset : ℕ)
    → offset + 4 ≤ length target
    → peek32 big target offset ≡ some (load32 big target offset)
unfolding peek32
peek32_inside big target offset h = ground arith

-- The outcome of a call or a jump, from whether its target is aligned and in reach.
abbrev pub branch_outcome : Bool → Bool → Applied → Applied
branch_outcome aligned near done =
    if not aligned then misaligned else if not near then out_of_range else done

pub call_outcome :
    (big : Bool) (rel : Rel) (symbols target : List ℕ) (addresse : ℕ) (symbol : Sym)
    → IsEntry big rel symbols target 28 symbol
    → IsLow (get_symbol_value big symbol)
    → IsLow (place_of big rel addresse)
    → apply_relocation big rel (some symbols) target addresse
      ≡ branch_outcome
          (get_symbol_value big symbol % 4 == place_of big rel addresse % 4)
          (in_reach (place_of big rel addresse) (get_symbol_value big symbol))
          (patched (
            write_at target (offset_of big rel) (
              store32 true
                (call_instruction (place_of big rel addresse) (get_symbol_value big symbol)))))
unfolding apply_type
call_outcome big rel symbols target addresse symbol entry hs hp =
    dispatch big rel symbols target addresse 28 symbol entry.has_type entry.has_symbol
    ∙ (λ i. elim (peek32_inside big target (offset_of big rel) entry.has_word i) [
      | none ↦ broken
      | some word ↦
          apply_call big target (offset_of big rel) (place_of big rel addresse)
            (get_symbol_value big symbol)
    ])
    ∙ apply_call_lem big target (offset_of big rel) (place_of big rel addresse)
        (get_symbol_value big symbol) hs hp entry.has_word

pub jump_outcome :
    (big : Bool) (rel : Rel) (symbols target : List ℕ) (addresse : ℕ) (symbol : Sym)
    → IsEntry big rel symbols target 29 symbol
    → IsLow (get_symbol_value big symbol)
    → IsLow (place_of big rel addresse)
    → apply_relocation big rel (some symbols) target addresse
      ≡ branch_outcome
          (get_symbol_value big symbol % 4 == 0)
          (jump_in_reach (place_of big rel addresse) (get_symbol_value big symbol))
          (patched (
            write_at target (offset_of big rel) (
              store32 true (
                jump_instruction
                  (ntohl big (load32 big target (offset_of big rel)))
                  (place_of big rel addresse)
                  (get_symbol_value big symbol)))))
unfolding apply_type
jump_outcome big rel symbols target addresse symbol entry hs hp =
    dispatch big rel symbols target addresse 29 symbol entry.has_type entry.has_symbol
    ∙ (λ i. elim (peek32_inside big target (offset_of big rel) entry.has_word i) [
      | none ↦ broken
      | some word ↦
          apply_jump24 big target (offset_of big rel) (ntohl big word) (place_of big rel addresse)
            (get_symbol_value big symbol)
    ])
    ∙ apply_jump24_lem big target (offset_of big rel)
        (ntohl big (load32 big target (offset_of big rel))) (place_of big rel addresse)
        (get_symbol_value big symbol) hs hp entry.has_word

-- What a patched word is: all else stays, and the word is `word`.
pub patched_word :
    (target : List ℕ) (offset word : ℕ)
    → IsU32 word
    → offset + 4 ≤ length target
    → (word_at (write_at target offset (store32 true word)) offset ≡ word)
      × IsPatch target (write_at target offset (store32 true word)) offset 4
patched_word target offset word h inside = (
  word_at-write_at target offset word h inside,
  subst (λ n. IsPatch target (write_at target offset (store32 true word)) offset n)
      (length-store32 true word) (write_at-IsPatch target offset (store32 true word)),
)
