-- ===== src/Process/Relocation.antt =====
-- `apply_relocation` as a whole: what each type of relocation leaves in the section's bytes.
use arm_reimplementation.Base.{
  ℕ, ◌+◌, ◌/◌, ◌%◌, ◌^◌, ◌≤◌, ◌≡◌, refl, sym, ap, subst, ◌⊎◌, ◌∙◌, Bool, true, false, ◌&&◌, some,
  List, [], ◌∷◌, ◌==◌, length, All, if◌then◌else◌, ==_iff, inl, inr, arith,
}
use arm_reimplementation.Runtime.Bytes.{IsByte, ntohl, load32, store16, store32, write_at, poke}
use arm_reimplementation.Runtime.Bytes.Swap.{ntohl-lt, ntohl-load32, store16-htons, store32-htonl}
use arm_reimplementation.Runtime.Bytes.Stores.{poke_in_bounds}
use arm_reimplementation.Elf.{Rel, Sym, sym_at}
use arm_reimplementation.Elf.Constants.{r_sym, r_type}
use arm_reimplementation.Symbol.{get_symbol_value}
use arm_reimplementation.Process.Apply.{
  Applied, patched, misaligned, out_of_range, apply_relocation, apply_type, stored, store_word,
}
use arm_reimplementation.Process.Apply.Words.{branch_target}
use arm_reimplementation.Process.Apply.Stores.{word_at, IsPatch}
use arm_reimplementation.Process.Apply.Branches.{
  IsLow, in_reach, jump_in_reach, jump_in_reach_aligned, call_instruction, jump_instruction,
  call_instruction_target, jump_instruction_target, jump24_word-lt, call_word-lt,
}
use arm_reimplementation.Process.Apply.Entries.{
  info_of, offset_of, place_of, IsEntry, dispatch, branch_outcome, call_outcome, jump_outcome,
  patched_word,
}

-- A call whose target is aligned with it and within 32 MB is patched: the new instruction is a
-- `BL` that goes to the value of the entry's symbol, and the rest of the section stays as it was.
-- Addresses lie below 2 GB; the host may have either byte order.
pub call_reaches_symbol :
    (big : Bool) (rel : Rel) (symbols target : List ℕ) (addresse : ℕ) (symbol : Sym)
    → IsEntry big rel symbols target 28 symbol
    → IsLow (get_symbol_value big symbol)
    → IsLow (place_of big rel addresse)
    → get_symbol_value big symbol % 4 ≡ place_of big rel addresse % 4
    → in_reach (place_of big rel addresse) (get_symbol_value big symbol) ≡ true
    → (out : List ℕ) × (apply_relocation big rel (some symbols) target addresse ≡ patched out)
      × (branch_target (place_of big rel addresse) (word_at out (offset_of big rel))
          ≡ get_symbol_value big symbol)
      × (word_at out (offset_of big rel) / 2 ^ 24 ≡ 0xEB)
      × IsPatch target out (offset_of big rel) 4
call_reaches_symbol big rel symbols target addresse symbol entry hs hp al near =
    let place = place_of big rel addresse in
    let value = get_symbol_value big symbol in
    let word = call_instruction place value in
    let same : (value % 4 == place % 4) ≡ true = (==_iff (value % 4) (place % 4)).1 al in
    let stays = patched_word target (offset_of big rel) word (call_word-lt _) entry.has_word in
    let goal = call_instruction_target place value hs hp same near in
    (
      write_at target (offset_of big rel) (store32 true word),
      call_outcome big rel symbols target addresse symbol entry hs hp ∙ (λ i.
          branch_outcome (same i) (near i)
            (patched (write_at target (offset_of big rel) (store32 true word)))),
      ap (branch_target place) stays.0 ∙ goal.0,
      ap (λ w. w / 2 ^ 24) stays.0 ∙ goal.1,
      stays.1,
    )

-- A jump at an instruction's address, with an aligned target within 32 MB, is patched: the new
-- instruction goes to the value of the entry's symbol and keeps its condition and operation, the
-- top byte; the rest of the section stays as it was. Addresses lie below 2 GB.
pub jump_reaches_symbol :
    (big : Bool) (rel : Rel) (symbols target : List ℕ) (addresse : ℕ) (symbol : Sym)
    → IsEntry big rel symbols target 29 symbol
    → All IsByte target
    → IsLow (get_symbol_value big symbol)
    → IsLow (place_of big rel addresse)
    → place_of big rel addresse % 4 ≡ 0
    → get_symbol_value big symbol % 4 ≡ 0
    → in_reach (place_of big rel addresse) (get_symbol_value big symbol) ≡ true
    → (out : List ℕ) × (apply_relocation big rel (some symbols) target addresse ≡ patched out)
      × (branch_target (place_of big rel addresse) (word_at out (offset_of big rel))
          ≡ get_symbol_value big symbol)
      × (word_at out (offset_of big rel) / 2 ^ 24 ≡ word_at target (offset_of big rel) / 2 ^ 24)
      × IsPatch target out (offset_of big rel) 4
jump_reaches_symbol big rel symbols target addresse symbol entry bytes hs hp pl al near =
    let place = place_of big rel addresse in
    let value = get_symbol_value big symbol in
    let old = ntohl big (load32 big target (offset_of big rel)) in
    let word = jump_instruction old place value in
    let fits = ntohl-lt big (load32 big target (offset_of big rel)) in
    let same : (value % 4 == 0) ≡ true = (==_iff (value % 4) 0).1 al in
    let reached = jump_in_reach_aligned place value pl al ∙ near in
    let stays =
      patched_word target (offset_of big rel) word (jump24_word-lt old _ fits) entry.has_word in
    let goal = jump_instruction_target old place value fits hs hp pl al near in
    (
      write_at target (offset_of big rel) (store32 true word),
      jump_outcome big rel symbols target addresse symbol entry hs hp ∙ (λ i.
          branch_outcome (same i) (reached i)
            (patched (write_at target (offset_of big rel) (store32 true word)))),
      ap (branch_target place) stays.0 ∙ goal.0,
      ap (λ w. w / 2 ^ 24) stays.0
          ∙ goal.1
          ∙ ap (λ w. w / 2 ^ 24) (ntohl-load32 big target (offset_of big rel) bytes),
      stays.1,
    )

refused_outcome :
    (aligned near : Bool) (done : Applied)
    → (aligned && near) ≡ false
    → branch_outcome aligned near done ≡ (if aligned then out_of_range else misaligned)
refused_outcome true near done h = λ i. branch_outcome true (h i) done
refused_outcome false near done h = refl

-- What the code asks of a call (type 28) or a jump (type 29): a call's target is as far from a
-- multiple of 4 as the call, a jump's is a multiple of 4, and either is in its range.
abbrev pub is_aligned : ℕ → ℕ → ℕ → Bool
is_aligned type place symbol = if type == 29 then symbol % 4 == 0 else symbol % 4 == place % 4

abbrev pub is_near : ℕ → ℕ → ℕ → Bool
is_near type place symbol = if type == 29 then jump_in_reach place symbol else in_reach place symbol

-- About a symbol that the table has and a word that the section has: a call whose distance from its
-- target is no multiple of 4, a jump whose target is no multiple of 4, and either of them where the
-- target is out of its range, is refused with the message for which of the two it is (the alignment
-- is tested first). The symbol and the word lie below 2 GB; the address of a jump itself may be any.
pub branch_refused :
    (big : Bool) (rel : Rel) (symbols target : List ℕ) (addresse type : ℕ) (symbol : Sym)
    → IsEntry big rel symbols target type symbol
    → (type ≡ 28) ⊎ (type ≡ 29)
    → IsLow (get_symbol_value big symbol)
    → IsLow (place_of big rel addresse)
    → (is_aligned type (place_of big rel addresse) (get_symbol_value big symbol)
        && is_near type (place_of big rel addresse) (get_symbol_value big symbol))
      ≡ false
    → apply_relocation big rel (some symbols) target addresse ≡ (
        if is_aligned type (place_of big rel addresse) (get_symbol_value big symbol)
        then out_of_range
        else misaligned)
branch_refused big rel symbols target addresse type symbol entry (inl e) hs hp far =
    call_outcome big rel symbols target addresse symbol
      (subst (λ t. IsEntry big rel symbols target t symbol) e entry) hs hp
    ∙ refused_outcome _ _ _
        (sym (ap (λ t. is_aligned t place value && is_near t place value) e) ∙ far)
    ∙ sym (ap (λ t. if is_aligned t place value then out_of_range else misaligned) e)
  where
    place : ℕ
    place = place_of big rel addresse

    value : ℕ
    value = get_symbol_value big symbol
branch_refused big rel symbols target addresse type symbol entry (inr e) hs hp far =
    jump_outcome big rel symbols target addresse symbol
      (subst (λ t. IsEntry big rel symbols target t symbol) e entry) hs hp
    ∙ refused_outcome _ _ _
        (sym (ap (λ t. is_aligned t place value && is_near t place value) e) ∙ far)
    ∙ sym (ap (λ t. if is_aligned t place value then out_of_range else misaligned) e)
  where
    place : ℕ
    place = place_of big rel addresse

    value : ℕ
    value = get_symbol_value big symbol

-- What the three absolute types store: the symbol's value, or its low half, or its low byte.
abbrev pub absolute_bytes : ℕ → ℕ → List ℕ
absolute_bytes type value =
    if type == 2
    then store32 true value
    else if type == 5
    then store16 true value
    else (value % 256) ∷ []

store16_low : (v : ℕ) → store16 true (v % 2 ^ 16) ≡ store16 true v
unfolding store16
store16_low v = ground arith

absolute_store :
    (big : Bool) (type value : ℕ) (target : List ℕ) (offset addresse : ℕ)
    → (type ≡ 2) ⊎ (type ≡ 5) ⊎ (type ≡ 8)
    → apply_type big type value target offset addresse
      ≡ stored (poke target offset (absolute_bytes type value))
unfolding apply_type store_word
absolute_store big type value target offset addresse (inl e) =
    subst
      (λ t.
        apply_type big t value target offset addresse
        ≡ stored (poke target offset (absolute_bytes t value)))
      (sym e) (ap (λ bs. stored (poke target offset bs)) (store32-htonl big value))
absolute_store big type value target offset addresse (inr (inl e)) =
    subst
      (λ t.
        apply_type big t value target offset addresse
        ≡ stored (poke target offset (absolute_bytes t value)))
      (sym e)
      (ap (λ bs. stored (poke target offset bs))
        (store16-htons big (value % 2 ^ 16) ∙ store16_low value))
absolute_store big type value target offset addresse (inr (inr e)) =
    subst
      (λ t.
        apply_type big t value target offset addresse
        ≡ stored (poke target offset (absolute_bytes t value)))
      (sym e) refl

-- An absolute relocation whose place lies in the section replaces exactly the 4, 2 or 1 bytes
-- there by the big-endian value of the symbol, cut to that width: the addend that stood there is
-- not read.
pub absolute_stores_symbol :
    (big : Bool) (rel : Rel) (symbols target : List ℕ) (addresse type : ℕ) (symbol : Sym)
    → (type ≡ 2) ⊎ (type ≡ 5) ⊎ (type ≡ 8)
    → r_type (info_of big rel) ≡ type
    → sym_at big symbols (r_sym (info_of big rel)) ≡ some symbol
    → offset_of big rel + length (absolute_bytes type (get_symbol_value big symbol)) ≤ length target
    → apply_relocation big rel (some symbols) target addresse
      ≡ patched
          (write_at target (offset_of big rel) (absolute_bytes type (get_symbol_value big symbol)))
absolute_stores_symbol big rel symbols target addresse type symbol kind has_type has_symbol fits =
    dispatch big rel symbols target addresse type symbol has_type has_symbol
    ∙ absolute_store big type (get_symbol_value big symbol) target (offset_of big rel) addresse kind
    ∙ ap stored (
        poke_in_bounds target (offset_of big rel)
          (absolute_bytes type (get_symbol_value big symbol)) fits)
