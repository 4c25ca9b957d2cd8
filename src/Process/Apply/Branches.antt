-- ===== src/Process/Apply/Branches.antt =====
-- The branch relocations, on every branch of the code.
use arm_reimplementation.Base.{
  ℕ, ◌+◌, ◌/◌, ◌%◌, ◌^◌, ◌≤◌, ◌<◌, ◌≡◌, ap, ◌∙◌, Bool, true, not, none, some, List, ◌==◌, ◌||◌,
  ◌&&◌, leb, ltb, length, if◌then◌else◌, arith, bit_and, ℤ, pos, negsuc, sub_ℕ, ltb_ℤ, pattern32,
  shr_ℤ,
}
use arm_reimplementation.Base.Bits.{bit_and_mask}
use arm_reimplementation.Runtime.Bytes.{IsU32, store32, write_at}
use arm_reimplementation.Process.Apply.{
  patched, broken, misaligned, out_of_range, int_sub, displacement_of, call_word, jump24_word,
  apply_call, apply_jump24, store_call, store_jump24,
}
use arm_reimplementation.Process.Apply.Words.{branch_target, call_word_lem, jump24_word_lem}
use arm_reimplementation.Process.Apply.Stores.{store_word_lem}

-- Addresses below 2 GB.
abbrev pub IsLow : ℕ → Type 0
IsLow a = a + 8 < 2 ^ 31

-- A branch reaches 32 MB down and almost as far up, counted from two instructions on.
abbrev pub in_reach : ℕ → ℕ → Bool
in_reach place symbol = leb (place + 8) (symbol + 2 ^ 25) && ltb symbol (place + 8 + 2 ^ 25)

displacement_of_low :
    (symbol place : ℕ)
    → IsLow symbol
    → IsLow place
    → displacement_of symbol place ≡ some (sub_ℕ symbol (place + 8))
unfolding displacement_of int_sub
displacement_of_low symbol place hs hp = ground arith

call_tests :
    (symbol place : ℕ)
    → IsLow symbol
    → IsLow place
    → (bit_and (pattern32 (sub_ℕ symbol (place + 8))) 3 == 0) ≡ (symbol % 4 == place % 4)
call_tests symbol place hs hp =
    ap (λ t. t == 0) (bit_and_mask 2 (pattern32 (sub_ℕ symbol (place + 8)))) ∙ ground arith

call_range :
    (symbol place : ℕ)
    → (ltb_ℤ (shr_ℤ (sub_ℕ symbol (place + 8)) 2) (negsuc 0x7FFFFF)
        || ltb_ℤ (pos 0x7FFFFF) (shr_ℤ (sub_ℕ symbol (place + 8)) 2))
      ≡ not (in_reach place symbol)
call_range symbol place = ground arith

-- The word that a call gets.
abbrev pub call_instruction : ℕ → ℕ → ℕ
call_instruction place symbol = call_word (shr_ℤ (sub_ℕ symbol (place + 8)) 2)

-- What `R_ARM_CALL` does, in full.
pub apply_call_lem :
    (big : Bool) (target : List ℕ) (offset place symbol : ℕ)
    → IsLow symbol
    → IsLow place
    → offset + 4 ≤ length target
    → apply_call big target offset place symbol ≡ (
        if not (symbol % 4 == place % 4)
        then misaligned
        else if not (in_reach place symbol)
        then out_of_range
        else patched (write_at target offset (store32 true (call_instruction place symbol))))
unfolding apply_call store_call
apply_call_lem big target offset place symbol hs hp inside =
    (λ i. elim (displacement_of_low symbol place hs hp i) [
      | none ↦ broken
      | some d ↦ store_call big target offset d
    ])
    ∙ (λ i.
        if not (call_tests symbol place hs hp i)
        then misaligned
        else if call_range symbol place i
        then out_of_range
        else store_word_lem big target offset (call_instruction place symbol) inside i)

-- A call that is patched in goes where its symbol is.
pub call_instruction_target :
    (place symbol : ℕ)
    → IsLow symbol
    → IsLow place
    → (symbol % 4 == place % 4) ≡ true
    → in_reach place symbol ≡ true
    → (branch_target place (call_instruction place symbol) ≡ symbol)
      × (call_instruction place symbol / 2 ^ 24 ≡ 0xEB)
call_instruction_target place symbol hs hp al near =
    ground (arith, call_word_lem (shr_ℤ (sub_ℕ symbol (place + 8)) 2))

-- The word that a jump gets over the one that is there.
abbrev pub jump_instruction : ℕ → ℕ → ℕ → ℕ
jump_instruction instruction place symbol = jump24_word instruction (sub_ℕ symbol (place + 8))

-- The code lets a jump go up to three bytes less far than `in_reach` where it or its target is
-- misaligned.
abbrev pub jump_in_reach : ℕ → ℕ → Bool
jump_in_reach place symbol = leb (place + 8) (symbol + 2 ^ 25) && leb symbol (place + 8 + 33554428)

jump_range :
    (symbol place : ℕ)
    → (ltb_ℤ (sub_ℕ symbol (place + 8)) (negsuc 33554431)
        || ltb_ℤ (pos 33554428) (sub_ℕ symbol (place + 8)))
      ≡ not (jump_in_reach place symbol)
jump_range symbol place = ground arith

-- At an instruction's address, with an aligned target, the two are the same.
pub jump_in_reach_aligned :
    (place symbol : ℕ)
    → place % 4 ≡ 0
    → symbol % 4 ≡ 0
    → jump_in_reach place symbol ≡ in_reach place symbol
jump_in_reach_aligned place symbol hp hs = ground arith

-- What `R_ARM_JUMP24` does, in full.
pub apply_jump24_lem :
    (big : Bool) (target : List ℕ) (offset instruction place symbol : ℕ)
    → IsLow symbol
    → IsLow place
    → offset + 4 ≤ length target
    → apply_jump24 big target offset instruction place symbol ≡ (
        if not (symbol % 4 == 0)
        then misaligned
        else if not (jump_in_reach place symbol)
        then out_of_range
        else patched
            (write_at target offset (store32 true (jump_instruction instruction place symbol))))
unfolding apply_jump24 store_jump24
apply_jump24_lem big target offset instruction place symbol hs hp inside =
    (λ i.
      if not (bit_and_mask 2 symbol i == 0)
      then misaligned
      else elim (displacement_of_low symbol place hs hp i) [
        | none ↦ broken
        | some d ↦ store_jump24 big target offset instruction d
      ])
    ∙ (λ i.
        if not (symbol % 4 == 0)
        then misaligned
        else if jump_range symbol place i
        then out_of_range
        else store_word_lem big target offset (jump_instruction instruction place symbol) inside i)

pub jump_instruction_target :
    (instruction place symbol : ℕ)
    → IsU32 instruction
    → IsLow symbol
    → IsLow place
    → place % 4 ≡ 0
    → symbol % 4 ≡ 0
    → in_reach place symbol ≡ true
    → (branch_target place (jump_instruction instruction place symbol) ≡ symbol)
      × (jump_instruction instruction place symbol / 2 ^ 24 ≡ instruction / 2 ^ 24)
jump_instruction_target instruction place symbol hi hs hp pl al near =
    ground (arith, jump24_word_lem instruction (sub_ℕ symbol (place + 8)) hi)

pub jump24_word-lt :
    (instruction : ℕ) (d : ℤ) → IsU32 instruction → IsU32 (jump24_word instruction d)
jump24_word-lt instruction d h = rw (jump24_word_lem instruction d h) (omega arith)

pub call_word-lt : (w : ℤ) → IsU32 (call_word w)
call_word-lt w = rw (call_word_lem w) (omega arith)
