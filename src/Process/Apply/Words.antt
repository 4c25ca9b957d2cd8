-- ===== src/Process/Apply/Words.antt =====
-- The instruction words that a branch relocation builds, and where the branch then goes.
use arm_reimplementation.Base.{
  ℕ, ◌+◌, ◌-◌, ◌*◌, ◌/◌, ◌%◌, ◌^◌, ◌≡◌, ap, ap₂, ◌∙◌, false, some, bit_and, bit_or, ltb,
  if◌then◌else◌, arith, ℤ, pos, negsuc, ltb_ℤ, pattern32, shr_ℤ,
}
use arm_reimplementation.Base.Bits.{bit_and_mask, bit_and_comm, bit_and_shift, bit_or_shift}
use arm_reimplementation.Runtime.Bytes.{IsU32}
use arm_reimplementation.Process.Apply.{int_sub, displacement_of, jump24_word, call_word}

-- Where the processor goes for a branch instruction at `place`: the low 24 bits, as a signed number
-- of words, are counted from two instructions on.
abbrev pub branch_target : ℕ → ℕ → ℕ
branch_target place word =
    let imm = word % 2 ^ 24 in
    (place + 8 + (if ltb imm (2 ^ 23) then imm * 4 else imm * 4 + 2 ^ 32 - 2 ^ 26)) % 2 ^ 32

-- The displacement is the true difference, and it fits an `int32_t`.
pub displacement_of_lem :
    (symbol place : ℕ) (d : ℤ)
    → IsU32 symbol
    → IsU32 place
    → displacement_of symbol place ≡ some d
    → (pattern32 d + place + 8) % 2 ^ 32 ≡ symbol
unfolding displacement_of int_sub
displacement_of_lem symbol place d hs hp e = ground arith

pub jump24_word_lem :
    (instruction : ℕ) (d : ℤ)
    → IsU32 instruction
    → jump24_word instruction d ≡ instruction / 2 ^ 24 * 2 ^ 24 + pattern32 (shr_ℤ d 2) % 2 ^ 24
unfolding jump24_word
jump24_word_lem instruction d h =
    ap₂ bit_or kept (bit_and_comm 0x00FFFFFF low ∙ bit_and_mask 24 low)
    ∙ bit_or_shift 24 (instruction / 2 ^ 24) (low % 2 ^ 24) (omega arith)
  where
    low : ℕ
    low = pattern32 (shr_ℤ d 2)

    split : instruction ≡ instruction / 2 ^ 24 * 2 ^ 24 + instruction % 2 ^ 24
    split = omega arith

    kept : bit_and instruction 0xFF000000 ≡ instruction / 2 ^ 24 * 2 ^ 24
    kept =
        ap (λ (t : ℕ). bit_and t 0xFF000000) split
        ∙ bit_and_shift 24 (instruction / 2 ^ 24) (instruction % 2 ^ 24) 0xFF (omega arith)
        ∙ ap (λ (t : ℕ). t * 2 ^ 24) (bit_and_mask 8 (instruction / 2 ^ 24))
        ∙ omega arith

pub call_word_lem : (w : ℤ) → call_word w ≡ 0xEB * 2 ^ 24 + pattern32 w % 2 ^ 24
unfolding call_word
call_word_lem w =
    ap (bit_or 0xEB000000) (bit_and_mask 24 (pattern32 w))
    ∙ bit_or_shift 24 0xEB (pattern32 w % 2 ^ 24) (omega arith)

-- A displacement in range that is a multiple of four reaches exactly its target.
pub branch_target_lem :
    (hi place : ℕ) (d : ℤ)
    → pattern32 d % 4 ≡ 0
    → ltb_ℤ d (negsuc 33554431) ≡ false
    → ltb_ℤ (pos 33554428) d ≡ false
    → branch_target place (hi * 2 ^ 24 + pattern32 (shr_ℤ d 2) % 2 ^ 24)
      ≡ (pattern32 d + place + 8) % 2 ^ 32
branch_target_lem hi place (pos n) al lo up = ground arith
branch_target_lem hi place (negsuc n) al lo up = ground arith
