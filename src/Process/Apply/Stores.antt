-- ===== src/Process/Apply/Stores.antt =====
-- What a relocation that goes through leaves in the section: one word, and all else as it was.
use arm_reimplementation.Base.{
  ℕ, ◌+◌, ◌/◌, ◌%◌, ◌^◌, ◌≤◌, ◌<◌, ◌≡◌, refl, ap, ◌∙◌, Bool, true, List, get_or, length, arith,
}
use arm_reimplementation.Runtime.Bytes.{IsU32, be32, store32, write_at, poke}
use arm_reimplementation.Runtime.Bytes.Swap.{store32-htonl, length-store32}
use arm_reimplementation.Runtime.Bytes.Stores.{
  length-write_at, get_or-write_at_below, get_or-write_at_above, get_or-write_at, poke_in_bounds,
}
use arm_reimplementation.Process.Apply.{patched, stored, store_word}

-- The big-endian word at an offset of a section.
abbrev pub word_at : List ℕ → ℕ → ℕ
word_at bs i =
    be32 (get_or bs i 0) (get_or bs (i + 1) 0) (get_or bs (i + 2) 0) (get_or bs (i + 3) 0)

-- `out` is `target` with other bytes in the `width` places from `offset` on, at most.
pub record IsPatch (target out : List ℕ) (offset width : ℕ) : Type 0 where
  pub same_length : length out ≡ length target
  pub before : (j : ℕ) → j < offset → get_or out j 0 ≡ get_or target j 0
  pub behind : (j : ℕ) → offset + width ≤ j → get_or out j 0 ≡ get_or target j 0

pub write_at-IsPatch :
    (target : List ℕ) (offset : ℕ) (vs : List ℕ)
    → IsPatch target (write_at target offset vs) offset (length vs)
write_at-IsPatch target offset vs = record {
  same_length = length-write_at target offset vs;
  before = λ j h. get_or-write_at_below target offset j vs h;
  behind = λ j h. get_or-write_at_above target offset j vs h;
}

pub word_at-write_at :
    (target : List ℕ) (offset v : ℕ)
    → IsU32 v
    → offset + 4 ≤ length target
    → word_at (write_at target offset (store32 true v)) offset ≡ v
word_at-write_at target offset v h fits = omega (
  arith,
  read 0 (omega arith),
  ap (λ i. get_or out i 0) shift_zero,
  read 1 (omega arith),
  read 2 (omega arith),
  read 3 (omega arith),
  bytes_0,
  bytes_1,
  bytes_2,
  bytes_3,
)
  where
    out : List ℕ
    out = write_at target offset (store32 true v)

    shift_zero : offset + 0 ≡ offset
    shift_zero = omega arith

    read : (k : ℕ) → k < 4 → get_or out (offset + k) 0 ≡ get_or (store32 true v) k 0
    read k hk =
        get_or-write_at target offset k (store32 true v) (omega (arith, length-store32 true v))
          (omega (arith, length-store32 true v))

    bytes_0 : get_or (store32 true v) 0 0 ≡ v / 2 ^ 24 % 256
    bytes_0 = unfold store32 in refl

    bytes_1 : get_or (store32 true v) 1 0 ≡ v / 2 ^ 16 % 256
    bytes_1 = unfold store32 in refl

    bytes_2 : get_or (store32 true v) 2 0 ≡ v / 256 % 256
    bytes_2 = unfold store32 in refl

    bytes_3 : get_or (store32 true v) 3 0 ≡ v % 256
    bytes_3 = unfold store32 in refl

-- Within the section a word is stored, in the byte order of the file.
pub store_word_lem :
    (big : Bool) (target : List ℕ) (offset v : ℕ)
    → offset + 4 ≤ length target
    → store_word big target offset v ≡ patched (write_at target offset (store32 true v))
unfolding store_word
store_word_lem big target offset v h =
    ap (λ bs. stored (poke target offset bs)) (store32-htonl big v)
    ∙ ap stored
        (poke_in_bounds target offset (store32 true v) (omega (arith, length-store32 true v)))
