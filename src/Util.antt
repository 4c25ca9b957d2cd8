-- ===== src/Util.antt =====
-- util.h and util.c: the byte-order test and the byte swaps.
use arm_reimplementation.Base.{
  ℕ, ◌+◌, ◌*◌, ◌/◌, ◌%◌, ◌^◌, ◌<◌, Bool, true, false, bit_and, bit_or, get_or, ap, ◌∙◌, ltb, ◌==◌,
  ◌≡◌, refl, arith, if◌then◌else◌,
}
use arm_reimplementation.Base.Bits.{bit_and_mask, bit_or_shift}
use arm_reimplementation.Runtime.Bytes.{IsU16, IsU32, ntohs, ntohl, store32}

-- The first byte in memory of a `uint32_t` that holds 1.
unfoldable pub is_big_endian : Bool → Bool
unfolding store32
is_big_endian big = get_or (store32 big 1) 0 0 == 0

-- The macro shifts before the mask cuts, so no shift is lost.
unfoldable pub reverse_2 : ℕ → ℕ
reverse_2 x = bit_or (bit_and x 0xff * 2 ^ 8) (bit_and (x / 2 ^ 8) 0xff)

unfoldable pub reverse_4 : ℕ → ℕ
reverse_4 x =
    bit_or
      (bit_or (bit_or (bit_and x 0xff * 2 ^ 24) (bit_and (x / 2 ^ 8) 0xff * 2 ^ 16))
        (bit_and (x / 2 ^ 16) 0xff * 2 ^ 8))
      (bit_and (x / 2 ^ 24) 0xff)

unfoldable pub min : ℕ → ℕ → ℕ
min x y = if ltb x y then x else y

-- The test answers the byte order of the host that it runs on.
pub is_big_endian_lem : (big : Bool) → is_big_endian big ≡ big
unfolding is_big_endian
is_big_endian_lem true = refl
is_big_endian_lem false = refl

-- Joining four bytes at their places is a sum.
reverse_4_sum :
    (a b c d : ℕ)
    → b < 256
    → c < 256
    → d < 256
    → bit_or (bit_or (bit_or (a * 2 ^ 24) (b * 2 ^ 16)) (c * 2 ^ 8)) d
      ≡ ((a * 256 + b) * 256 + c) * 256 + d
reverse_4_sum a b c d hb hc hd =
    ap (λ t. bit_or (bit_or t (c * 2 ^ 8)) d) (bit_or_shift 24 a (b * 2 ^ 16) (omega arith))
    ∙ ap (λ t. bit_or (bit_or t (c * 2 ^ 8)) d) (regroup a b)
    ∙ ap (λ t. bit_or t d) (bit_or_shift 16 (a * 256 + b) (c * 2 ^ 8) (omega arith))
    ∙ ap (λ t. bit_or t d) (regroup_low a b c)
    ∙ bit_or_shift 8 ((a * 256 + b) * 256 + c) d (omega arith)
    ∙ omega arith
  where
    regroup : (x y : ℕ) → x * 2 ^ 24 + y * 2 ^ 16 ≡ (x * 256 + y) * 2 ^ 16
    regroup x y = omega arith

    regroup_low :
        (x y z : ℕ) → (x * 256 + y) * 2 ^ 16 + z * 2 ^ 8 ≡ ((x * 256 + y) * 256 + z) * 2 ^ 8
    regroup_low x y z = omega arith

-- On a little-endian host the two macros are `ntohs` and `ntohl`.
pub reverse_4-ntohl :
    (x y : ℕ) → IsU32 x → IsU16 y → (reverse_4 x ≡ ntohl false x) × (reverse_2 y ≡ ntohs false y)
unfolding reverse_4 reverse_2 ntohl ntohs
reverse_4-ntohl x y hx hy = (
  rw
      (
        bit_and_mask 8 x,
        bit_and_mask 8 (x / 2 ^ 8),
        bit_and_mask 8 (x / 2 ^ 16),
        bit_and_mask 8 (x / 2 ^ 24),
      )
      (reverse_4_sum (x % 256) (x / 256 % 256) (x / 2 ^ 16 % 256) (x / 2 ^ 24 % 256) (omega arith)
        (omega arith) (omega arith)),
  rw (bit_and_mask 8 y, bit_and_mask 8 (y / 2 ^ 8))
      (bit_or_shift 8 (y % 256) (y / 256 % 256) (omega arith)),
)
