-- ===== src/Process/Copy/Addresses.antt =====
-- The addresses that the sections are given.
use arm_reimplementation.Base.{
  ℕ, zero, suc, ◌+◌, ◌-◌, ◌*◌, ◌/◌, ◌%◌, ◌^◌, ◌≤◌, ◌<◌, ◌≡◌, sym, ap, ap₂, ◌∙◌, arith,
  if◌then◌else◌, bit_and, lt→ltb,
}
use native.Mathlib.Nat.{
  pow-suc, one-le-pow, mul-sub, mod-eq_of_lt, div-lt_iff_lt-mul, div-add-mod', mod-lt,
}
use arm_reimplementation.Base.Bits.{bit_and_mask, bit_and_shift}
use arm_reimplementation.Process.Copy.{align_address}

pow_split : (k j : ℕ) → 2 ^ (j + k) ≡ 2 ^ j * 2 ^ k
pow_split k zero = let e : 0 + k ≡ k = omega arith in ap (λ n. 2 ^ n) e ∙ omega arith
pow_split k (suc j) =
    let e : suc j + k ≡ suc (j + k) = omega arith in
    ap (λ n. 2 ^ n) e
    ∙ pow-suc 2 (j + k)
    ∙ ap (λ n. n * 2) (pow_split k j)
    ∙ regroup
    ∙ ap (λ n. n * 2 ^ k) (sym (pow-suc 2 j))
  where
    regroup : (2 ^ j * 2 ^ k) * 2 ≡ (2 ^ j * 2) * 2 ^ k
    regroup = grind arith

-- Masking off the `k` low bits of a 32-bit number.
mask_high : (k j x : ℕ) → j + k ≡ 32 → x < 2 ^ 32 → bit_and x (2 ^ 32 - 2 ^ k) ≡ x / 2 ^ k * 2 ^ k
mask_high k j x e h =
    let all : 2 ^ j * 2 ^ k ≡ 2 ^ 32 = sym (pow_split k j) ∙ ap (λ n. 2 ^ n) e in
    let positive : 1 ≤ 2 ^ k = one-le-pow k 2 (omega arith) in
    let mask : 2 ^ 32 - 2 ^ k ≡ (2 ^ j - 1) * 2 ^ k =
      omega (arith, all, mul-sub (2 ^ k) (2 ^ j) 1) in
    let parts : x ≡ x / 2 ^ k * 2 ^ k + x % 2 ^ k = ground arith in
    ap₂ bit_and parts mask
    ∙ bit_and_shift k (x / 2 ^ k) (x % 2 ^ k) (2 ^ j - 1) (ground arith)
    ∙ ap (λ n. n * 2 ^ k)
        (bit_and_mask j (x / 2 ^ k)
          ∙ mod-eq_of_lt ((div-lt_iff_lt-mul positive).1 (omega (arith, all))))

-- `2 ^ k` is the alignment. While the address is so far below 2^32 that its alignment does not wrap,
-- it goes up to the next multiple of the alignment, which is itself or less than one alignment away.
pub align_address_lem :
    (k j address : ℕ)
    → j + k ≡ 32
    → address + 2 ^ k ≤ 2 ^ 32
    → (q : ℕ) × (align_address address (2 ^ k) ≡ q * 2 ^ k)
      × (address ≤ align_address address (2 ^ k))
      × (align_address address (2 ^ k) < address + 2 ^ k)
unfolding align_address
align_address_lem k j address e h =
    let positive : 1 ≤ 2 ^ k = one-le-pow k 2 (omega arith) in
    let x : ℕ = (address + 2 ^ k - 1) % 2 ^ 32 in
    let masked = mask_high k j x e (omega arith) in
    let taken : align_address address (2 ^ k) ≡ x / 2 ^ k * 2 ^ k =
      (λ i. if lt→ltb 0 (2 ^ k) positive i then bit_and x (2 ^ 32 - 2 ^ k) else address) ∙ masked in
    let sum : x / 2 ^ k * 2 ^ k + x % 2 ^ k ≡ address + 2 ^ k - 1 =
      div-add-mod' x (2 ^ k) ∙ omega arith in
    let small : x % 2 ^ k < 2 ^ k = mod-lt x positive in
    (x / 2 ^ k, taken, omega (arith, taken, sum, small), omega (arith, taken, sum, small))
