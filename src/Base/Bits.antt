-- ===== src/Base/Bits.antt =====
-- Facts about the native `bit_and` and `bit_or` at variables.
use Prim.Native.Nat.{ℕ, zero, suc, ◌+◌, ◌-◌, ◌*◌, ◌/◌, ◌%◌, ◌^◌, ◌≤◌, ◌<◌, min, max}
use Prim.Native.Nat.{bit_and, bit_or, digits, bitwise, bit_and-bitwise, bit_or-bitwise}
use mathlib.Core.Path.{◌≡◌, refl, sym, ap, ap₂, ◌∙◌}
use native.Mathlib.Nat.{le_refl, pow-suc, one-le-pow}
use native.Mathlib.Omega.{arith}

-- Induction that halves.
halving :
    (P : ℕ → Type 0) → P 0 → ((m : ℕ) → P (suc m / 2) → P (suc m)) → (bound m : ℕ) → m ≤ bound → P m
halving P base step bound zero small = base
halving P base step zero (suc m) small = absurd (omega arith)
halving P base step (suc bound) (suc m) small =
    step m (halving P base step bound (suc m / 2) (omega arith))

-- One unit of fuel more than the first number changes nothing, and so any fuel that is enough.
module _ (rest : ℕ → ℕ) (op : ℕ → ℕ → ℕ) where
  one_more : (fuel x y : ℕ) → x ≤ fuel → digits rest op (suc fuel) x y ≡ digits rest op fuel x y
  one_more zero zero y small = refl
  one_more zero (suc x) y small = absurd (omega arith)
  one_more (suc fuel) zero y small = refl
  one_more (suc fuel) (suc x) y small =
      ap (λ t. t * 2 + op (suc x % 2) (y % 2)) (one_more fuel (suc x / 2) (y / 2) (omega arith))

  enough : (more x y : ℕ) → digits rest op (more + x) x y ≡ digits rest op x x y
  enough zero x y = let e : 0 + x ≡ x = omega arith in ap (λ n. digits rest op n x y) e
  enough (suc more) x y =
      let e : suc more + x ≡ suc (more + x) = omega arith in
      ap (λ n. digits rest op n x y) e ∙ one_more (more + x) x y (omega arith) ∙ enough more x y

  lowest_digit :
      (x y : ℕ)
      → bitwise rest op (suc x) y ≡ op (suc x % 2) (y % 2) + 2 * bitwise rest op (suc x / 2) (y / 2)
  lowest_digit x y =
      let fuel : x ≡ (x - suc x / 2) + suc x / 2 = omega arith in
      let same =
        ap (λ n. digits rest op n (suc x / 2) (y / 2)) fuel
        ∙ enough (x - suc x / 2) (suc x / 2) (y / 2) in
      omega (arith, same)

-- Both operations by their lowest digit.
pub bit_or_step : (x y : ℕ) → bit_or x y ≡ max (x % 2) (y % 2) + 2 * bit_or (x / 2) (y / 2)
bit_or_step (suc x) y = simp bit_or-bitwise (lowest_digit (λ n. n) max x y)
bit_or_step zero y = simp bit_or-bitwise (omega arith)

pub bit_and_step : (x y : ℕ) → bit_and x y ≡ min (x % 2) (y % 2) + 2 * bit_and (x / 2) (y / 2)
bit_and_step (suc x) y = simp bit_and-bitwise (lowest_digit (λ n. 0) min x y)
bit_and_step zero y = simp bit_and-bitwise (omega arith)

bit_or-zero : (x : ℕ) → bit_or x 0 ≡ x
bit_or-zero x =
    halving (λ m. bit_or m 0 ≡ m) refl (λ m half. omega (arith, bit_or_step (suc m) 0, half)) x x
      (le_refl x)

bit_and-zero : (x : ℕ) → bit_and x 0 ≡ 0
bit_and-zero x =
    halving (λ m. bit_and m 0 ≡ 0) refl (λ m half. omega (arith, bit_and_step (suc m) 0, half)) x x
      (le_refl x)

-- Multiplying by a power of two and joining bits below it is a sum.
pub bit_or_shift : (k q r : ℕ) → r < 2 ^ k → bit_or (q * 2 ^ k) r ≡ q * 2 ^ k + r
bit_or_shift zero q r fits = ground (arith, bit_or-zero q)
bit_or_shift (suc k) q r fits = ground (
  arith,
  bit_or_step (q * 2 ^ suc k) r,
  pow-suc 2 k,
  ap (λ (t : ℕ). q * t) (pow-suc 2 k),
  bit_or_shift k q (r / 2) (omega arith),
)

bit_and_low : (k q r : ℕ) → r < 2 ^ k → bit_and (q * 2 ^ k + r) (2 ^ k - 1) ≡ r
bit_and_low zero q r fits = rw bit_and-zero (omega arith)
bit_and_low (suc k) q r fits = ground (
  arith,
  bit_and_step (q * 2 ^ suc k + r) (2 ^ suc k - 1),
  pow-suc 2 k,
  ap (λ (t : ℕ). q * t) (pow-suc 2 k),
  bit_and_low k q (r / 2) (omega arith),
)

-- A mask of the `k` low bits is a remainder.
pub bit_and_mask : (k a : ℕ) → bit_and a (2 ^ k - 1) ≡ a % 2 ^ k
bit_and_mask k a = ground (arith, one-le-pow k 2, bit_and_low k (a / 2 ^ k) (a % 2 ^ k))

-- A mask shifted up keeps the bits above `k` alone.
pub bit_and_shift :
    (k q r m : ℕ) → r < 2 ^ k → bit_and (q * 2 ^ k + r) (m * 2 ^ k) ≡ bit_and q m * 2 ^ k
bit_and_shift zero q r m fits =
    let e : q * 2 ^ 0 + r ≡ q = omega arith in
    let f : m * 2 ^ 0 ≡ m = omega arith in ap₂ bit_and e f ∙ omega arith
bit_and_shift (suc k) q r m fits = ground (
  arith,
  bit_and_step (q * 2 ^ suc k + r) (m * 2 ^ suc k),
  ap (λ (t : ℕ). q * t) (pow-suc 2 k),
  ap (λ (t : ℕ). m * t) (pow-suc 2 k),
  pow-suc 2 k,
  bit_and_shift k q (r / 2) m (omega arith),
  ap (λ (t : ℕ). bit_and q m * t) (pow-suc 2 k),
)

pub bit_and_comm : (x y : ℕ) → bit_and x y ≡ bit_and y x
bit_and_comm x =
    halving (λ m. (y : ℕ) → bit_and m y ≡ bit_and y m)
      (λ y. bit_and-bitwise 0 y ∙ sym (bit_and-zero y))
      (λ m half y. omega (arith, bit_and_step (suc m) y, bit_and_step y (suc m), half (y / 2))) x x
      (le_refl x)
