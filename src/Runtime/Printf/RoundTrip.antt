-- ===== src/Runtime/Printf/RoundTrip.antt =====
-- Reading printed numbers back.
use arm_reimplementation.Base.{
  ℕ, zero, suc, ◌+◌, ◌-◌, ◌*◌, ◌/◌, ◌%◌, ◌^◌, ◌≤◌, ◌<◌, List, [], ◌∷◌, ◌++◌, ◌≡◌, refl, leb,
  replicate, length, if◌then◌else◌, arith, length-append, length-replicate,
}
use arm_reimplementation.Runtime.Printf.{digit, print_base, print_hex, pad_left, print_hex_width}
use native.Mathlib.Nat.{pow-suc}

-- The value of a digit character, of either case.
unfoldable pub digit_value : ℕ → ℕ
digit_value c = if leb c b'9' then c - b'0' else if leb c b'F' then c + 10 - b'A' else c + 10 - b'a'

unfoldable pub read_from : ℕ → ℕ → List ℕ → ℕ
read_from base acc [] = acc
read_from base acc (c ∷ cs) = read_from base (acc * base + digit_value c) cs

pub digit_value-digit : (d : ℕ) → d < 16 → digit_value (digit d) ≡ d
unfolding digit digit_value
digit_value-digit d h = ground arith

pub read_from-append :
    (base acc : ℕ) (s t : List ℕ)
    → read_from base acc (s ++ t) ≡ read_from base (read_from base acc s) t
unfolding read_from
read_from-append base acc [] t = refl
read_from-append base acc (c ∷ s) t = read_from-append base (acc * base + digit_value c) s t

read_from_zeros :
    (base n : ℕ) (s : List ℕ) → read_from base 0 (replicate n b'0' ++ s) ≡ read_from base 0 s
unfolding read_from digit_value
read_from_zeros base zero s = refl
read_from_zeros base (suc n) s =
    let e : 0 * base + 0 ≡ 0 = omega arith in rw (e, read_from) (read_from_zeros base n s)

-- Hexadecimal digits read back as the number that was printed.
pub read_hex-print_base : (fuel n : ℕ) → n < 16 ^ fuel → read_from 16 0 (print_base 16 fuel n) ≡ n
unfolding print_base read_from
read_hex-print_base zero n h = omega arith
read_hex-print_base (suc fuel) n h = ground (
  arith,
  pow-suc 16 fuel,
  digit_value-digit n,
  digit_value-digit (n % 16),
  read_from-append 16 0 (print_base 16 fuel (n / 16)) (digit (n % 16) ∷ []),
  read_hex-print_base fuel (n / 16),
)

pub read_hex-print_hex_width :
    (width n : ℕ) → n < 2 ^ 32 → read_from 16 0 (print_hex_width width n) ≡ n
unfolding print_hex_width pad_left print_hex
read_hex-print_hex_width width n h = rw read_from_zeros (read_hex-print_base 8 n (omega arith))

pub length-print_base : (k fuel n : ℕ) → n < 16 ^ suc k → length (print_base 16 fuel n) ≤ suc k
unfolding print_base
length-print_base k zero n l = omega arith
length-print_base zero (suc fuel) n l = ground arith
length-print_base (suc k) (suc fuel) n l = ground (
  arith,
  pow-suc 16 (suc k),
  length-append (print_base 16 fuel (n / 16)) (digit (n % 16) ∷ []),
  length-print_base k fuel (n / 16),
)

-- A number that fits its field width is printed at exactly that width.
pub length-print_hex_width : (k n : ℕ) → n < 16 ^ suc k → length (print_hex_width (suc k) n) ≡ suc k
unfolding print_hex_width pad_left print_hex
length-print_hex_width k n h = omega (
  arith,
  length-append (replicate (suc k - length (print_base 16 8 n)) b'0') (print_base 16 8 n),
  length-replicate {A = ℕ} (suc k - length (print_base 16 8 n)) b'0',
  length-print_base k 8 n h,
)
