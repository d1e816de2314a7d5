-- ===== src/Base/BitTests.antt =====
-- The bit `i` of a number as `n / 2 ^ i % 2`, and what `&`, `|`, `~` and `1 << i` do to it.
use Prim.Native.Nat.{
  ℕ, zero, suc, ◌+◌, ◌-◌, ◌*◌, ◌/◌, ◌%◌, ◌^◌, ◌≤◌, ◌<◌, min, max, bit_and, bit_or, digits,
  bit_or-bitwise,
}
use mathlib.Core.Path.{◌≡◌, refl, ap}
use native.Mathlib.Nat.{pow-suc}
use native.Mathlib.Omega.{arith}
use momo_hdb.Base.Bits.{bit_and_step, bit_and-zero}

abbrev or_digits : ℕ → ℕ → ℕ → ℕ
or_digits n a b = digits (λ b. b) max n a b

or_digits_fuel : (n m a b : ℕ) → a ≤ n → a ≤ m → or_digits n a b ≡ or_digits m a b
or_digits_fuel zero zero a b p q = refl
or_digits_fuel zero (suc m) zero b p q = refl
or_digits_fuel zero (suc m) (suc a) b p q = absurd (omega arith)
or_digits_fuel (suc n) zero zero b p q = refl
or_digits_fuel (suc n) zero (suc a) b p q = absurd (omega arith)
or_digits_fuel (suc n) (suc m) zero b p q = refl
or_digits_fuel (suc n) (suc m) (suc a) b p q =
    omega (arith, or_digits_fuel n m (suc a / 2) (b / 2) (omega arith) (omega arith))

pub zero-bit_or : (b : ℕ) → bit_or 0 b ≡ b
zero-bit_or b = bit_or-bitwise 0 b

pub bit_or_step : (a b : ℕ) → bit_or a b ≡ bit_or (a / 2) (b / 2) * 2 + max (a % 2) (b % 2)
bit_or_step zero b = omega (arith, zero-bit_or b, zero-bit_or (b / 2))
bit_or_step (suc a) b = omega (
  arith,
  bit_or-bitwise (suc a) b,
  bit_or-bitwise (suc a / 2) (b / 2),
  or_digits_fuel a (suc a / 2) (suc a / 2) (b / 2) (omega arith) (omega arith),
)

-- Bit `i` of `n`, as 0 or 1.
abbrev pub bit : ℕ → ℕ → ℕ
bit zero n = n % 2
bit (suc i) n = bit i (n / 2)

pub bit-lt : (i n : ℕ) → bit i n < 2
bit-lt zero n = omega arith
bit-lt (suc i) n = bit-lt i (n / 2)

pub bit-bit_and : (i a b : ℕ) → bit i (bit_and a b) ≡ min (bit i a) (bit i b)
bit-bit_and zero a b = omega (arith, bit_and_step a b)
bit-bit_and (suc i) a b =
    let half : bit_and a b / 2 ≡ bit_and (a / 2) (b / 2) = omega (arith, bit_and_step a b) in
    ground (arith, half, bit-bit_and i (a / 2) (b / 2))

pub bit-bit_or : (i a b : ℕ) → bit i (bit_or a b) ≡ max (bit i a) (bit i b)
bit-bit_or zero a b = omega (arith, bit_or_step a b)
bit-bit_or (suc i) a b =
    let half : bit_or a b / 2 ≡ bit_or (a / 2) (b / 2) = omega (arith, bit_or_step a b) in
    ground (arith, half, bit-bit_or i (a / 2) (b / 2))

-- `~b` in a word of `w` bits.
pub bit_complement : (w i b : ℕ) → i < w → b < 2 ^ w → bit i (2 ^ w - 1 - b) ≡ 1 - bit i b
bit_complement zero i b h p = absurd (omega arith)
bit_complement (suc w) zero b h p = omega (arith, pow-suc 2 w)
bit_complement (suc w) (suc i) b h p =
    let half : (2 ^ suc w - 1 - b) / 2 ≡ 2 ^ w - 1 - b / 2 = omega (arith, pow-suc 2 w) in
    let small : b / 2 < 2 ^ w = omega (arith, pow-suc 2 w) in
    ground (arith, half, bit_complement w i (b / 2) (omega arith) small)

-- `n & (1 << i)` is zero or `1 << i`, as the bit says.
pub bit_and_pow : (i n : ℕ) → bit_and n (2 ^ i) ≡ bit i n * 2 ^ i
bit_and_pow zero n = omega (arith, bit_and_step n 1, bit_and-zero (n / 2))
bit_and_pow (suc i) n =
    let half : 2 ^ suc i / 2 ≡ 2 ^ i = omega (arith, pow-suc 2 i) in
    let even : 2 ^ suc i % 2 ≡ 0 = omega (arith, pow-suc 2 i) in
    ground (
      arith,
      bit_and_step n (2 ^ suc i),
      half,
      even,
      bit_and_pow i (n / 2),
      ap (λ (t : ℕ). bit i (n / 2) * t) (pow-suc 2 i),
    )

-- Numbers below `2 ^ w` with the same bits are equal.
pub eq_of_bits : (w a b : ℕ) → a < 2 ^ w → b < 2 ^ w → ((i : ℕ) → i < w → bit i a ≡ bit i b) → a ≡ b
eq_of_bits zero a b p q h = omega arith
eq_of_bits (suc w) a b p q h =
    let halves : a / 2 ≡ b / 2 =
      eq_of_bits w (a / 2) (b / 2) (omega (arith, pow-suc 2 w)) (omega (arith, pow-suc 2 w))
        (λ i lt. h (suc i) (omega arith)) in
    omega (arith, halves, h 0 (omega arith))
