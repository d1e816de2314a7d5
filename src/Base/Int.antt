-- ===== src/Base/Int.antt =====
-- Signed integers over the native numbers, and the two's complement words of 32 and 64 bits.
use Prim.Native.Nat.{ℕ, suc, ◌+◌, ◌-◌, ◌/◌, ◌%◌, ◌^◌, ◌≤◌, ◌<◌}
use mathlib.Core.Path.{◌≡◌}
use native.Mathlib.Omega.{arith}
use momo_hdb.Base.Tests.{ltb, leb, if◌then◌else◌}

-- `negsuc n` is -(n + 1).
pub data ℤ : Type 0 where
  pos : ℕ → ℤ
  negsuc : ℕ → ℤ

abbrev pub pos_part : ℤ → ℕ
pos_part (pos n) = n
pos_part (negsuc n) = 0

abbrev pub neg_part : ℤ → ℕ
neg_part (pos n) = 0
neg_part (negsuc n) = suc n

-- a - b, as an integer.
abbrev pub sub_ℕ : ℕ → ℕ → ℤ
sub_ℕ a b = if leb b a then pos (a - b) else negsuc (b - a - 1)

infixl 65 ◌-ℤ◌
unfoldable pub ◌-ℤ◌ : ℤ → ℤ → ℤ
a -ℤ b = sub_ℕ (pos_part a + neg_part b) (neg_part a + pos_part b)

-- The values of `std::int32_t` and `std::int64_t`.
abbrev pub IsI32 : ℤ → Type 0
IsI32 z = (pos_part z < 2 ^ 31) × (neg_part z ≤ 2 ^ 31)

abbrev pub IsI64 : ℤ → Type 0
IsI64 z = (pos_part z < 2 ^ 63) × (neg_part z ≤ 2 ^ 63)

-- `static_cast<std::uint32_t>` and `static_cast<std::uint64_t>`: the remainder by 2 ^ w.
abbrev pub word_of : ℕ → ℤ → ℕ
word_of w (pos n) = n % w
word_of w (negsuc n) = w - 1 - n % w

-- The integer that a word stands for, back again.
abbrev pub int_of : ℕ → ℕ → ℤ
int_of w n = if ltb n (w / 2) then pos n else negsuc (w - 1 - n)

pub int_of-word_of_32 : (z : ℤ) → IsI32 z → int_of (2 ^ 32) (word_of (2 ^ 32) z) ≡ z
int_of-word_of_32 (pos n) h = ground arith
int_of-word_of_32 (negsuc n) h = ground arith

pub int_of-word_of_64 : (z : ℤ) → IsI64 z → int_of (2 ^ 64) (word_of (2 ^ 64) z) ≡ z
int_of-word_of_64 (pos n) h = ground arith
int_of-word_of_64 (negsuc n) h = ground arith

pub word_of-lt : (w : ℕ) (z : ℤ) → 0 < w → word_of w z < w
word_of-lt w (pos n) h = grind arith
word_of-lt w (negsuc n) h = omega arith

pub eq_of_parts : (a b : ℤ) → pos_part a + neg_part b ≡ pos_part b + neg_part a → a ≡ b
eq_of_parts a b h = ground arith
