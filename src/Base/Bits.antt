-- ===== src/Base/Bits.antt =====
-- Laws of `bit_and` and `bit_or` at variables, from the digit recursion that they stand for: masks
-- of a power of two, and the power-of-two test `(c & (c - 1)) == 0`.
use Prim.Native.Nat.{
  ℕ, zero, suc, ◌+◌, ◌-◌, ◌*◌, ◌/◌, ◌%◌, ◌^◌, ◌≤◌, ◌<◌, min, bit_and, digits, bit_and-bitwise,
}
use mathlib.Core.Path.{◌≡◌, refl, ◌∙◌}
use mathlib.Core.Logic.{◌⊎◌, inl, inr}
use native.Mathlib.Nat.{pow-suc}
use native.Mathlib.Omega.{arith}

-- Induction on the number of binary digits.
pub by_halves {ℓ} : (P : ℕ → Type ℓ) → P 0 → ((x : ℕ) → P (suc x / 2) → P (suc x)) → (x : ℕ) → P x
by_halves P base step x = within x x (omega arith)
  where
    within : (size x : ℕ) → x ≤ size → P x
    within size zero h = base
    within zero (suc x) h = absurd (omega arith)
    within (suc size) (suc x) h = step x (within size (suc x / 2) (omega arith))

-- The digit recursion of `bit_and`, on as many digits as its fuel allows.
abbrev conjunction : ℕ → ℕ → ℕ → ℕ
conjunction fuel x y = digits (λ d. zero) min fuel x y

conjunction_stable : (x y : ℕ) {k l : ℕ} → x ≤ k → x ≤ l → conjunction k x y ≡ conjunction l x y
conjunction_stable x y {k} {l} = stable k l x y
  where
    stable : (k l x y : ℕ) → x ≤ k → x ≤ l → conjunction k x y ≡ conjunction l x y
    stable (suc k) (suc l) (suc x) y hk hl =
        let tail = stable k l (suc x / 2) (y / 2) (omega arith) (omega arith) in omega (arith, tail)
    stable (suc k) (suc l) zero y hk hl = refl
    stable (suc k) zero zero y hk hl = refl
    stable zero (suc l) zero y hk hl = refl
    stable zero zero zero y hk hl = refl
    stable zero l (suc x) y hk hl = absurd (omega arith)
    stable (suc k) zero (suc x) y hk hl = absurd (omega arith)

-- One digit of a conjunction: the last ones, and the numbers without them.
pub bit_and_step : (x y : ℕ) → bit_and x y ≡ bit_and (x / 2) (y / 2) * 2 + min (x % 2) (y % 2)
bit_and_step zero y =
    let left : bit_and 0 y ≡ 0 = bit_and-bitwise 0 y in
    let right : bit_and 0 (y / 2) ≡ 0 = bit_and-bitwise 0 (y / 2) in omega (arith, left, right)
bit_and_step (suc x) y =
    let whole = bit_and-bitwise (suc x) y in
    let rest = bit_and-bitwise (suc x / 2) (y / 2) in
    let enough : suc x / 2 ≤ x = omega arith in
    let same =
      conjunction_stable (suc x / 2) (y / 2) {k = x} {l = suc x / 2} enough (omega arith) in
    omega (arith, whole, rest, same)

pub bit_and-zero : (x : ℕ) → bit_and x 0 ≡ 0
bit_and-zero =
    by_halves (λ x. bit_and x 0 ≡ 0) refl (λ x ih. omega (arith, bit_and_step (suc x) 0, ih))

pub bit_and_self : (x : ℕ) → bit_and x x ≡ x
bit_and_self =
    by_halves (λ x. bit_and x x ≡ x) refl (λ x ih. omega (arith, bit_and_step (suc x) (suc x), ih))

pub pow-pos : (k : ℕ) → 0 < 2 ^ k
pow-pos zero = omega arith
pow-pos (suc k) = omega (arith, pow-suc 2 k, pow-pos k)

mod-double : (p x : ℕ) → 0 < p → x % (2 * p) ≡ x / 2 % p * 2 + x % 2
mod-double p x h = grind arith

mask_step : (p x : ℕ) → 0 < p → bit_and x (2 * p - 1) ≡ bit_and (x / 2) (p - 1) * 2 + x % 2
mask_step p x h =
    let half : (2 * p - 1) / 2 ≡ p - 1 = omega arith in
    ground (arith, bit_and_step x (2 * p - 1), half)

-- `x & (2^k - 1)` is the remainder of `x` by `2^k`.
pub bit_and_mask : (k x : ℕ) → bit_and x (2 ^ k - 1) ≡ x % 2 ^ k
bit_and_mask zero x = omega (arith, bit_and-zero x)
bit_and_mask (suc k) x = ground (
  arith,
  pow-suc 2 k,
  pow-pos k,
  mask_step (2 ^ k) x (pow-pos k),
  mod-double (2 ^ k) x (pow-pos k),
  bit_and_mask k (x / 2),
)

pow2_test_fuel : (n c : ℕ) → c ≤ n → 0 < c → bit_and c (c - 1) ≡ 0 → (k : ℕ) × (c ≡ 2 ^ k)
pow2_test_fuel zero c h p e = absurd (omega arith)
pow2_test_fuel (suc n) c h p e = elim (parity c) [
  | inl even ↦
      let below : (c - 1) / 2 ≡ c / 2 - 1 = omega arith in
      let half : bit_and (c / 2) (c / 2 - 1) ≡ 0 = ground (arith, bit_and_step c (c - 1), below) in
      let (k, eq) = pow2_test_fuel n (c / 2) (omega arith) (omega arith) half in
      (suc k, omega (arith, eq, pow-suc 2 k))
  | inr odd ↦
      let below : (c - 1) / 2 ≡ c / 2 = omega arith in
      (0, ground (arith, bit_and_step c (c - 1), below, bit_and_self (c / 2)))
]
  where
    parity : (c : ℕ) → (c % 2 ≡ 0) ⊎ (c % 2 ≡ 1)
    parity c = omega arith

-- `(c & (c - 1)) == 0` holds of the powers of two alone.
pub pow2_test : (c : ℕ) → 0 < c → bit_and c (c - 1) ≡ 0 → (k : ℕ) × (c ≡ 2 ^ k)
pow2_test c = pow2_test_fuel c c (omega arith)

mod_self : (p : ℕ) → 0 < p → p % p ≡ 0
mod_self p h = grind arith

-- It does hold of each of them.
pub pow2_test_pow : (k : ℕ) → bit_and (2 ^ k) (2 ^ k - 1) ≡ 0
pow2_test_pow k = bit_and_mask k (2 ^ k) ∙ mod_self (2 ^ k) (pow-pos k)
