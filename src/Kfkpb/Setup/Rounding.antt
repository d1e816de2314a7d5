-- ===== src/Kfkpb/Setup/Rounding.antt =====
-- `next_pow2` by its bits.
use Prim.Native.Nat.{bit_or}
use momo_hdb.Base.{
  ℕ, zero, suc, ◌+◌, ◌-◌, ◌*◌, ◌/◌, ◌%◌, ◌^◌, ◌≤◌, ◌<◌, ◌≡◌, ◌⊎◌, inl, inr, refl, ap, sym, ◌∙◌,
  arith, ltb, Bool-cases,
}
use momo_hdb.Base.Bits.{pow-pos, by_halves}
use momo_hdb.Base.BitTests.{
  bit, bit-lt, bit-bit_or, bit_or_step, zero-bit_or, bit_complement, eq_of_bits,
}
use native.Mathlib.Nat.{pow-suc}
use momo_hdb.Kfkpb.Setup

div-double : (p x : ℕ) → 0 < p → x / (2 * p) ≡ x / 2 / p
div-double p x h = grind arith

bit-shift : (s i v : ℕ) → bit i (v / 2 ^ s) ≡ bit (i + s) v
bit-shift zero i v =
    let whole : v / 2 ^ 0 ≡ v = omega arith in
    let here : i + 0 ≡ i = omega arith in ap (bit i) whole ∙ ap (λ (j : ℕ). bit j v) (sym here)
bit-shift (suc s) i v =
    let double : 2 ^ suc s ≡ 2 * 2 ^ s = omega (arith, pow-suc 2 s) in
    let there : suc (i + s) ≡ i + suc s = omega arith in
    ap (λ (p : ℕ). bit i (v / p)) double
    ∙ ap (bit i) (div-double (2 ^ s) v (pow-pos s))
    ∙ bit-shift s i (v / 2)
    ∙ ap (λ (j : ℕ). bit j v) there

bit_or-lt : (w a b : ℕ) → a < 2 ^ w → b < 2 ^ w → bit_or a b < 2 ^ w
bit_or-lt zero a b p q =
    let none_set : a ≡ 0 = omega arith in rw none_set (omega (arith, zero-bit_or b))
bit_or-lt (suc w) a b p q = omega (
  arith,
  bit_or_step a b,
  pow-suc 2 w,
  bit_or-lt w (a / 2) (b / 2) (omega (arith, pow-suc 2 w)) (omega (arith, pow-suc 2 w)),
)

-- The highest bit of a number that is not 0.
record HighBit (v : ℕ) : Type 0 where
  at : ℕ
  is_set : bit at v ≡ 1
  least : 2 ^ at ≤ v
  below : v < 2 ^ suc at

high_bit : (v : ℕ) → 0 < v → HighBit v
high_bit = by_halves (λ v. 0 < v → HighBit v) (λ h. absurd (omega arith)) step
  where
    step : (x : ℕ) → (0 < suc x / 2 → HighBit (suc x / 2)) → 0 < suc x → HighBit (suc x)
    step zero ih h = record { at = 0; is_set = refl; least = omega arith; below = omega arith }
    step (suc x) ih h =
        let half = ih (omega arith) in
        record {
          at = suc half.at;
          is_set = half.is_set;
          least = omega (arith, pow-suc 2 half.at, half.least);
          below = omega (arith, pow-suc 2 half.at, pow-suc 2 (suc half.at), half.below);
        }

-- The highest bit is at `n`, and the `s` bits from there down are set.
record IsFilled (n s x : ℕ) : Type 0 where
  below : x < 2 ^ suc n
  ones : (i : ℕ) → i ≤ n → n < i + s → bit i x ≡ 1

div-lt : (p x y : ℕ) → 0 < p → x < y → x / p < y
div-lt p x y h lt = grind arith

fold_bits-IsFilled : (n s x : ℕ) → IsFilled n s x → IsFilled n (s + s) (Setup.fold_bits (2 ^ s) x)
fold_bits-IsFilled n s x f = record {
  below =
      bit_or-lt (suc n) x (x / 2 ^ s) f.below (div-lt (2 ^ s) x (2 ^ suc n) (pow-pos s) f.below);
  ones = ones;
}
  where
    either : (i : ℕ) → (n < i + s) ⊎ (i + s ≤ n)
    either i = omega arith

    ones : (i : ℕ) → i ≤ n → n < i + (s + s) → bit i (bit_or x (x / 2 ^ s)) ≡ 1
    ones i le lt = elim (either i) [
      | inl near ↦ omega (arith, bit-bit_or i x (x / 2 ^ s), bit-lt i (x / 2 ^ s), f.ones i le near)
      | inr far ↦ omega (
        arith,
        bit-bit_or i x (x / 2 ^ s),
        bit-lt i x,
        bit-shift s i x,
        f.ones (i + s) far (omega arith),
      )
    ]

bit-zero : (i : ℕ) → bit i 0 ≡ 0
bit-zero zero = refl
bit-zero (suc i) = bit-zero i

IsFilled-all : (n x : ℕ) → n < 64 → IsFilled n 64 x → x + 1 ≡ 2 ^ suc n
IsFilled-all n x small f =
    let all : x ≡ 2 ^ suc n - 1 - 0 =
      eq_of_bits (suc n) x (2 ^ suc n - 1 - 0) f.below (omega (arith, pow-pos (suc n))) (λ i lt.
        omega (
          arith,
          f.ones i (omega arith) (omega arith),
          bit_complement (suc n) i 0 (omega arith) (pow-pos (suc n)),
          bit-zero i,
        )) in
    omega (arith, pow-pos (suc n))

-- A power of two with room for `v`, the least that a queue takes.
pub record IsLeast (v p : ℕ) : Type 0 where
  pub exponent : ℕ
  pub power : p ≡ 2 ^ exponent
  pub two : 2 ≤ p
  pub room : v ≤ p
  pub tight : (p ≡ 2) ⊎ (p < v + v)

filled :
    (n u : ℕ)
    → n < 64
    → bit n u ≡ 1
    → u < 2 ^ suc n
    → let v1 = Setup.fold_bits (2 ^ 1) u in
      let v2 = Setup.fold_bits (2 ^ 2) v1 in
      let v4 = Setup.fold_bits (2 ^ 4) v2 in
      let v8 = Setup.fold_bits (2 ^ 8) v4 in
      let v16 = Setup.fold_bits (2 ^ 16) v8 in Setup.fold_bits (2 ^ 32) v16 + 1 ≡ 2 ^ suc n
filled n u small set below =
    let one : IsFilled n 1 u = record {
      below = below;
      ones = λ i le lt. let here : i ≡ n = omega arith in rw here set;
    } in
    let v1 = Setup.fold_bits (2 ^ 1) u in
    let v2 = Setup.fold_bits (2 ^ 2) v1 in
    let v4 = Setup.fold_bits (2 ^ 4) v2 in
    let v8 = Setup.fold_bits (2 ^ 8) v4 in
    let v16 = Setup.fold_bits (2 ^ 16) v8 in
    IsFilled-all n (Setup.fold_bits (2 ^ 32) v16) small (
      fold_bits-IsFilled n 32 v16 (
        fold_bits-IsFilled n 16 v8 (
          fold_bits-IsFilled n 8 v4 (
            fold_bits-IsFilled n 4 v2 (fold_bits-IsFilled n 2 v1 (fold_bits-IsFilled n 1 u one))))))

pow-le : (a b : ℕ) → a ≤ b → 2 ^ a ≤ 2 ^ b
pow-le zero b le = omega (arith, pow-pos b)
pow-le (suc a) zero le = absurd (omega arith)
pow-le (suc a) (suc b) le = omega (arith, pow-suc 2 a, pow-suc 2 b, pow-le a b (omega arith))

exponent-lt : (a b : ℕ) → 2 ^ a < 2 ^ b → a < b
exponent-lt a b lt = elim (le_or_lt b a) [
  | inl le ↦ absurd (omega (arith, pow-le b a le))
  | inr less ↦ less
]
  where
    le_or_lt : (m n : ℕ) → (m ≤ n) ⊎ (n < m)
    le_or_lt m n = omega arith

-- Up to 2 ^ 63, `next_pow2` gives a power of two with room for the argument: 2, or one that is less
-- than twice the argument.
pub next_pow2_lem : (v : ℕ) → v ≤ 2 ^ 63 → IsLeast v (Setup.next_pow2 v)
unfolding Setup.next_pow2
next_pow2_lem v small = elim (Bool-cases (ltb v 2)) [
  | inl tiny ↦ rw tiny (record {
    exponent = 1;
    power = omega arith;
    two = omega arith;
    room = ground (arith, tiny);
    tight = inl refl;
  })
  | inr more ↦
      let some_bit : 0 < v - 1 = ground (arith, more) in
      let top = high_bit (v - 1) some_bit in
      let low : top.at < 63 = exponent-lt top.at 63 (omega (arith, top.least)) in
      let all = filled top.at (v - 1) (omega (arith, low)) top.is_set top.below in
      let fits : 2 ^ suc top.at ≤ 2 ^ 63 = pow-le (suc top.at) 63 low in
      let value : (2 ^ suc top.at) % 2 ^ 64 ≡ 2 ^ suc top.at = omega (arith, fits) in
      rw (more, all, value)
        (record {
          exponent = suc top.at;
          power = refl;
          two = omega (arith, pow-suc 2 top.at, pow-pos top.at);
          room = omega (arith, top.below);
          tight = inr (omega (arith, pow-suc 2 top.at, top.least));
        })
]
