-- ===== src/Subscription/Mask.antt =====
-- Masks of subtypes (`subtype_bit`, `mask_to_vec`, `|`, `& ~`) as sets of subtypes.
use Prim.Native.Nat.{bit_and, bit_or}
use native.Mathlib.Nat.{pow-suc}
use momo_hdb.Base.{
  ℕ, zero, suc, ◌-◌, ◌/◌, ◌^◌, ◌<◌, ◌≡◌, refl, Bool, true, false, not, ◌&&◌, ◌||◌, arith,
}
use momo_hdb.Base.{◌⊎◌, inl, inr, Option, none, some, List, [], ◌∷◌, ◌==◌, ==_iff}
use momo_hdb.Base.Bits.{pow-pos}
use momo_hdb.Base.BitTests.{
  bit, bit-lt, bit-bit_and, bit-bit_or, bit_complement, bit_and_pow, bit_or_step, zero-bit_or,
}
use momo_hdb.Subscription.{SubType, SubMask, subtype_bit, or_bits, mask_to_vec, pick, and_not}

abbrev pub subtype_eq : SubType → SubType → Bool
subtype_eq SubType.basic SubType.basic = true
subtype_eq SubType.order_book SubType.order_book = true
subtype_eq SubType.ticker SubType.ticker = true
subtype_eq SubType.kl_1min SubType.kl_1min = true
subtype_eq SubType.rt SubType.rt = true
subtype_eq SubType.broker SubType.broker = true
subtype_eq (SubType.other n) (SubType.other m) = n == m
subtype_eq _ _ = false

unfoldable pub contains : SubType → List SubType → Bool
contains t [] = false
contains t (u ∷ us) = subtype_eq u t || contains t us

-- The place of a subtype in a mask; only the six that the source names have one.
abbrev place : SubType → Option ℕ
place SubType.basic = some 0
place SubType.order_book = some 1
place SubType.ticker = some 2
place SubType.kl_1min = some 3
place SubType.rt = some 4
place SubType.broker = some 5
place (SubType.other n) = none

unfoldable pub is_named : SubType → Bool
is_named t = elim (place t) [ none ↦ false | some k ↦ true ]

-- Whether the mask has the subtype.
unfoldable pub wants : SubType → SubMask → Bool
wants t m = elim (place t) [ none ↦ false | some k ↦ bit k m == 1 ]

test_bit : (k m : ℕ) → (bit_and m (2 ^ k) == 0) ≡ not (bit k m == 1)
test_bit k m = elim (zero_or_one (bit k m) (bit-lt k m)) [
  | inl off ↦ ground (arith, bit_and_pow k m)
  | inr on ↦ ground (arith, bit_and_pow k m, pow-pos k)
]
  where
    zero_or_one : (b : ℕ) → b < 2 → (b ≡ 0) ⊎ (b ≡ 1)
    zero_or_one b h = omega arith

contains-pick :
    (t u : SubType) (m k : ℕ) (rest : List SubType)
    → contains t (pick m k u rest) ≡ ((bit k m == 1) && subtype_eq u t) || contains t rest
unfolding contains
contains-pick t u m k rest = ground (arith, test_bit k m)

-- The six tests of `mask_to_vec`, of which only the one at the place of `t` matters.
any_of : SubType → Bool → Bool → Bool → Bool → Bool → Bool → Bool
any_of t b0 b1 b2 b3 b4 b5 =
    (b0 && subtype_eq SubType.basic t)
    || ((b1 && subtype_eq SubType.order_book t)
        || ((b2 && subtype_eq SubType.ticker t)
            || ((b3 && subtype_eq SubType.kl_1min t)
                || ((b4 && subtype_eq SubType.rt t)
                    || ((b5 && subtype_eq SubType.broker t) || false)))))

any_of_place :
    (t : SubType) (m : SubMask)
    → any_of t
        (bit 0 m == 1)
        (bit 1 m == 1)
        (bit 2 m == 1)
        (bit 3 m == 1)
        (bit 4 m == 1)
        (bit 5 m == 1)
      ≡ wants t m
unfolding any_of wants
any_of_place SubType.basic m = ground arith
any_of_place SubType.order_book m = ground arith
any_of_place SubType.ticker m = ground arith
any_of_place SubType.kl_1min m = ground arith
any_of_place SubType.rt m = ground arith
any_of_place SubType.broker m = ground arith
any_of_place (SubType.other n) m = ground arith

-- `mask_to_vec` lists exactly the subtypes of the mask.
pub contains-mask_to_vec : (t : SubType) (m : SubMask) → contains t (mask_to_vec m) ≡ wants t m
unfolding mask_to_vec any_of contains
contains-mask_to_vec t m = simp contains-pick (any_of_place t m)

or_at : (k a b : ℕ) → (bit k (bit_or a b) == 1) ≡ (bit k a == 1) || (bit k b == 1)
or_at k a b = ground (arith, bit-bit_or k a b, bit-lt k a, bit-lt k b)

and_not_at :
    (k a b : ℕ)
    → k < 64
    → b < 2 ^ 64
    → (bit k (and_not a b) == 1) ≡ (bit k a == 1) && not (bit k b == 1)
and_not_at k a b hk hb =
    ground
      (arith, bit-bit_and k a (2 ^ 64 - 1 - b), bit_complement 64 k b hk hb, bit-lt k a, bit-lt k b)

pub wants-bit_or : (t : SubType) (a b : SubMask) → wants t (bit_or a b) ≡ wants t a || wants t b
unfolding wants
wants-bit_or SubType.basic a b = or_at 0 a b
wants-bit_or SubType.order_book a b = or_at 1 a b
wants-bit_or SubType.ticker a b = or_at 2 a b
wants-bit_or SubType.kl_1min a b = or_at 3 a b
wants-bit_or SubType.rt a b = or_at 4 a b
wants-bit_or SubType.broker a b = or_at 5 a b
wants-bit_or (SubType.other n) a b = refl

pub wants-and_not :
    (t : SubType) (a b : SubMask)
    → b < 2 ^ 64
    → wants t (and_not a b) ≡ wants t a && not (wants t b)
unfolding wants
wants-and_not SubType.basic a b h = and_not_at 0 a b (omega arith) h
wants-and_not SubType.order_book a b h = and_not_at 1 a b (omega arith) h
wants-and_not SubType.ticker a b h = and_not_at 2 a b (omega arith) h
wants-and_not SubType.kl_1min a b h = and_not_at 3 a b (omega arith) h
wants-and_not SubType.rt a b h = and_not_at 4 a b (omega arith) h
wants-and_not SubType.broker a b h = and_not_at 5 a b (omega arith) h
wants-and_not (SubType.other n) a b h = refl

pub wants_zero : (t : SubType) → wants t 0 ≡ false
unfolding wants
wants_zero SubType.basic = refl
wants_zero SubType.order_book = refl
wants_zero SubType.ticker = refl
wants_zero SubType.kl_1min = refl
wants_zero SubType.rt = refl
wants_zero SubType.broker = refl
wants_zero (SubType.other n) = refl

wants-subtype_bit : (t u : SubType) → wants t (subtype_bit u) ≡ is_named t && subtype_eq u t
unfolding wants subtype_bit is_named
wants-subtype_bit t u = ground arith

pub wants-or_bits :
    (t : SubType) (m : SubMask) (us : List SubType)
    → wants t (or_bits m us) ≡ wants t m || (is_named t && contains t us)
unfolding or_bits contains
wants-or_bits t m [] = ground arith
wants-or_bits t m (u ∷ us) = ground (
  arith,
  wants-or_bits t (bit_or m (subtype_bit u)) us,
  wants-bit_or t m (subtype_bit u),
  wants-subtype_bit t u,
)

pub bit_or-lt : (w a b : ℕ) → a < 2 ^ w → b < 2 ^ w → bit_or a b < 2 ^ w
bit_or-lt zero a b p q = let none_left : a ≡ 0 = omega arith in rw none_left (rw zero-bit_or q)
bit_or-lt (suc w) a b p q = omega (
  arith,
  pow-suc 2 w,
  bit_or_step a b,
  bit_or-lt w (a / 2) (b / 2) (omega (arith, pow-suc 2 w)) (omega (arith, pow-suc 2 w)),
)

subtype_bit-lt : (t : SubType) → subtype_bit t < 2 ^ 6
unfolding subtype_bit
subtype_bit-lt t = ground arith

pub or_bits-lt : (m : SubMask) (us : List SubType) → m < 2 ^ 6 → or_bits m us < 2 ^ 6
unfolding or_bits
or_bits-lt m [] h = h
or_bits-lt m (u ∷ us) h =
    or_bits-lt (bit_or m (subtype_bit u)) us (bit_or-lt 6 m (subtype_bit u) h (subtype_bit-lt u))

-- Whether the test succeeds at every number below the bound.
tried : (ℕ → Bool) → ℕ → Bool
tried test zero = true
tried test (suc bound) = tried test bound && test bound

tried→holds :
    (test : ℕ → Bool) {m : ℕ} (bound : ℕ) → m < bound → tried test bound ≡ true → test m ≡ true
unfolding tried
tried→holds test {m} zero below all = absurd (omega arith)
tried→holds test {m} (suc bound) below all = ground (arith, tried→holds test {m = m} bound)

restores : SubMask → Bool
restores m = or_bits 0 (mask_to_vec m) == m

restores_all : tried restores (2 ^ 6) ≡ true
unfolding tried restores or_bits mask_to_vec
restores_all = refl

-- The subtypes that `mask_to_vec` lists make up the mask again, if it has none but the six bits.
pub or_bits-mask_to_vec : (m : SubMask) → m < 2 ^ 6 → or_bits 0 (mask_to_vec m) ≡ m
unfolding restores
or_bits-mask_to_vec m h = (==_iff _ m).0 (tried→holds restores {m = m} (2 ^ 6) h restores_all)
