-- ===== src/Ring/Inv.antt =====
-- What every ring that the constructor accepts is, and what each operation keeps.
use Prim.Native.Nat.{bit_and}
use native.Mathlib.Nat.{mod-eq_of_lt}
use momo_hdb.Base.{ℕ, suc, ◌+◌, ◌-◌, ◌%◌, ◌^◌, ◌≤◌, ◌<◌, ◌≡◌, ◌≢◌, ◌∙◌, arith}
use momo_hdb.Base.{length, some, ltb, if◌then◌else◌, replicate, length-replicate, ◌⊎◌, inl, inr}
use momo_hdb.Base.Bits.{bit_and_mask, pow2_test, pow2_test_pow}
use momo_hdb.Ring.{Ring, size_mod, next_index, make}

-- The index that follows `i` in a ring of `cap` slots, and the one `d` places on.
unfoldable pub ahead : ℕ → ℕ → ℕ → ℕ
ahead cap i d = if ltb (i + d) cap then i + d else i + d - cap

pub ahead-lt : (cap i d : ℕ) → i < cap → d < cap → ahead cap i d < cap
unfolding ahead
ahead-lt cap i d h k = ground arith

pub ahead_zero : (cap i : ℕ) → i < cap → ahead cap i 0 ≡ i
unfolding ahead
ahead_zero cap i h = ground arith

pub ahead-suc :
    (cap i d : ℕ) → i < cap → suc d ≤ cap → ahead cap i (suc d) ≡ ahead cap (ahead cap i 1) d
unfolding ahead
ahead-suc cap i d h k = ground arith

pub ahead_next :
    (cap i d : ℕ) → i < cap → suc d ≤ cap → ahead cap (ahead cap i d) 1 ≡ ahead cap i (suc d)
unfolding ahead
ahead_next cap i d h k = ground arith

-- All the way round.
pub ahead_round : (cap i d : ℕ) → i < cap → suc d ≡ cap → ahead cap i (suc d) ≡ i
unfolding ahead
ahead_round cap i d h k = ground arith

-- Fewer than `cap` places on is another index.
pub ahead-ne : (cap i d : ℕ) → i < cap → suc d < cap → ahead cap i (suc d) ≢ i
unfolding ahead
ahead-ne cap i d h k = ground arith

pub record IsValid {ℓ} {T : Type ℓ} (r : Ring T) : Type ℓ where
  pub two : 2 ≤ r.cap
  pub word : r.cap < size_mod
  pub masked : (x : ℕ) → bit_and x r.mask ≡ x % r.cap
  pub slots : length r.buf ≡ r.cap
  pub head_in : r.head < r.cap
  pub tail_in : r.tail < r.cap

mod_self : (p : ℕ) → 0 < p → p % p ≡ 0
mod_self p h = grind arith

wrap_mod : (cap i : ℕ) → i < cap → (i + 1) % cap ≡ ahead cap i 1
unfolding ahead
wrap_mod cap i h = elim (full cap i h) [
  | inl e ↦ rw e (mod_self cap (omega arith) ∙ ground arith)
  | inr lt ↦ mod-eq_of_lt lt ∙ ground arith
]
  where
    full : (cap i : ℕ) → i < cap → (i + 1 ≡ cap) ⊎ (i + 1 < cap)
    full cap i h = omega arith

module _ {ℓ} {T : Type ℓ} where
  -- The masked increment goes round the ring, and the addition does not wrap.
  pub next_index_lem :
      {r : Ring T} (i : ℕ) → IsValid r → i < r.cap → next_index r i ≡ ahead r.cap i 1
  unfolding next_index
  next_index_lem {r} i v h =
      let small : (i + 1) % size_mod ≡ i + 1 = omega (arith, v.word) in
      rw small (v.masked (i + 1) ∙ wrap_mod r.cap i h)

  abbrev fresh : T → ℕ → Ring T
  fresh blank capacity = record {
    cap = capacity;
    mask = capacity - 1;
    buf = replicate capacity blank;
    head = 0;
    tail = 0;
  }

  make_accepts :
      (blank : T) (capacity : ℕ) {r : Ring T}
      → 2 ≤ capacity
      → capacity < size_mod
      → make blank capacity ≡ some r
      → (bit_and capacity (capacity - 1) ≡ 0) × (r ≡ fresh blank capacity)
  unfolding make
  make_accepts blank capacity two word e =
      let pred : (capacity + size_mod - 1) % size_mod ≡ capacity - 1 = omega arith in
      ground (arith, pred)

  fresh-IsValid :
      (blank : T) (capacity : ℕ)
      → 2 ≤ capacity
      → capacity < size_mod
      → bit_and capacity (capacity - 1) ≡ 0
      → IsValid (fresh blank capacity)
  fresh-IsValid blank capacity two word e =
      let (k, pow) = pow2_test capacity (omega arith) e in
      record {
        two = two;
        word = word;
        masked = λ x. rw pow (bit_and_mask k x);
        slots = length-replicate capacity blank;
        head_in = omega arith;
        tail_in = omega arith;
      }

  make_two : (blank : T) (capacity : ℕ) {r : Ring T} → make blank capacity ≡ some r → 2 ≤ capacity
  unfolding make
  make_two blank capacity e = ground arith

  -- Every ring that the constructor makes is valid: its capacity is a power of two from 2 on, so that
  -- masking is the remainder by the capacity, and both indices lie inside the slots.
  pub make-IsValid :
      (blank : T) (capacity : ℕ) {r : Ring T}
      → capacity < size_mod
      → make blank capacity ≡ some r
      → IsValid r
  make-IsValid blank capacity word e =
      let two : 2 ≤ capacity = make_two blank capacity e in
      let (test, eq) = make_accepts blank capacity two word e in
      rw eq (fresh-IsValid blank capacity two word test)

  -- The constructor accepts each power of two from 2 to 2 ^ 63, and starts it with both indices at 0.
  pub make_pow2 :
      (blank : T) (k : ℕ)
      → 2 ≤ 2 ^ k
      → 2 ^ k < size_mod
      → make blank (2 ^ k) ≡ some (fresh blank (2 ^ k))
  unfolding make
  make_pow2 blank k two word =
      let pred : (2 ^ k + size_mod - 1) % size_mod ≡ 2 ^ k - 1 = omega arith in
      ground (arith, pred, pow2_test_pow k)
