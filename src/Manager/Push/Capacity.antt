-- ===== src/Manager/Push/Capacity.antt =====
-- The size of the inbox: `next_pow2`, and the constructor that uses it.
use momo_hdb.Base.{ℕ, zero, suc, ◌+◌, ◌*◌, ◌%◌, ◌^◌, ◌≤◌, ◌<◌, ◌≡◌, refl, ap, ◌∙◌, inl, inr, false}
use momo_hdb.Base.{some, [], ltb, ltb→lt, Bool-cases, arith}
use momo_hdb.Base.Bits.{pow-pos}
use native.Mathlib.Nat.{pow-suc}
use momo_hdb.Ring.{Ring, make, size_mod}
use momo_hdb.Ring.Inv.{make_pow2}
use momo_hdb.Ring.Refine.{Holds}
use momo_hdb.Ring.Batch.{make-Holds, make-cap}
use momo_hdb.Downstream.{Envelope}
use momo_hdb.Manager.{Options}
use momo_hdb.Manager.Push

-- A power of two that is `v` at least, and that a word holds.
record IsRoom (v p : ℕ) : Type 0 where
  exponent : ℕ
  power : p ≡ 2 ^ exponent
  room : v ≤ p
  word : p ≤ 2 ^ 63

le_times : (p t : ℕ) → 0 < t → p ≤ p * t
le_times p zero h = elim h [ ]
le_times p (suc t) h = grind arith

times_step : (p t u : ℕ) → u ≡ t * 2 → p * 2 * t ≡ p * u
times_step p t u e = grind arith

-- `t` is how often `p` still goes into 2 ^ 63.
next_pow2_loop_lem :
    (fuel v p j i : ℕ)
    → v ≤ 2 ^ 63
    → p ≡ 2 ^ j
    → p * 2 ^ i ≡ 2 ^ 63
    → v ≤ p + fuel
    → IsRoom v (Push.next_pow2_loop fuel v p)
unfolding Push.next_pow2_loop
next_pow2_loop_lem zero v p j i small eq word enough = record {
  exponent = j;
  power = eq;
  room = omega arith;
  word = omega (arith, le_times p (2 ^ i) (pow-pos i));
}
next_pow2_loop_lem (suc fuel) v p j zero small eq word enough =
    let found : ltb p v ≡ false = ground arith in
    rw found (record { exponent = j; power = eq; room = ground arith; word = omega arith })
next_pow2_loop_lem (suc fuel) v p j (suc i) small eq word enough = elim (Bool-cases (ltb p v)) [
  | inl more ↦
      let lt = ltb→lt p v more in
      let same : p * 2 % 2 ^ 64 ≡ p * 2 = omega arith in
      let left : p * 2 * 2 ^ i ≡ 2 ^ 63 = times_step p (2 ^ i) (2 ^ suc i) (pow-suc 2 i) ∙ word in
      let rest =
        next_pow2_loop_lem fuel v (p * 2) (suc j) i small (omega (arith, pow-suc 2 j, eq)) left
          (omega (arith, pow-pos j)) in
      rw more (rw same rest)
  | inr found ↦ rw found (record {
    exponent = j;
    power = eq;
    room = ground arith;
    word = omega (arith, le_times p (2 ^ suc i) (pow-pos (suc i)));
  })
]

next_pow2_lem : (v : ℕ) → v ≤ 2 ^ 63 → IsRoom v (Push.next_pow2 v) × (2 ≤ Push.next_pow2 v)
unfolding Push.next_pow2
next_pow2_lem v small = elim (Bool-cases (ltb v 2)) [
  | inl below ↦
      let lt = ltb→lt v 2 below in
      rw below
        (record { exponent = 1; power = refl; room = omega arith; word = omega arith }, omega arith)
  | inr above ↦
      let room = next_pow2_loop_lem v v 1 0 63 small refl refl (omega arith) in
      rw above (room, at_least (ground arith) room.room)
]
  where
    at_least : {p : ℕ} → 2 ≤ v → v ≤ p → 2 ≤ p
    at_least two h = omega arith

-- The constructor gives the manager an empty inbox of at least the configured capacity, for any
-- capacity up to 2 ^ 63, so that the queue's own constructor never throws there.
pub new_inbox_lem :
    (blank : Envelope) (opts : Options)
    → opts.capacity ≤ 2 ^ 63
    → (r : Ring Envelope) × (Push.new_inbox blank opts ≡ some r)
      × Holds r []
      × (opts.capacity ≤ r.cap)
unfolding Push.new_inbox
new_inbox_lem blank opts small =
    let (room, two) = next_pow2_lem opts.capacity small in
    let made =
      make_pow2 blank room.exponent (omega (arith, room.power))
        (omega (arith, room.power, room.word)) in
    let made' = ap (make blank) room.power ∙ made in
    let word : Push.next_pow2 opts.capacity < size_mod = omega (arith, room.word) in
    (
      _,
      made',
      make-Holds blank (Push.next_pow2 opts.capacity) word made',
      omega (arith, room.room, make-cap blank (Push.next_pow2 opts.capacity) made'),
    )
