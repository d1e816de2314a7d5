-- ===== src/Kfkpb/Setup/Queues.antt =====
-- The queues of a new client.
use momo_hdb.Base.{
  ℕ, zero, suc, ◌+◌, ◌%◌, ◌^◌, ◌≤◌, ◌<◌, ◌≡◌, refl, ap, ◌∙◌, Option, none, some, [], length,
  length-replicate, All, replicate, arith, inl, inr,
}
use momo_hdb.Ring.{Ring, make, size_mod}
use momo_hdb.Ring.Inv.{make_pow2}
use momo_hdb.Ring.Refine.{Holds}
use momo_hdb.Ring.Batch.{make-Holds, make-cap}
use momo_hdb.Kfkpb.{Client, RawMsg, Event}
use momo_hdb.Kfkpb.Setup
use momo_hdb.Kfkpb.Setup.Rounding.{IsLeast, next_pow2_lem}

-- An empty queue with room for `n` elements.
abbrev pub HasRoom : {A : Type 0} → ℕ → Ring (Option A) → Type 0
HasRoom n q = Holds q [] × (n < q.cap)

record Made {A : Type 0} (n : ℕ) (o : Option (Ring (Option A))) : Type 0 where
  ring : Ring (Option A)
  is_made : o ≡ some ring
  has_room : HasRoom n ring

in_word : (v p : ℕ) → v ≤ 2 ^ 63 → IsLeast v p → p < size_mod
in_word v p small least = elim least.tight [
  | inl two ↦ omega (arith, two)
  | inr lt ↦ omega (arith, lt)
]

queue-Made :
    {A : Type 0} (n : ℕ)
    → n < 2 ^ 63
    → Made {A = A} n (make none (Setup.next_pow2 ((n + 1) % 2 ^ 64)))
queue-Made {A} n small =
    let whole : (n + 1) % 2 ^ 64 ≡ n + 1 = omega arith in
    let cap = Setup.next_pow2 ((n + 1) % 2 ^ 64) in
    let least : IsLeast ((n + 1) % 2 ^ 64) cap = next_pow2_lem ((n + 1) % 2 ^ 64) (omega arith) in
    let word : cap < size_mod = in_word ((n + 1) % 2 ^ 64) cap (omega arith) least in
    let blank : Option A = none in
    let made =
      ap (make blank) least.power
      ∙ make_pow2 blank least.exponent (omega (arith, least.power, least.two))
          (omega (arith, least.power, word)) in
    record {
      ring = _;
      is_made = made;
      has_room =
          (make-Holds blank cap word made, omega (arith, make-cap blank cap made, least.room));
    }

copies_lem : {A : Type 0} (n : ℕ) (q : A) → Setup.copies n (some q) ≡ some (replicate n q)
copies_lem zero q = refl
copies_lem (suc n) q = refl

All-replicate : {A : Type 0} (P : A → Type 0) (n : ℕ) (q : A) → P q → All P (replicate n q)
All-replicate P zero q h = tt
All-replicate P (suc n) q h = (h, All-replicate P n q h)

-- For queue bounds below 2 ^ 63 the client is made, with as many queues of each kind as decoder threads,
-- each empty and with room for its bound.
pub make_client_lem :
    (cfg : Setup.ThreadCfg)
    → cfg.max_raw_queue < 2 ^ 63
    → cfg.max_evt_queue < 2 ^ 63
    → (c : Client) × (Setup.make_client cfg ≡ some c)
      × (length c.raw_qs ≡ cfg.decode_threads)
      × (length c.evt_qs ≡ cfg.decode_threads)
      × All (HasRoom cfg.max_raw_queue) c.raw_qs
      × All (HasRoom cfg.max_evt_queue) c.evt_qs
unfolding Setup.make_client
make_client_lem cfg raw_small evt_small =
    let raw = queue-Made {A = RawMsg} cfg.max_raw_queue raw_small in
    let evt = queue-Made {A = Event} cfg.max_evt_queue evt_small in
    let n = cfg.decode_threads in
    (
      Setup.started n (replicate n raw.ring) (replicate n evt.ring),
      rw (raw.is_made, evt.is_made, copies_lem n raw.ring, copies_lem n evt.ring) refl,
      length-replicate n raw.ring,
      length-replicate n evt.ring,
      All-replicate (HasRoom cfg.max_raw_queue) n raw.ring raw.has_room,
      All-replicate (HasRoom cfg.max_evt_queue) n evt.ring evt.has_room,
    )
