-- ===== src/Kfkpb/Setup.antt =====
-- The constructor of `KfkpbClient` (momo_subpb/src/kfkpb_core.cpp), its `ThreadCfg`, its destructor's
-- signals, and `popRaw`, whose waits are given as the queue and the flag that each round sees. Threads are
-- not started here: their loops are given round by round.
pub mod Rounding
pub mod Queues
use Prim.Native.Nat.{bit_or}
use momo_hdb.Base.{
  ℕ, zero, suc, ◌+◌, ◌-◌, ◌/◌, ◌%◌, ◌^◌, Bool, true, false, ltb, Option, none, some, List, [], ◌∷◌,
  map, replicate, if◌then◌else◌,
}
use momo_hdb.Ring.{Ring, make, try_pop}
use momo_hdb.Kfkpb.{Client, RawMsg, Event, moved_ptr}

-- `v |= v >> k`, with `p` for 2 ^ k.
abbrev pub fold_bits : ℕ → ℕ → ℕ
fold_bits p v = bit_or v (v / p)

unfoldable pub next_pow2 : ℕ → ℕ
next_pow2 v =
    let v1 = fold_bits (2 ^ 1) (v - 1) in
    let v2 = fold_bits (2 ^ 2) v1 in
    let v4 = fold_bits (2 ^ 4) v2 in
    let v8 = fold_bits (2 ^ 8) v4 in
    let v16 = fold_bits (2 ^ 16) v8 in
    let v32 = fold_bits (2 ^ 32) v16 in if ltb v 2 then 2 else (v32 + 1) % 2 ^ 64

pub record ThreadCfg : Type 0 where
  pub decode_threads : ℕ
  pub max_raw_queue : ℕ
  pub max_evt_queue : ℕ

abbrev pub default_cfg : ThreadCfg
default_cfg = record { decode_threads = 4; max_raw_queue = 20000; max_evt_queue = 20000 }

-- The vectors of queues, of which each is one `make_unique`; `none` is the exception of a queue's
-- constructor.
abbrev pub copies {ℓ} : {A : Type ℓ} → ℕ → Option A → Option (List A)
copies zero q = some []
copies (suc n) none = none
copies (suc n) (some q) = some (replicate (suc n) q)

abbrev pub started : ℕ → List (Ring (Option RawMsg)) → List (Ring (Option Event)) → Client
started n raws evts = record {
  topic_types = [];
  seek_from_ms = none;
  cfg_epoch = 0;
  raw_qs = raws;
  raw_epochs = replicate n 0;
  evt_qs = evts;
  drain_rr = 0;
  fallback_rr = 0;
}

abbrev pub with_queues :
    ℕ → Option (List (Ring (Option RawMsg))) → Option (List (Ring (Option Event))) → Option Client
with_queues n none evts = none
with_queues n (some raws) none = none
with_queues n (some raws) (some evts) = some (started n raws evts)

unfoldable pub make_client : ThreadCfg → Option Client
make_client cfg =
    let raw_cap = next_pow2 ((cfg.max_raw_queue + 1) % 2 ^ 64) in
    let evt_cap = next_pow2 ((cfg.max_evt_queue + 1) % 2 ^ 64) in
    with_queues cfg.decode_threads (copies cfg.decode_threads (make none raw_cap))
      (copies cfg.decode_threads (make none evt_cap))

-- What the destructor does to the epochs, so that every waiting worker wakes.
unfoldable pub wake_all : Client → Client
wake_all c = record c { raw_epochs = map (λ epoch. (epoch + 1) % 2 ^ 64) c.raw_epochs }

-- The rounds of `popRaw`, each with the stop flag and the queue that it sees; `none` is a return of false.
-- A round that finds the queue empty waits, and the next round sees what the wait ended with.
unfoldable pub pop_raw :
    List (Bool × Ring (Option RawMsg)) → Option (Option RawMsg × Ring (Option RawMsg))
pop_raw [] = none
pop_raw ((stopped, q) ∷ rest) =
    let (got, m, q') = try_pop moved_ptr none q in
    let later = pop_raw rest in if stopped then none else if got then some (m, q') else later
