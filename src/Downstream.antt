-- ===== src/Downstream.antt =====
-- momo_feed/{include,src}/runtime/Dispatcher: `ISink` and `QueuedDownstream`, a queue with a worker
-- thread that hands its messages to a sink; momo_common/include/Envelope.hpp.
-- A `std::shared_ptr<const Envelope>` is an optional envelope, and a moved-from one is null. The
-- worker's loop is given round by round (`round`), so that a list of events is an interleaving of
-- the threads that call `submit` and `flush` with the worker; each call of `submit` and
-- each round is one step here. While the queue has room a submit is one push, and `Ring.Threads` looks
-- inside it and the pops; at a full queue `submit` is three queue operations, which the worker's pops
-- can come into: the steps here leave these interleavings out, and Ring.Race has one of them.
pub mod Delivery
pub mod Guarantees
pub mod Room
use momo_hdb.Base.{ℕ, zero, suc, Bool, true, false, Option, none, some, List, [], ◌∷◌}
use momo_hdb.Base.{Text, if◌then◌else◌}
use momo_hdb.Base.Int.{ℤ}
use momo_hdb.Ring.{Ring, make, try_pop}
use momo_hdb.Ring.Overflow.{push_or_drop}

pub record Envelope : Type 0 where
  pub topic : Text
  pub key : Text
  pub payload : Text
  pub ts_ns : ℤ

-- `std::shared_ptr<const Envelope>`
abbrev pub Pointer : Type 0
Pointer = Option Envelope

abbrev pub moved_pointer : Pointer → Pointer
moved_pointer p = none

-- The virtual functions of `ISink`, over the sink's own state.
pub record ISink (S : Type 0) : Type 0 where
  pub submit : Pointer → S → S
  pub flush : ℤ → S → S

-- `worker` says whether the thread is joinable.
pub record Downstream (S : Type 0) : Type 0 where
  pub name : Text
  pub sink : S
  pub q : Ring Pointer
  pub running : Bool
  pub worker : Bool

abbrev pub queue_slots : ℕ
queue_slots = 8192

with_queue : {S : Type 0} → Text → S → Option (Ring Pointer) → Option (Downstream S)
with_queue name sink none = none
with_queue name sink (some r) =
    some (record { name = name; sink = sink; q = r; running = false; worker = false })

-- The constructor, with the queue's own.
unfoldable pub new_downstream : {S : Type 0} → Text → S → Option (Downstream S)
unfolding with_queue
new_downstream name sink = with_queue name sink (make none queue_slots)

unfoldable pub start : {S : Type 0} → Downstream S → Downstream S
start d = record d { running = true; worker = true }

-- `submit`, run to its end.
unfoldable pub submit : {S : Type 0} → Pointer → Downstream S → Downstream S
submit e d = record d { q = push_or_drop moved_pointer none e d.q }

module _ {S : Type 0} (api : ISink S) where
  unfoldable pub flush : ℤ → Downstream S → Downstream S
  flush timeout_ms d = record d { sink = api.flush timeout_ms d.sink }

  -- `if (q_.try_pop(e)) sink_->submit(std::move(e));` and whether it popped.
  unfoldable pub pop_one : Downstream S → Bool × Downstream S
  pop_one d =
      let (got, e, q') = try_pop moved_pointer none d.q in
      if got
      then (true, record d { q = q'; sink = api.submit e d.sink })
      else (false, record d { q = q' })

  -- One round of the first loop of `loop`; a round that finds nothing sleeps.
  unfoldable pub round : Downstream S → Downstream S
  round d = if d.running then (pop_one d).1 else d

  -- The second loop: what is left in the queue goes to the sink.
  unfoldable pub drain : ℕ → Downstream S → Downstream S
  drain zero d = d
  drain (suc fuel) d =
      let (got, d') = pop_one d in let rest = drain fuel d' in if got then rest else d'

  -- `stop`: the worker sees the flag, empties the queue and is joined.
  unfoldable pub stop : Downstream S → Downstream S
  stop d =
      let d' = record d { running = false } in
      if d.worker then record (drain queue_slots d') { worker = false } else d'

-- What happens to a running downstream, one event at a time.
pub data Event : Type 0 where
  submitted : Pointer → Event
  flushed : ℤ → Event
  worked : Event

module _ {S : Type 0} (api : ISink S) where
  unfoldable pub handle : Event → Downstream S → Downstream S
  handle (submitted e) d = submit e d
  handle (flushed t) d = flush api t d
  handle worked d = round api d

  unfoldable pub run : List Event → Downstream S → Downstream S
  run [] d = d
  run (ev ∷ evs) d = run evs (handle ev d)
