-- ===== src/Kfkpb/Wake.antt =====
-- One decoder thread of `KfkpbClient` (momo_subpb/src/kfkpb_core.cpp) with the two threads that wake it: the
-- consumer thread in `pushRaw` and the thread in the destructor. A step is one access to what they
-- share. A push to the queue is one step, since Ring.Threads and Ring.Race are about its insides, and
-- pushes to the other workers change nothing here. `std::atomic_wait` returns only once the epoch is
-- not the value given, so a notification has no step of its own: a wait may return as soon as that
-- holds, notified or not.
pub mod Asleep
pub mod Orderly
pub mod Countdown
pub mod Quits
use momo_hdb.Base.{ℕ, ◌+◌, ◌%◌, ◌^◌, Bool, true, false, ◌≡◌, ◌≢◌, Option, none, some}
use momo_hdb.Base.{List, [], ◌∷◌, ◌++◌}
use momo_hdb.Ring.{Ring, try_pop}
use momo_hdb.Ring.Overflow.{push_or_drop}
use momo_hdb.Kfkpb.{RawMsg, moved_ptr}

-- Where the decoder thread stands: before the test of `stop_` in `decodeLoop` (`outer`) or in `popRaw`
-- (`inner`), before `try_pop`, before the load of the epoch, in the wait with its local `seen`, at
-- work on a message, or out of its loop.
pub data Worker : Type 0 where
  outer inner popping reading working finished : Worker
  waiting : ℕ → Worker

-- Where the consumer thread stands: in its own loop, between the queue and the epoch in `pushRaw`, or out
-- of its loop.
pub data Feeder : Type 0 where
  polling pushed gone : Feeder

-- Where the destructor stands.
pub data Closer : Type 0 where
  alive announcing joining_consumer joining_worker closed : Closer

pub record Threads : Type 0 where
  pub stop : Bool
  pub queue : Ring (Option RawMsg)
  pub epoch : ℕ
  pub worker : Worker
  pub feeder : Feeder
  pub closer : Closer
  pub taken : List (Option RawMsg)

unfoldable pub next_epoch : ℕ → ℕ
next_epoch epoch = (epoch + 1) % 2 ^ 64

-- `popRaw`, called from the loop of `decodeLoop`.
pub data WorkerStep : Threads → Threads → Type 0 where
  loop_on :
      (s : Threads) → s.worker ≡ outer → s.stop ≡ false → WorkerStep s (record s { worker = inner })
  loop_off :
      (s : Threads)
      → s.worker ≡ outer
      → s.stop ≡ true
      → WorkerStep s (record s { worker = finished })
  pop_on :
      (s : Threads)
      → s.worker ≡ inner
      → s.stop ≡ false
      → WorkerStep s (record s { worker = popping })
  pop_off :
      (s : Threads) → s.worker ≡ inner → s.stop ≡ true → WorkerStep s (record s { worker = outer })
  popped :
      (s : Threads) (m : Option RawMsg) (rest : Ring (Option RawMsg))
      → s.worker ≡ popping
      → try_pop moved_ptr none s.queue ≡ (true, m, rest)
      → WorkerStep s (record s { queue = rest; worker = working; taken = s.taken ++ (m ∷ []) })
  found_empty :
      (s : Threads) (m : Option RawMsg) (rest : Ring (Option RawMsg))
      → s.worker ≡ popping
      → try_pop moved_ptr none s.queue ≡ (false, m, rest)
      → WorkerStep s (record s { queue = rest; worker = reading })
  load_epoch :
      (s : Threads) → s.worker ≡ reading → WorkerStep s (record s { worker = waiting s.epoch })
  wait_returns :
      (s : Threads) (seen : ℕ)
      → s.worker ≡ waiting seen
      → s.epoch ≢ seen
      → WorkerStep s (record s { worker = inner })
  handled : (s : Threads) → s.worker ≡ working → WorkerStep s (record s { worker = outer })

-- `pushRaw` to this worker, called from the loop of `consumerLoop`.
pub data FeederStep : Threads → Threads → Type 0 where
  push :
      (s : Threads) (m : RawMsg)
      → s.feeder ≡ polling
      → FeederStep s
          (record s { queue = push_or_drop moved_ptr none (some m) s.queue; feeder = pushed })
  count :
      (s : Threads)
      → s.feeder ≡ pushed
      → FeederStep s (record s { epoch = next_epoch s.epoch; feeder = polling })
  leave :
      (s : Threads) → s.feeder ≡ polling → s.stop ≡ true → FeederStep s (record s { feeder = gone })

-- The destructor, up to the end of its joins.
pub data CloserStep : Threads → Threads → Type 0 where
  set_stop :
      (s : Threads)
      → s.closer ≡ alive
      → CloserStep s (record s { stop = true; closer = announcing })
  announce :
      (s : Threads)
      → s.closer ≡ announcing
      → CloserStep s (record s { epoch = next_epoch s.epoch; closer = joining_consumer })
  join_consumer :
      (s : Threads)
      → s.closer ≡ joining_consumer
      → s.feeder ≡ gone
      → CloserStep s (record s { closer = joining_worker })
  join_worker :
      (s : Threads)
      → s.closer ≡ joining_worker
      → s.worker ≡ finished
      → CloserStep s (record s { closer = closed })

pub data AnyStep (s t : Threads) : Type 0 where
  by_worker : WorkerStep s t → AnyStep s t
  by_feeder : FeederStep s t → AnyStep s t
  by_closer : CloserStep s t → AnyStep s t

pub data Reach (s : Threads) : Threads → Type 0 where
  here : Reach s s
  next : {t u : Threads} → Reach s t → AnyStep t u → Reach s u

-- The threads as the constructor starts them.
abbrev pub started : Ring (Option RawMsg) → ℕ → Threads
started queue epoch = record {
  stop = false;
  queue = queue;
  epoch = epoch;
  worker = outer;
  feeder = polling;
  closer = alive;
  taken = [];
}
