-- ===== src/Kfkpb/Wake/Asleep.antt =====
-- What the order of `popRaw` (momo_subpb/src/kfkpb_core.cpp) allows: it looks for a message first and loads
-- the epoch afterwards, so what happens between the two is never seen by its wait.
use momo_hdb.Base.{ℕ, subst, ◌<◌, ◌≡◌, refl, true, false, Option, none, some}
use momo_hdb.Base.{[], ◌∷◌}
use momo_hdb.Ring.{Ring}
use momo_hdb.Ring.Refine.{Holds, try_pop_empty}
use momo_hdb.Ring.Overflow.{offer_room, push_or_drop, push_or_drop_lem}
use momo_hdb.Kfkpb.{RawMsg, moved_ptr}
use momo_hdb.Kfkpb.Wake.{
  Threads, Worker, Feeder, Closer, WorkerStep, FeederStep, CloserStep, AnyStep, Reach, started,
  next_epoch, here, next, by_worker, by_feeder, by_closer, loop_on, loop_off, pop_on, pop_off,
  popped, found_empty, load_epoch, wait_returns, handled, push, count, leave, set_stop, announce,
  join_consumer, join_worker,
}

-- A worker that waits on the epoch as it is has no step.
asleep : {s t : Threads} → s.worker ≡ Worker.waiting s.epoch → ¬ WorkerStep s t
asleep w (loop_on s e h) = cc
asleep w (loop_off s e h) = cc
asleep w (pop_on s e h) = cc
asleep w (pop_off s e h) = cc
asleep w (popped s m rest e h) = cc
asleep w (found_empty s m rest e h) = cc
asleep w (load_epoch s e) = cc
asleep w (wait_returns s seen e h) = h (cc)
asleep w (handled s e) = cc

pub no_feeder : {s t : Threads} → s.feeder ≡ Feeder.gone → ¬ FeederStep s t
no_feeder f (push s m e) = cc
no_feeder f (count s e) = cc
no_feeder f (leave s e h) = cc

no_closer :
    {s t : Threads} (epoch : ℕ)
    → s.closer ≡ Closer.joining_worker
    → s.worker ≡ Worker.waiting epoch
    → ¬ CloserStep s t
no_closer epoch c w (set_stop s e) = cc
no_closer epoch c w (announce s e) = cc
no_closer epoch c w (join_consumer s e h) = cc
no_closer epoch c w (join_worker s e h) = cc

stuck :
    {s t : Threads}
    → s.worker ≡ Worker.waiting s.epoch
    → s.feeder ≡ Feeder.gone
    → s.closer ≡ Closer.joining_worker
    → ¬ AnyStep s t
stuck w f c (by_worker st) = asleep w st
stuck w f c (by_feeder st) = no_feeder f st
stuck {s} w f c (by_closer st) = no_closer s.epoch c w st

-- From an empty queue, a push that falls between the worker's look at the queue and its load of the
-- epoch leaves the message in the queue with the worker asleep: the consumer thread is done with the
-- push, nothing was stopped, and the worker has no step until some later push or the destructor.
pub sleeps_on_message :
    {r : Ring (Option RawMsg)} (m : RawMsg) (epoch : ℕ)
    → Holds r []
    → 1 < r.cap
    → (s : Threads) × Reach (started r epoch) s
      × Holds s.queue (some m ∷ [])
      × (s.feeder ≡ Feeder.polling)
      × (s.stop ≡ false)
      × ((t : Threads) → ¬ WorkerStep s t)
sleeps_on_message {r} m epoch h room =
    let s0 = started r epoch in
    let s1 = record s0 { worker = Worker.inner } in
    let s2 = record s1 { worker = Worker.popping } in
    let s3 = record s2 { worker = Worker.reading } in
    let s4 = record s3 { queue = push_or_drop moved_ptr none (some m) r; feeder = Feeder.pushed } in
    let s5 = record s4 { epoch = next_epoch epoch; feeder = Feeder.polling } in
    let s6 = record s5 { worker = Worker.waiting (next_epoch epoch) } in
    let runs : Reach s0 s6 =
      next
        (next
          (next
            (next
              (next (next here (by_worker (loop_on s0 refl refl)))
                (by_worker (pop_on s1 refl refl)))
              (by_worker (found_empty s2 none r refl (try_pop_empty moved_ptr none h))))
            (by_feeder (push s3 m refl)))
          (by_feeder (count s4 refl)))
        (by_worker (load_epoch s5 refl)) in
    let one : Holds s6.queue (some m ∷ []) =
      subst (Holds s6.queue) (offer_room r.cap (some m) [] room)
        (push_or_drop_lem moved_ptr none (some m) [] h) in
    (s6, runs, one, refl, refl, λ t. asleep refl)

-- The destructor can wait for ever: from an empty queue, with a destructor that stops the client and
-- raises the epoch between the worker's test of the flag and its load of the epoch, the threads reach
-- a state in which the flag is set, the consumer thread has ended, the destructor joins the worker,
-- and none of the threads has a step.
pub destructor_hangs :
    {r : Ring (Option RawMsg)} (epoch : ℕ)
    → Holds r []
    → (s : Threads) × Reach (started r epoch) s
      × (s.stop ≡ true)
      × (s.feeder ≡ Feeder.gone)
      × (s.closer ≡ Closer.joining_worker)
      × ((t : Threads) → ¬ AnyStep s t)
destructor_hangs {r} epoch h =
    let s0 = started r epoch in
    let s1 = record s0 { worker = Worker.inner } in
    let s2 = record s1 { worker = Worker.popping } in
    let s3 = record s2 { worker = Worker.reading } in
    let s4 = record s3 { stop = true; closer = Closer.announcing } in
    let s5 = record s4 { epoch = next_epoch epoch; closer = Closer.joining_consumer } in
    let s6 = record s5 { worker = Worker.waiting (next_epoch epoch) } in
    let s7 = record s6 { feeder = Feeder.gone } in
    let s8 = record s7 { closer = Closer.joining_worker } in
    let looked : Reach s0 s3 =
      next (next (next here (by_worker (loop_on s0 refl refl))) (by_worker (pop_on s1 refl refl)))
        (by_worker (found_empty s2 none r refl (try_pop_empty moved_ptr none h))) in
    let closing : Reach s0 s6 =
      next (next (next looked (by_closer (set_stop s3 refl))) (by_closer (announce s4 refl)))
        (by_worker (load_epoch s5 refl)) in
    let runs : Reach s0 s8 =
      next (next closing (by_feeder (leave s6 refl refl)))
        (by_closer (join_consumer s7 refl refl)) in
    (s8, runs, refl, refl, refl, λ t. stuck refl refl refl)
