-- ===== src/Kfkpb/Wake/Orderly.antt =====
-- The order in which the destructor of `KfkpbClient` (momo_subpb/src/kfkpb_core.cpp) ends its threads.
use momo_hdb.Base.{◌≡◌, ◌≢◌, refl, subst, Bool, true}
use momo_hdb.Kfkpb.Wake.{
  Threads, Worker, Feeder, Closer, WorkerStep, FeederStep, CloserStep, AnyStep, Reach, here, next,
  by_worker, by_feeder, by_closer, loop_on, loop_off, pop_on, pop_off, popped, found_empty,
  load_epoch, wait_returns, handled, push, count, leave, set_stop, announce, join_consumer,
  join_worker,
}

-- What the destructor's place says of the flag and of the two threads.
abbrev pub IsOrderly : Closer → Bool → Feeder → Worker → Type 0
IsOrderly Closer.alive stop f w = Unit {0}
IsOrderly Closer.announcing stop f w = stop ≡ true
IsOrderly Closer.joining_consumer stop f w = stop ≡ true
IsOrderly Closer.joining_worker stop f w = (stop ≡ true) × (f ≡ Feeder.gone)
IsOrderly Closer.closed stop f w = (stop ≡ true) × (f ≡ Feeder.gone) × (w ≡ Worker.finished)

worker_moves :
    (c : Closer) (stop : Bool) (f : Feeder) (w w' : Worker)
    → w ≢ Worker.finished
    → IsOrderly c stop f w
    → IsOrderly c stop f w'
worker_moves Closer.alive stop f w w' moves o = tt
worker_moves Closer.announcing stop f w w' moves o = o
worker_moves Closer.joining_consumer stop f w w' moves o = o
worker_moves Closer.joining_worker stop f w w' moves o = o
worker_moves Closer.closed stop f w w' moves o = absurd (moves o.2)

feeder_moves :
    (c : Closer) (stop : Bool) (f f' : Feeder) (w : Worker)
    → f ≢ Feeder.gone
    → IsOrderly c stop f w
    → IsOrderly c stop f' w
feeder_moves Closer.alive stop f f' w moves o = tt
feeder_moves Closer.announcing stop f f' w moves o = o
feeder_moves Closer.joining_consumer stop f f' w moves o = o
feeder_moves Closer.joining_worker stop f f' w moves o = absurd (moves o.1)
feeder_moves Closer.closed stop f f' w moves o = absurd (moves o.1)

-- `IsOrderly` of a state.
abbrev pub IsInOrder : Threads → Type 0
IsInOrder s = IsOrderly s.closer s.stop s.feeder s.worker

worker_keeps : {s t : Threads} → WorkerStep s t → IsInOrder s → IsInOrder t
worker_keeps (loop_on s e h) o = worker_moves s.closer _ _ _ Worker.inner (λ d. cc) o
worker_keeps (loop_off s e h) o = worker_moves s.closer _ _ _ Worker.finished (λ d. cc) o
worker_keeps (pop_on s e h) o = worker_moves s.closer _ _ _ Worker.popping (λ d. cc) o
worker_keeps (pop_off s e h) o = worker_moves s.closer _ _ _ Worker.outer (λ d. cc) o
worker_keeps (popped s m rest e h) o = worker_moves s.closer _ _ _ Worker.working (λ d. cc) o
worker_keeps (found_empty s m rest e h) o = worker_moves s.closer _ _ _ Worker.reading (λ d. cc) o
worker_keeps (load_epoch s e) o = worker_moves s.closer _ _ _ (Worker.waiting s.epoch) (λ d. cc) o
worker_keeps (wait_returns s seen e h) o = worker_moves s.closer _ _ _ Worker.inner (λ d. cc) o
worker_keeps (handled s e) o = worker_moves s.closer _ _ _ Worker.outer (λ d. cc) o

feeder_keeps : {s t : Threads} → FeederStep s t → IsInOrder s → IsInOrder t
feeder_keeps (push s m e) o = feeder_moves s.closer _ _ Feeder.pushed _ (λ d. cc) o
feeder_keeps (count s e) o = feeder_moves s.closer _ _ Feeder.polling _ (λ d. cc) o
feeder_keeps (leave s e h) o = feeder_moves s.closer _ _ Feeder.gone _ (λ d. cc) o

place :
    (s : Threads) {c : Closer} → s.closer ≡ c → IsInOrder s → IsOrderly c s.stop s.feeder s.worker
place s e o = subst (λ c. IsOrderly c s.stop s.feeder s.worker) e o

closer_keeps : {s t : Threads} → CloserStep s t → IsInOrder s → IsInOrder t
closer_keeps (set_stop s e) o = refl
closer_keeps (announce s e) o = place s e o
closer_keeps (join_consumer s e h) o = (place s e o, h)
closer_keeps (join_worker s e h) o = let (stopped, ended) = place s e o in (stopped, ended, h)

pub AnyStep-IsInOrder : {s t : Threads} → AnyStep s t → IsInOrder s → IsInOrder t
AnyStep-IsInOrder (by_worker st) o = worker_keeps st o
AnyStep-IsInOrder (by_feeder st) o = feeder_keeps st o
AnyStep-IsInOrder (by_closer st) o = closer_keeps st o

pub Reach-IsInOrder : {s t : Threads} → Reach s t → IsInOrder s → IsInOrder t
Reach-IsInOrder here o = o
Reach-IsInOrder (next r st) o = AnyStep-IsInOrder st (Reach-IsInOrder r o)
