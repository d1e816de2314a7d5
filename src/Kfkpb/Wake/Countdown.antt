-- ===== src/Kfkpb/Wake/Countdown.antt =====
-- What each step of a decoder thread (`popRaw` in momo_subpb/src/kfkpb_core.cpp) leaves to do once the client
-- is stopped.
use momo_hdb.Base.{ℕ, ◌≤◌, ◌<◌, ◌≡◌, refl, sym, ap}
use momo_hdb.Base.{Bool, true, false, not, ◌==◌, Option, none, arith, if◌then◌else◌}
use momo_hdb.Ring.{Ring, try_pop}
use momo_hdb.Kfkpb.{RawMsg, moved_ptr}
use momo_hdb.Kfkpb.Wake.{
  Threads, Worker, WorkerStep, loop_on, loop_off, pop_on, pop_off, popped, found_empty, load_epoch,
  wait_returns, handled,
}

-- Whether a worker that is joined ends.
unfoldable pub worker_ends : Ring (Option RawMsg) → ℕ → Worker → Bool
worker_ends queue epoch Worker.outer = true
worker_ends queue epoch Worker.inner = true
worker_ends queue epoch Worker.working = true
worker_ends queue epoch Worker.finished = true
worker_ends queue epoch Worker.popping = (try_pop moved_ptr none queue).0
worker_ends queue epoch Worker.reading = false
worker_ends queue epoch (Worker.waiting seen) = not (seen == epoch)

-- How many steps a worker that is joined has left, at most.
unfoldable pub rank : ℕ → Worker → ℕ
rank epoch Worker.outer = 1
rank epoch Worker.inner = 2
rank epoch Worker.working = 2
rank epoch Worker.finished = 0
rank epoch Worker.popping = 3
rank epoch Worker.reading = 1
rank epoch (Worker.waiting seen) = if seen == epoch then 0 else 3

pub rank-le : (epoch : ℕ) (w : Worker) → rank epoch w ≤ 3
unfolding rank
rank-le epoch Worker.outer = omega arith
rank-le epoch Worker.inner = omega arith
rank-le epoch Worker.working = omega arith
rank-le epoch Worker.finished = omega arith
rank-le epoch Worker.popping = omega arith
rank-le epoch Worker.reading = omega arith
rank-le epoch (Worker.waiting seen) = ground arith

-- What one step of the worker does once the flag is set.
pub worker_step :
    {s t : Threads}
    → WorkerStep s t
    → s.stop ≡ true
    → (rank t.epoch t.worker < rank s.epoch s.worker)
      × (worker_ends t.queue t.epoch t.worker ≡ worker_ends s.queue s.epoch s.worker)
unfolding worker_ends rank
worker_step (loop_on s e h) on = absurd (cc)
worker_step (loop_off s e h) on = rw e (omega arith, refl)
worker_step (pop_on s e h) on = absurd (cc)
worker_step (pop_off s e h) on = rw e (omega arith, refl)
worker_step (popped s m rest e h) on = rw e (omega arith, sym (ap (λ x. x.0) h))
worker_step (found_empty s m rest e h) on = rw e (omega arith, sym (ap (λ x. x.0) h))
worker_step (load_epoch s e) on =
    let same : (s.epoch == s.epoch) ≡ true = ground arith in rw (e, same) (omega arith, refl)
worker_step (wait_returns s seen e h) on =
    let other : (seen == s.epoch) ≡ false = ground arith in rw (e, other) (omega arith, refl)
worker_step (handled s e) on = rw e (omega arith, refl)
