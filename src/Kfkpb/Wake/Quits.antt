-- ===== src/Kfkpb/Wake/Quits.antt =====
-- How the join of a decoder thread in the destructor of `KfkpbClient` (momo_subpb/src/kfkpb_core.cpp) ends.
use momo_hdb.Base.{ℕ, suc, ◌+◌, ◌≤◌, ◌<◌, ◌≡◌, ◌≢◌, refl, sym, ◌∙◌, ap, ◌⊎◌, inl, inr, subst}
use momo_hdb.Base.{Bool, true, false, Option, none, arith}
use momo_hdb.Ring.{Ring, try_pop}
use momo_hdb.Kfkpb.{RawMsg, moved_ptr}
use momo_hdb.Kfkpb.Wake.{
  Threads, Worker, Feeder, Closer, WorkerStep, CloserStep, AnyStep, Reach, started, here, next,
  by_worker, by_feeder, by_closer, loop_on, loop_off, pop_on, pop_off, popped, found_empty,
  load_epoch, wait_returns, handled, set_stop, announce, join_consumer, join_worker,
}
use momo_hdb.Kfkpb.Wake.Asleep.{no_feeder}
use momo_hdb.Kfkpb.Wake.Orderly.{IsOrderly, IsInOrder, Reach-IsInOrder}
use momo_hdb.Kfkpb.Wake.Countdown.{worker_ends, rank, rank-le, worker_step}

-- The state while the destructor joins the worker and after it.
abbrev pub IsJoining : Closer → Type 0
IsJoining Closer.alive = ⊥
IsJoining Closer.announcing = ⊥
IsJoining Closer.joining_consumer = ⊥
IsJoining Closer.joining_worker = Unit {0}
IsJoining Closer.closed = Unit {0}

unfoldable closer_rank : Closer → ℕ
closer_rank Closer.alive = 0
closer_rank Closer.announcing = 0
closer_rank Closer.joining_consumer = 0
closer_rank Closer.joining_worker = 1
closer_rank Closer.closed = 0

-- The worker's steps and the destructor's last one, at most.
unfoldable left_of : Threads → ℕ
left_of s = closer_rank s.closer + rank s.epoch s.worker

-- Whether the join comes to its end.
unfoldable pub will_close : Threads → Bool
will_close s = worker_ends s.queue s.epoch s.worker

joining_on :
    (c : Closer) (stop : Bool) (f : Feeder) (w : Worker)
    → IsJoining c
    → IsOrderly c stop f w
    → (stop ≡ true) × (f ≡ Feeder.gone)
joining_on Closer.alive stop f w j o = absurd j
joining_on Closer.announcing stop f w j o = absurd j
joining_on Closer.joining_consumer stop f w j o = absurd j
joining_on Closer.joining_worker stop f w j o = o
joining_on Closer.closed stop f w j o = (o.0, o.1)

worker-closer : {s t : Threads} → WorkerStep s t → t.closer ≡ s.closer
worker-closer (loop_on s e h) = refl
worker-closer (loop_off s e h) = refl
worker-closer (pop_on s e h) = refl
worker-closer (pop_off s e h) = refl
worker-closer (popped s m rest e h) = refl
worker-closer (found_empty s m rest e h) = refl
worker-closer (load_epoch s e) = refl
worker-closer (wait_returns s seen e h) = refl
worker-closer (handled s e) = refl

closer_step :
    {s t : Threads}
    → CloserStep s t
    → IsJoining s.closer
    → (left_of t < left_of s) × (will_close t ≡ will_close s) × IsJoining t.closer
unfolding left_of will_close closer_rank
closer_step (set_stop s e) j = absurd (subst IsJoining e j)
closer_step (announce s e) j = absurd (subst IsJoining e j)
closer_step (join_consumer s e h) j = absurd (subst IsJoining e j)
closer_step (join_worker s e h) j = rw e (omega arith, refl, tt)

joined_step :
    {s t : Threads}
    → AnyStep s t
    → IsJoining s.closer
    → IsInOrder s
    → (left_of t < left_of s) × (will_close t ≡ will_close s) × IsJoining t.closer
unfolding left_of will_close
joined_step {s} {t} (by_worker st) j o =
    let (on, off) = joining_on s.closer s.stop s.feeder s.worker j o in
    let (less, same) = worker_step st on in
    let kept = worker-closer st in
    (omega (arith, less, ap closer_rank kept), same, subst IsJoining (sym kept) j)
joined_step {s} (by_feeder st) j o =
    absurd (no_feeder (joining_on s.closer s.stop s.feeder s.worker j o).1 st)
joined_step (by_closer st) j o = closer_step st j

unfoldable pub steps : {s t : Threads} → Reach s t → ℕ
steps here = 0
steps (next r st) = suc (steps r)

run_step :
    {s t : Threads} (r : Reach s t)
    → IsJoining s.closer
    → IsInOrder s
    → (steps r + left_of t ≤ left_of s) × (will_close t ≡ will_close s) × IsJoining t.closer
unfolding steps
run_step here j o = (omega arith, refl, j)
run_step (next r st) j o =
    let (bound, same, joining) = run_step r j o in
    let (less, kept, after) = joined_step st joining (Reach-IsInOrder r o) in
    (omega (arith, bound, less), kept ∙ same, after)

moves_on :
    (s : Threads) (w : Worker)
    → s.worker ≡ w
    → s.stop ≡ true
    → s.closer ≡ Closer.joining_worker
    → worker_ends s.queue s.epoch w ≡ true
    → (t : Threads) × AnyStep s t
unfolding worker_ends
moves_on s Worker.outer e on c h = (_, by_worker (loop_off s e on))
moves_on s Worker.inner e on c h = (_, by_worker (pop_off s e on))
moves_on s Worker.working e on c h = (_, by_worker (handled s e))
moves_on s Worker.finished e on c h = (_, by_closer (join_worker s c e))
moves_on s Worker.popping e on c h =
    let (got, m, rest) = try_pop moved_ptr none s.queue in
    (_, by_worker (popped s m rest e (ap (λ b. (b, m, rest)) h)))
moves_on s Worker.reading e on c h = absurd (cc)
moves_on s (Worker.waiting seen) e on c h =
    (_, by_worker (wait_returns s seen e (λ same. ground arith)))

closer_rank-le : (c : Closer) → closer_rank c ≤ 1
unfolding closer_rank
closer_rank-le Closer.alive = omega arith
closer_rank-le Closer.announcing = omega arith
closer_rank-le Closer.joining_consumer = omega arith
closer_rank-le Closer.joining_worker = omega arith
closer_rank-le Closer.closed = omega arith

left_of-le : (s : Threads) → left_of s ≤ 4
unfolding left_of
left_of-le s = omega (arith, closer_rank-le s.closer, rank-le s.epoch s.worker)

either {ℓ κ} :
    {A : Type ℓ} {B : Type κ} (b : Bool)
    → (b ≡ true → A)
    → (b ≡ false → B)
    → ((b ≡ true) × A) ⊎ ((b ≡ false) × B)
either true f g = inl (refl, f refl)
either false f g = inr (refl, g refl)

outcome_true :
    (t : Threads) (c : Closer)
    → t.closer ≡ c
    → IsJoining c
    → t.stop ≡ true
    → will_close t ≡ true
    → (t.closer ≡ Closer.closed) ⊎ ((u : Threads) × AnyStep t u)
unfolding will_close
outcome_true t Closer.alive e j on h = absurd j
outcome_true t Closer.announcing e j on h = absurd j
outcome_true t Closer.joining_consumer e j on h = absurd j
outcome_true t Closer.joining_worker e j on h = inr (moves_on t t.worker refl on e h)
outcome_true t Closer.closed e j on h = inl e

closed-will_close : (t : Threads) → t.closer ≡ Closer.closed → IsInOrder t → will_close t ≡ true
unfolding will_close worker_ends
closed-will_close t e o =
    let (on, off, finished) = subst (λ c. IsOrderly c t.stop t.feeder t.worker) e o in
    rw finished refl

-- Whenever the destructor of a client, however it was used, comes to the join of the worker, at most
-- four steps are left. Where the worker looks at an empty queue, is about to load the epoch, or waits
-- for the epoch to change from what it is, the client is never closed. Else, as long as it is not
-- closed, some thread has a step.
pub join_lem :
    {q : Ring (Option RawMsg)} {epoch : ℕ} {s t : Threads}
    → Reach (started q epoch) s
    → s.closer ≡ Closer.joining_worker
    → (r : Reach s t)
    → (steps r ≤ 4)
      × (((will_close s ≡ true) × ((t.closer ≡ Closer.closed) ⊎ ((u : Threads) × AnyStep t u)))
          ⊎ ((will_close s ≡ false) × (t.closer ≢ Closer.closed)))
join_lem {q} {epoch} {s} {t} before e r =
    let o = Reach-IsInOrder before tt in
    let j = subst IsJoining (sym e) tt in
    let (bound, same, joining) = run_step r j o in
    let o' = Reach-IsInOrder r o in
    let (on, off) = joining_on t.closer t.stop t.feeder t.worker joining o' in
    (
      omega (arith, bound, left_of-le s),
      either (will_close s) (λ h. outcome_true t t.closer refl joining on (same ∙ h))
          (λ h c. cc (sym h ∙ sym same ∙ closed-will_close t c o')),
    )

-- A client is closed only after both of its threads have ended.
pub closed_lem :
    {q : Ring (Option RawMsg)} {epoch : ℕ} {s : Threads}
    → Reach (started q epoch) s
    → s.closer ≡ Closer.closed
    → (s.feeder ≡ Feeder.gone) × (s.worker ≡ Worker.finished)
closed_lem {q} {epoch} {s} r e =
    let (on, off, finished) =
      subst (λ c. IsOrderly c s.stop s.feeder s.worker) e (Reach-IsInOrder r tt) in
    (off, finished)
