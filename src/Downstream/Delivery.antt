-- ===== src/Downstream/Delivery.antt =====
-- What reaches the sink of a `QueuedDownstream`, against a queue of messages and a list of calls.
use momo_hdb.Base.{ℕ, zero, suc, ◌≤◌, ◌≡◌, refl, sym, ap, subst, ◌∙◌, Bool, true, false}
use momo_hdb.Base.{List, [], ◌∷◌, length, if◌then◌else◌, arith}
use momo_hdb.Base.{none, map}
use momo_hdb.Base.Int.{ℤ}
use momo_hdb.Ring.Refine.{Holds, try_pop_empty, try_pop_cons}
use momo_hdb.Ring.Overflow.{push_or_drop, push_or_drop_lem, cap-push_or_drop, cap-try_pop, offer}
use momo_hdb.Downstream.{
  Pointer, moved_pointer, ISink, Downstream, queue_slots, submit, flush, pop_one, round, drain,
  stop, Event, submitted, flushed, worked, handle, run,
}

-- A call of the sink.
pub data Call : Type 0 where
  give : Pointer → Call
  flush_call : ℤ → Call

unfoldable pub calls_on {ℓ} : {S : Type ℓ} → (Pointer → S → S) → (ℤ → S → S) → List Call → S → S
calls_on put fl [] s = s
calls_on put fl (give e ∷ cs) s = calls_on put fl cs (put e s)
calls_on put fl (flush_call t ∷ cs) s = calls_on put fl cs (fl t s)

-- The messages among the calls.
unfoldable pub given : List Call → List Pointer
given [] = []
given (give e ∷ cs) = e ∷ given cs
given (flush_call t ∷ cs) = given cs

-- The messages among the events.
unfoldable pub submissions : List Event → List Pointer
submissions [] = []
submissions (submitted e ∷ evs) = e ∷ submissions evs
submissions (flushed t ∷ evs) = submissions evs
submissions (worked ∷ evs) = submissions evs

-- The specification: the queue that is left, and the calls that were made.
unfoldable pub expected : List Pointer → List Event → List Pointer × List Call
expected q [] = (q, [])
expected q (submitted e ∷ evs) = expected (offer queue_slots e q) evs
expected q (flushed t ∷ evs) = let (q', cs) = expected q evs in (q', flush_call t ∷ cs)
expected [] (worked ∷ evs) = expected [] evs
expected (e ∷ q) (worked ∷ evs) = let (q', cs) = expected q evs in (q', give e ∷ cs)

module _ {S : Type 0} where
  -- A running downstream that holds `q`.
  pub record Serves (d : Downstream S) (q : List Pointer) : Type 0 where
    pub queued : Holds d.q q
    pub slots : d.q.cap ≡ queue_slots
    pub up : d.running ≡ true
    pub joinable : d.worker ≡ true

module _ {S : Type 0} (api : ISink S) where
  abbrev pub calls : List Call → S → S
  calls = calls_on api.submit api.flush

  pub submit-Serves :
      (e : Pointer) {d : Downstream S} (q : List Pointer)
      → Serves d q
      → Serves (submit e d) (offer queue_slots e q)
  unfolding submit
  submit-Serves e {d} q s = record {
    queued =
        subst (λ n. Holds (push_or_drop moved_pointer none e d.q) (offer n e q)) s.slots
          (push_or_drop_lem moved_pointer none e q s.queued);
    slots = cap-push_or_drop moved_pointer none e d.q ∙ s.slots;
    up = s.up;
    joinable = s.joinable;
  }

  flush-Serves :
      (t : ℤ) {d : Downstream S} (q : List Pointer) → Serves d q → Serves (flush api t d) q
  unfolding flush
  flush-Serves t q s = record {
    queued = s.queued;
    slots = s.slots;
    up = s.up;
    joinable = s.joinable;
  }

  pop_one_empty : (d : Downstream S) → Holds d.q [] → pop_one api d ≡ (false, d)
  unfolding pop_one
  pop_one_empty d h = rw (try_pop_empty moved_pointer none h)

  -- What one pop gives the sink and leaves.
  record GaveOne (d : Downstream S) (e : Pointer) (q : List Pointer) (res : Bool × Downstream S)
      : Type 0 where
    pub got : res.0 ≡ true
    pub sent : res.1.sink ≡ api.submit e d.sink
    pub queued : Holds res.1.q q
    pub slots : res.1.q.cap ≡ d.q.cap
    pub up : res.1.running ≡ d.running
    pub joinable : res.1.worker ≡ d.worker

  pop_one_cons :
      (d : Downstream S) (e : Pointer) (q : List Pointer)
      → Holds d.q (e ∷ q)
      → GaveOne d e q (pop_one api d)
  unfolding pop_one
  pop_one_cons d e q h =
      let (got, eq, h') = try_pop_cons moved_pointer none e q h in
      rw got (record {
        got = refl;
        sent = ap (λ p. api.submit p d.sink) eq;
        queued = h';
        slots = cap-try_pop moved_pointer none d.q;
        up = refl;
        joinable = refl;
      })

  round_up : (d : Downstream S) → d.running ≡ true → round api d ≡ (pop_one api d).1
  unfolding round
  round_up d up = ap (λ b. if b then (pop_one api d).1 else d) up

  round_cons :
      (d : Downstream S) (e : Pointer) (q : List Pointer)
      → Serves d (e ∷ q)
      → Serves (round api d) q × ((round api d).sink ≡ api.submit e d.sink)
  round_cons d e q s =
      let g = pop_one_cons d e q s.queued in
      rw (round_up d s.up) (
        record {
          queued = g.queued;
          slots = g.slots ∙ s.slots;
          up = g.up ∙ s.up;
          joinable = g.joinable ∙ s.joinable;
        },
        g.sent,
      )

  -- Over events that are whole submits and whole rounds, in any order, a running downstream does what
  -- `expected` says: its queue is the one expected, and its sink has had exactly the expected calls.
  pub run_refines :
      (evs : List Event) {d : Downstream S} (q : List Pointer)
      → Serves d q
      → let (q', cs) = expected q evs in
        Serves (run api evs d) q' × ((run api evs d).sink ≡ calls cs d.sink)
  unfolding run handle expected calls_on submit flush
  run_refines [] q s = (s, refl)
  run_refines (submitted e ∷ evs) {d} q s =
      run_refines evs (offer queue_slots e q) (submit-Serves e q s)
  run_refines (flushed t ∷ evs) {d} q s = run_refines evs q (flush-Serves t q s)
  run_refines (worked ∷ evs) {d} [] s =
      subst
        (λ d'.
          Serves (run api evs d') (expected [] evs).0
          × ((run api evs d').sink ≡ calls (expected [] evs).1 d.sink))
        (sym (round_up d s.up ∙ ap (λ r. r.1) (pop_one_empty d s.queued))) (run_refines evs [] s)
  run_refines (worked ∷ evs) {d} (e ∷ q) s =
      let (s', sent) = round_cons d e q s in
      let (left, ih) = run_refines evs q s' in (left, ih ∙ ap (calls (expected q evs).1) sent)

  drain_lem :
      (fuel : ℕ) (d : Downstream S) (q : List Pointer)
      → length q ≤ fuel
      → Holds d.q q
      → Holds (drain api fuel d).q [] × ((drain api fuel d).sink ≡ calls (map give q) d.sink)
  unfolding drain calls_on
  drain_lem zero d [] le h = (h, refl)
  drain_lem zero d (e ∷ q) le h = absurd (omega arith)
  drain_lem (suc fuel) d [] le h = rw (pop_one_empty d h) (h, refl)
  drain_lem (suc fuel) d (e ∷ q) le h =
      let g = pop_one_cons d e q h in
      let (empty, ih) = drain_lem fuel (pop_one api d).1 q (omega arith) g.queued in
      rw (g.got) (empty, ih ∙ ap (calls (map give q)) g.sent)

  -- `stop` of a running downstream hands every message that is still queued to the sink, oldest
  -- first, leaves the queue empty, and joins the worker: the fuel for its loop is enough.
  pub stop_lem :
      {d : Downstream S} (q : List Pointer)
      → Serves d q
      → Holds (stop api d).q []
        × ((stop api d).sink ≡ calls (map give q) d.sink)
        × ((stop api d).worker ≡ false)
  unfolding stop
  stop_lem {d} q s =
      let (empty, sent) =
        drain_lem queue_slots (record d { running = false }) q
          (omega (arith, s.queued.filled, s.slots)) s.queued in
      let joined = record (drain api queue_slots (record d { running = false })) {
        worker = false;
      } in
      subst
        (λ (b : Bool).
          Holds (if b then joined else record d { running = false }).q []
          × ((if b then joined else record d { running = false }).sink ≡ calls (map give q) d.sink)
          × ((if b then joined else record d { running = false }).worker ≡ false))
        (sym s.joinable) (empty, sent, refl)
