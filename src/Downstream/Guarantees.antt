-- ===== src/Downstream/Guarantees.antt =====
-- What `QueuedDownstream` promises its callers: which messages reach the sink, and in which order.
use momo_hdb.Base.{◌+◌, ◌-◌, ◌<◌, ◌≡◌, refl, sym, ap, ◌∙◌, true, false, arith}
use momo_hdb.Base.{
  List, [], ◌∷◌, ◌++◌, length, append-nil, append_assoc, length-append, map, none, some, Option,
}
use momo_hdb.Base.{◌^◌, replicate, Text}
use momo_hdb.Ring.Inv.{make_pow2}
use momo_hdb.Ring.{Ring, make}
use momo_hdb.Ring.Batch.{make-Holds, make-cap}
use momo_hdb.Ring.Overflow.{offer_room}
use momo_hdb.Downstream.{
  Pointer, ISink, Downstream, queue_slots, new_downstream, with_queue, start, stop, Event,
  submitted, flushed, worked, run,
}
use momo_hdb.Downstream.Delivery.{
  Call, give, flush_call, calls_on, given, submissions, expected, calls, Serves, run_refines,
  stop_lem,
}

pub given-append : (cs : List Call) (q : List Pointer) → given (cs ++ map give q) ≡ given cs ++ q
unfolding given
given-append [] [] = refl
given-append [] (e ∷ q) = ap (λ l. e ∷ l) (given-append [] q)
given-append (give e ∷ cs) q = ap (λ l. e ∷ l) (given-append cs q)
given-append (flush_call t ∷ cs) q = given-append cs q

-- While the queue cannot fill up, nothing is lost.
expected-all :
    (evs : List Event) (q : List Pointer)
    → length q + length (submissions evs) < queue_slots
    → let (q', cs) = expected q evs in given cs ++ q' ≡ q ++ submissions evs
unfolding expected given submissions
expected-all [] q h = sym (append-nil q)
expected-all (submitted e ∷ evs) q h =
    ap (λ l. given (expected l evs).1 ++ (expected l evs).0)
      (offer_room queue_slots e q (omega arith))
    ∙ expected-all evs (q ++ (e ∷ [])) (omega (arith, length-append q (e ∷ [])))
    ∙ append_assoc q (e ∷ []) (submissions evs)
expected-all (flushed t ∷ evs) q h = expected-all evs q h
expected-all (worked ∷ evs) [] h = expected-all evs [] h
expected-all (worked ∷ evs) (e ∷ q) h = ap (λ l. e ∷ l) (expected-all evs q (omega arith))

module _ {S : Type 0} (api : ISink S) where
  pub calls-append :
      (cs ds : List Call) (s : S) → calls api (cs ++ ds) s ≡ calls api ds (calls api cs s)
  unfolding calls_on
  calls-append [] ds s = refl
  calls-append (give e ∷ cs) ds s = calls-append cs ds (api.submit e s)
  calls-append (flush_call t ∷ cs) ds s = calls-append cs ds (api.flush t s)

  -- The calls that the sink has had once the events are over and `stop` has returned.
  unfoldable pub all_calls : List Pointer → List Event → List Call
  all_calls q evs = let (q', cs) = expected q evs in cs ++ map give q'

  stopped_calls :
      (evs : List Event) {d : Downstream S} (q : List Pointer)
      → Serves d q
      → (stop api (run api evs d)).sink ≡ calls api (all_calls q evs) d.sink
  unfolding all_calls
  stopped_calls evs {d} q s =
      let (left, sent) = run_refines api evs q s in
      let (empty, rest, joined) = stop_lem api (expected q evs).0 left in
      rest
      ∙ ap (calls api (map give (expected q evs).0)) sent
      ∙ sym (calls-append (expected q evs).1 (map give (expected q evs).0) d.sink)

  -- From a running downstream, as long as fewer messages are queued and come in than the queue has
  -- slots, every one of them reaches the sink, once and in order, by the time `stop` returns.
  pub stop_delivers_all :
      (evs : List Event) {d : Downstream S} (q : List Pointer)
      → Serves d q
      → length q + length (submissions evs) < queue_slots
      → ((stop api (run api evs d)).sink ≡ calls api (all_calls q evs) d.sink)
        × (given (all_calls q evs) ≡ q ++ submissions evs)
  unfolding all_calls
  stop_delivers_all evs q s few = (
    stopped_calls evs q s,
    given-append (expected q evs).1 (expected q evs).0 ∙ expected-all evs q few,
  )

started :
    {S : Type 0} (name : Text) (sink : S) (made : Option (Ring Pointer)) {d : Downstream S}
    → with_queue name sink made ≡ some d
    → (r : Ring Pointer) × (made ≡ some r)
      × (start d ≡ record { name = name; sink = sink; q = r; running = true; worker = true })
unfolding with_queue start
started name sink none e = cc
started name sink (some r) e = (r, refl, ap start (sym (some-injective_of e)))
  where
    some-injective_of : {A : Type 0} {a b : A} → some a ≡ some b → a ≡ b
    some-injective_of p = cc

-- A downstream fresh from its constructor and started serves an empty queue.
pub start-Serves :
    {S : Type 0} (name : Text) (sink : S) {d : Downstream S}
    → new_downstream name sink ≡ some d
    → Serves (start d) []
unfolding new_downstream
start-Serves name sink e =
    let (r, made, eq) = started name sink (make none queue_slots) e in
    rw eq (record {
      queued = make-Holds none queue_slots (omega arith) made;
      slots = make-cap none queue_slots made;
      up = refl;
      joinable = refl;
    })

-- The queue of a new downstream.
abbrev pub new_queue : Ring Pointer
new_queue = record {
  cap = 2 ^ 13;
  mask = 2 ^ 13 - 1;
  buf = replicate (2 ^ 13) none;
  head = 0;
  tail = 0;
}

pub new_downstream_eq :
    {S : Type 0} (name : Text) (sink : S)
    → new_downstream name sink
      ≡ some (record { name = name; sink = sink; q = new_queue; running = false; worker = false })
unfolding new_downstream with_queue
new_downstream_eq name sink =
    ap (with_queue name sink) (make_pow2 none 13 (omega arith) (omega arith))
