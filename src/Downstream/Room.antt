-- ===== src/Downstream/Room.antt =====
-- What `QueuedDownstream` promises while its queue does not fill up: then a submit is one push, which the
-- worker's pops cannot come into (Ring.Threads), and nothing is dropped.
use momo_hdb.Base.{◌+◌, ◌<◌, ◌≡◌, refl, sym, ap, subst, ◌∙◌, append_assoc, append-nil}
use momo_hdb.Base.{List, [], ◌∷◌, ◌++◌, length, map}
use momo_hdb.Ring.Overflow.{offer_room}
use momo_hdb.Downstream.{
  Pointer, ISink, Downstream, queue_slots, stop, Event, submitted, flushed, worked, run,
}
use momo_hdb.Downstream.Delivery.{
  Call, give, flush_call, given, submissions, expected, calls, Serves, run_refines, stop_lem,
}
use momo_hdb.Downstream.Guarantees.{calls-append, given-append}

-- Every submit finds a free slot.
abbrev pub HasRoom : List Pointer → List Event → Type 0
HasRoom q [] = Unit {0}
HasRoom q (submitted e ∷ evs) = (length q + 1 < queue_slots) × HasRoom (q ++ (e ∷ [])) evs
HasRoom q (flushed t ∷ evs) = HasRoom q evs
HasRoom [] (worked ∷ evs) = HasRoom [] evs
HasRoom (e ∷ q) (worked ∷ evs) = HasRoom q evs

-- The specification: what is left of a list of messages that each submit extends and each round of the
-- worker takes the oldest of, and the calls of the sink.
unfoldable pub fifo : List Pointer → List Event → List Pointer × List Call
fifo q [] = (q, [])
fifo q (submitted e ∷ evs) = fifo (q ++ (e ∷ [])) evs
fifo q (flushed t ∷ evs) = let (q', cs) = fifo q evs in (q', flush_call t ∷ cs)
fifo [] (worked ∷ evs) = fifo [] evs
fifo (e ∷ q) (worked ∷ evs) = let (q', cs) = fifo q evs in (q', give e ∷ cs)

expected-fifo : (evs : List Event) (q : List Pointer) → HasRoom q evs → expected q evs ≡ fifo q evs
unfolding expected fifo
expected-fifo [] q h = refl
expected-fifo (submitted e ∷ evs) q (room, h) =
    ap (λ l. expected l evs) (offer_room queue_slots e q room) ∙ expected-fifo evs (q ++ (e ∷ [])) h
expected-fifo (flushed t ∷ evs) q h = ap (λ r. (r.0, flush_call t ∷ r.1)) (expected-fifo evs q h)
expected-fifo (worked ∷ evs) [] h = expected-fifo evs [] h
expected-fifo (worked ∷ evs) (e ∷ q) h = ap (λ r. (r.0, give e ∷ r.1)) (expected-fifo evs q h)

fifo-all :
    (evs : List Event) (q : List Pointer)
    → let (q', cs) = fifo q evs in given cs ++ q' ≡ q ++ submissions evs
unfolding fifo given submissions
fifo-all [] q = sym (append-nil q)
fifo-all (submitted e ∷ evs) q =
    fifo-all evs (q ++ (e ∷ [])) ∙ append_assoc q (e ∷ []) (submissions evs)
fifo-all (flushed t ∷ evs) q = fifo-all evs q
fifo-all (worked ∷ evs) [] = fifo-all evs []
fifo-all (worked ∷ evs) (e ∷ q) = ap (λ l. e ∷ l) (fifo-all evs q)

module _ {S : Type 0} (api : ISink S) where
  -- Let every submit find a free slot. Then a running downstream does what the specification says,
  -- whatever order the events come in: its queue is the specification's list, and its sink has had
  -- exactly the specification's calls, in their order.
  pub run_is_fifo :
      (evs : List Event) {d : Downstream S} (q : List Pointer)
      → Serves d q
      → HasRoom q evs
      → let (q', cs) = fifo q evs in
        Serves (run api evs d) q' × ((run api evs d).sink ≡ calls api cs d.sink)
  run_is_fifo evs {d} q s h =
      subst (λ r. Serves (run api evs d) r.0 × ((run api evs d).sink ≡ calls api r.1 d.sink))
        (expected-fifo evs q h) (run_refines api evs q s)

  -- The calls that the sink has had once the events are over and `stop` has returned.
  unfoldable pub calls_to_stop : List Pointer → List Event → List Call
  calls_to_stop q evs = let (q', cs) = fifo q evs in cs ++ map give q'

  -- From a running downstream, however many messages come, as long as every submit finds a free slot:
  -- by the time `stop` returns, the sink has had the specification's calls and then what was left,
  -- and the messages in these calls are what was queued and submitted, each once and in order.
  pub stop_delivers_in_order :
      (evs : List Event) {d : Downstream S} (q : List Pointer)
      → Serves d q
      → HasRoom q evs
      → ((stop api (run api evs d)).sink ≡ calls api (calls_to_stop q evs) d.sink)
        × (given (calls_to_stop q evs) ≡ q ++ submissions evs)
  unfolding calls_to_stop
  stop_delivers_in_order evs {d} q s h =
      let (left, sent) = run_is_fifo evs q s h in
      let (empty, rest, joined) = stop_lem api (fifo q evs).0 left in
      (
        rest
            ∙ ap (calls api (map give (fifo q evs).0)) sent
            ∙ sym (calls-append api (fifo q evs).1 (map give (fifo q evs).0) d.sink),
        given-append (fifo q evs).1 (fifo q evs).0 ∙ fifo-all evs q,
      )
