-- ===== src/Dispatcher/Fanout.antt =====
-- What a submission to the dispatcher leaves with each of its downstreams.
use momo_hdb.Base.{List, [], ◌∷◌, map, some}
use momo_hdb.Downstream.{Envelope, Pointer, ISink, Downstream, queue_slots, submit}
use momo_hdb.Downstream.Delivery.{Serves, submit-Serves}
use momo_hdb.Ring.Overflow.{offer}
use momo_hdb.Dispatcher.{Dispatcher, submit_envelope, dispatch}

module _ {S : Type 0} where
  -- Running downstreams that hold one queue each.
  pub data ServesEach : List (Downstream S) → List (List Pointer) → Type 0 where
    nobody : ServesEach [] []
    also :
        {d : Downstream S} {ds : List (Downstream S)} {q : List Pointer} {qs : List (List Pointer)}
        → Serves d q
        → ServesEach ds qs
        → ServesEach (d ∷ ds) (q ∷ qs)

module _ {S : Type 0} (api : ISink S) where
  dispatch-ServesEach :
      (e : Pointer) {ds : List (Downstream S)} {qs : List (List Pointer)}
      → ServesEach ds qs
      → ServesEach (map (submit e) ds) (map (offer queue_slots e) qs)
  dispatch-ServesEach e nobody = nobody
  dispatch-ServesEach e (also {q = q} s rest) =
      also (submit-Serves api e q s) (dispatch-ServesEach e rest)

  -- A submission to the dispatcher offers the message to every downstream, whatever the others hold: all
  -- of them keep running.
  pub submit_envelope_lem :
      (e : Envelope) (self : Dispatcher S) {qs : List (List Pointer)}
      → ServesEach self.downstreams qs
      → ServesEach (submit_envelope e self).downstreams (map (offer queue_slots (some e)) qs)
  unfolding submit_envelope dispatch
  submit_envelope_lem e self s = dispatch-ServesEach (some e) s
