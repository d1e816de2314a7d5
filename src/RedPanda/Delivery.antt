-- ===== src/RedPanda/Delivery.antt =====
-- What a downstream with this sink produces to Kafka.
use momo_hdb.Base.{
  ℕ, ◌+◌, ◌<◌, ◌≡◌, refl, sym, ap, subst, ◌∙◌, none, some, List, [], ◌∷◌, ◌++◌, length,
  append_assoc, append-nil,
}
use momo_hdb.Base.Int.{ℤ}
use momo_hdb.Downstream.{Pointer, Downstream, Event, run, stop, queue_slots}
use momo_hdb.Downstream.Delivery.{Call, give, flush_call, calls_on, given, submissions, Serves}
use momo_hdb.Downstream.Guarantees.{stop_delivers_all, all_calls}
use momo_hdb.RedPanda.{Producer, Produced, Resp, RedPandaSink, record_of}
use momo_hdb.RedPanda

abbrev pub produced : List Pointer → List Produced
produced [] = []
produced (none ∷ ps) = produced ps
produced (some e ∷ ps) = record_of e ∷ produced ps

produced-cons :
    (p : Pointer) (ps : List Pointer) → produced (p ∷ ps) ≡ produced (p ∷ []) ++ produced ps
produced-cons none ps = refl
produced-cons (some e) ps = refl

-- A producer that accepts every message and keeps what it accepted, in order.
pub record Accepts {R : Type 0} (kafka : Producer R) (sent : R → List Produced) : Type 0 where
  pub accepts : (m : Produced) (rk : R) → (kafka.producev m rk).0 ≡ Resp.no_error
  pub keeps : (m : Produced) (rk : R) → sent (kafka.producev m rk).1 ≡ sent rk ++ (m ∷ [])
  pub polls : (n : ℕ) (rk : R) → sent (kafka.poll n rk) ≡ sent rk
  pub flushes : (t : ℤ) (rk : R) → sent (kafka.flush t rk) ≡ sent rk

module _ {R : Type 0} (kafka : Producer R) (sent : R → List Produced)
    (ok : Accepts kafka sent) where
  -- The sink's producer has accepted these, and no call has failed.
  pub record Sent (self : RedPandaSink R) (ms : List Produced) : Type 0 where
    pub rk : R
    pub is_open : self.producer ≡ some rk
    pub accepted : sent rk ≡ ms
    pub none_failed : self.failed ≡ []

  submit-Sent :
      (p : Pointer) (self : RedPandaSink R) (ms : List Produced)
      → Sent self ms
      → Sent (RedPanda.submit kafka p self) (ms ++ produced (p ∷ []))
  unfolding RedPanda.submit RedPanda.submit_to
  submit-Sent none self ms s =
      subst (λ r. Sent r (ms ++ []))
        (sym (ap (λ o. RedPanda.submit_to kafka o none self) s.is_open))
        (subst (Sent self) (sym (append-nil ms)) s)
  submit-Sent (some e) self ms s =
      let m = record_of e in
      let rk' = (kafka.producev m s.rk).1 in
      let taken =
        ap (λ o. RedPanda.submit_to kafka o (some e) self) s.is_open
        ∙ ap (λ resp. RedPanda.after kafka self e (resp, rk')) (ok.accepts m s.rk) in
      subst (λ r. Sent r (ms ++ (m ∷ []))) (sym taken)
        (record {
          rk = kafka.poll 0 rk';
          is_open = refl;
          accepted = ok.polls 0 rk' ∙ ok.keeps m s.rk ∙ ap (λ l. l ++ (m ∷ [])) s.accepted;
          none_failed = s.none_failed;
        })

  flush-Sent :
      (t : ℤ) (self : RedPandaSink R) (ms : List Produced)
      → Sent self ms
      → Sent (RedPanda.flush kafka t self) ms
  unfolding RedPanda.flush
  flush-Sent t self ms s = record {
    rk = kafka.flush t s.rk;
    is_open = ap (RedPanda.flushed kafka t) s.is_open;
    accepted = ok.flushes t s.rk ∙ s.accepted;
    none_failed = s.none_failed;
  }

  calls-Sent :
      (cs : List Call) (self : RedPandaSink R) (ms : List Produced)
      → Sent self ms
      → Sent
          (calls_on (RedPanda.submit kafka) (RedPanda.flush kafka) cs self)
          (ms ++ produced (given cs))
  unfolding calls_on given
  calls-Sent [] self ms s = subst (Sent self) (sym (append-nil ms)) s
  calls-Sent (give p ∷ cs) self ms s =
      subst
        (Sent (
          calls_on (RedPanda.submit kafka) (RedPanda.flush kafka) cs
            (RedPanda.submit kafka p self)))
        (append_assoc ms (produced (p ∷ [])) (produced (given cs))
          ∙ ap (◌++◌ ms) (sym (produced-cons p (given cs))))
        (calls-Sent cs (RedPanda.submit kafka p self) (ms ++ produced (p ∷ []))
          (submit-Sent p self ms s))
  calls-Sent (flush_call t ∷ cs) self ms s =
      calls-Sent cs (RedPanda.flush kafka t self) ms (flush-Sent t self ms s)

  -- From a running downstream whose sink is open, as long as fewer messages are queued and come in than
  -- the queue has slots, and for a producer that accepts: by the time `stop` returns, exactly those
  -- messages were produced, once and in order, each with its topic, key, payload and time, and none has
  -- failed.
  pub stop_produces_all :
      (evs : List Event) {d : Downstream (RedPandaSink R)} (q : List Pointer) (ms : List Produced)
      → Serves d q
      → length q + length (submissions evs) < queue_slots
      → Sent d.sink ms
      → Sent
          (stop (RedPanda.sink kafka) (run (RedPanda.sink kafka) evs d)).sink
          (ms ++ produced (q ++ submissions evs))
  stop_produces_all evs {d} q ms serves few s =
      let (reached, all) = stop_delivers_all (RedPanda.sink kafka) evs q serves few in
      subst (λ self. Sent self (ms ++ produced (q ++ submissions evs))) (sym reached)
        (subst
          (λ ps.
            Sent
              (calls_on (RedPanda.submit kafka) (RedPanda.flush kafka)
                (all_calls (RedPanda.sink kafka) q evs) d.sink)
              (ms ++ produced ps))
          all (calls-Sent (all_calls (RedPanda.sink kafka) q evs) d.sink ms s))
