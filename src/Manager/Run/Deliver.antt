-- ===== src/Manager/Run/Deliver.antt =====
-- What the whole of `run` does: it keeps the subscriptions and hands on what arrives.
use momo_hdb.Base.{
  map, Text, Option, ℕ, ◌≡◌, refl, sym, ap, subst, ◌∙◌, Bool, none, some, List, [], ◌∷◌, ◌++◌, take,
  drop,
}
use momo_hdb.Ring.Refine.{Holds}
use momo_hdb.Ring.Overflow.{offer, cap-pop_many}
use momo_hdb.Downstream.{Envelope}
use momo_hdb.Manager.{Options, OverflowPolicy, nothing_sent, on_connected, control_cycle}
use momo_hdb.Manager.Push.{Sink, data_plane, submit_batch, batch_max}
use momo_hdb.Manager.Push.Inbox.{Inbox, enqueue_drop, data_plane_lem}
use momo_hdb.Manager.Settled.{IsSettled}
use momo_hdb.Manager.Cycle.{control_cycle-IsSettled}
use momo_hdb.Manager.Run
use momo_hdb.Manager.Run.Untouched.{control_same, IsSettled-inbox, connected-IsSettled}
use momo_hdb.Manager.Run.Handover.{
  SinkEvent, gets, acts, acts_of, sink_events, given, given-sink_events, arrive_all, handed, unsent,
  all_arrivals, AllRoom, handed-unsent,
}

-- A manager that drops at a full inbox holds `q` there and believes what is so of its session.
pub record Holding {S : Type 0} (opts : Options) (cap : ℕ) (q : List Envelope) (st : Run.Running S)
    : Type 0 where
  pub inbox : Inbox opts cap q st.manager
  pub settled : IsSettled st.manager st.subscribed

abbrev pub submit_one : {S : Type 0} → Option (Envelope → S → S) → Envelope → S → S
submit_one none e s = s
submit_one (some f) e s = f e s

module _ {S : Type 0} (sink : Sink S) (work : Text → S → S) where
  -- The sink's state after what befalls it.
  abbrev pub befall : List SinkEvent → S → S
  befall [] s = s
  befall (gets e ∷ es) s = befall es (submit_one sink.submit e s)
  befall (acts name ∷ es) s = befall es (work name s)

  befall-append : (es fs : List SinkEvent) (s : S) → befall (es ++ fs) s ≡ befall fs (befall es s)
  befall-append [] fs s = refl
  befall-append (gets e ∷ es) fs s = befall-append es fs (submit_one sink.submit e s)
  befall-append (acts name ∷ es) fs s = befall-append es fs (work name s)

submit_batch-nil : {S : Type 0} (f : Option (Envelope → S → S)) (s : S) → submit_batch f [] s ≡ s
unfolding submit_batch
submit_batch-nil none s = refl
submit_batch-nil (some f) s = refl

submit_batch-cons :
    {S : Type 0} (f : Option (Envelope → S → S)) (e : Envelope) (es : List Envelope) (s : S)
    → submit_batch f (e ∷ es) s ≡ submit_batch f es (submit_one f e s)
unfolding submit_batch
submit_batch-cons none e es s = refl
submit_batch-cons (some f) e es s = refl

submit_batch-befall :
    {S : Type 0} (sink : Sink S) (work : Text → S → S) (es : List Envelope) (s : S)
    → submit_batch sink.submit es s ≡ befall sink work (map gets es) s
submit_batch-befall sink work [] s = submit_batch-nil sink.submit s
submit_batch-befall sink work (e ∷ es) s =
    submit_batch-cons sink.submit e es s
    ∙ submit_batch-befall sink work es (submit_one sink.submit e s)

module _ {S : Type 0} (moved : Envelope → Envelope) (blank : Envelope) (sink : Sink S)
    (work : Text → S → S) {opts : Options} (policy : opts.overflow ≡ OverflowPolicy.drop_oldest)
    (cap : ℕ) where
  arrival-Holding :
      (e : Envelope) (q : List Envelope) (st : Run.Running S)
      → Holding opts cap q st
      → Holding opts cap (offer cap e q) (Run.happen moved blank sink work (Run.arrives e) st)
  unfolding Run.happen
  arrival-Holding e q st h =
      let i = h.inbox in
      let (r, eq, caps, held) =
        enqueue_drop moved blank e st.manager q (ap (λ o. o.overflow) i.same_opts ∙ policy)
          i.queued in
      subst (λ p. Holding opts cap (offer cap e q) (record st { manager = Run.manager_after p }))
        (sym eq)
        (record {
          inbox = record {
            same_opts = i.same_opts;
            same_cap = caps ∙ i.same_cap;
            queued = subst (λ c. Holds r (offer c e q)) i.same_cap held;
          };
          settled = IsSettled-inbox h.settled;
        })

  connection-Holding :
      (success : Bool) (q : List Envelope) (st : Run.Running S)
      → Holding opts cap q st
      → Holding opts cap q (Run.happen moved blank sink work (Run.connects success) st)
  unfolding Run.happen on_connected
  connection-Holding success q st h = record {
    inbox = record {
      same_opts = h.inbox.same_opts;
      same_cap = h.inbox.same_cap;
      queued = h.inbox.queued;
    };
    settled = connected-IsSettled success st.manager st.subscribed h.settled;
  }

  happen_all-Holding :
      (hs : List Run.Happening) (q : List Envelope) (st : Run.Running S)
      → Holding opts cap q st
      → let st' = Run.happen_all moved blank sink work hs st in
        (st'.sink ≡ befall sink work (acts_of hs) st.sink)
        × Holding opts cap (arrive_all cap hs q) st'
  unfolding Run.happen_all Run.happen
  happen_all-Holding [] q st h = (refl, h)
  happen_all-Holding (Run.arrives e ∷ hs) q st h =
      happen_all-Holding hs (offer cap e q) (Run.happen moved blank sink work (Run.arrives e) st)
        (arrival-Holding e q st h)
  happen_all-Holding (Run.connects success ∷ hs) q st h =
      happen_all-Holding hs q (Run.happen moved blank sink work (Run.connects success) st)
        (connection-Holding success q st h)
  happen_all-Holding (Run.works name ∷ hs) q st h =
      happen_all-Holding hs q (record st { sink = work name st.sink })
        (record { inbox = h.inbox; settled = h.settled })

  turn-Holding :
      (t : Run.Turn) (q : List Envelope) (st : Run.Running S)
      → Holding opts cap q st
      → let st' = Run.turn moved blank sink work t st in
        (st'.sink ≡ submit_batch sink.submit (take batch_max q) st.sink)
        × Holding opts cap (drop batch_max q) st'
  unfolding Run.turn data_plane
  turn-Holding t q st h =
      let same = control_same t.serial t.now t.stat t.loaded st.manager in
      let m = (control_cycle t.serial t.now t.stat t.loaded st.manager nothing_sent).0 in
      let (sent, rest) =
        data_plane_lem moved blank sink m st.sink q
          (subst (λ r. Holds r q) (sym same.inbox) h.inbox.queued) in
      (
        sent,
        record {
          inbox = record {
            same_opts = same.opts ∙ h.inbox.same_opts;
            same_cap =
                cap-pop_many moved blank [] batch_max m.inbox
                ∙ ap (λ r. r.cap) same.inbox
                ∙ h.inbox.same_cap;
            queued = rest;
          };
          settled = IsSettled-inbox (
              control_cycle-IsSettled t.serial t.now t.stat t.loaded st.manager st.subscribed
                h.settled);
        },
      )

  -- A run of these turns does these things to the sink, flushes it, and leaves the rest in the inbox.
  run-Holding :
      (ts : List Run.Turn) (q : List Envelope) (st : Run.Running S)
      → Holding opts cap q st
      → let st' = Run.run moved blank sink work ts st in
        (st'.sink ≡ Run.flush_if sink.flush (befall sink work (sink_events cap ts q) st.sink))
        × Holding opts cap (unsent cap ts q) st'
  unfolding Run.run
  run-Holding [] q st h = (refl, record { inbox = h.inbox; settled = h.settled })
  run-Holding (t ∷ ts) q st h =
      let st1 = Run.turn moved blank sink work t st in
      let (sent, h1) = turn-Holding t q st h in
      let st2 = Run.happen_all moved blank sink work t.meanwhile st1 in
      let (acted, h2) = happen_all-Holding t.meanwhile (drop batch_max q) st1 h1 in
      let q2 = arrive_all cap t.meanwhile (drop batch_max q) in
      let (end, h3) = run-Holding ts q2 st2 h2 in
      let batch = map gets (take batch_max q) in
      let rest = sink_events cap ts q2 in
      let done : st2.sink
          ≡ befall sink work (acts_of t.meanwhile) (befall sink work batch st.sink) =
        acted
        ∙ ap (befall sink work (acts_of t.meanwhile))
            (sent ∙ submit_batch-befall sink work (take batch_max q) st.sink) in
      (
        end
            ∙ ap (λ s. Run.flush_if sink.flush (befall sink work rest s)) done
            ∙ ap (Run.flush_if sink.flush) (
                sym (
                  befall-append sink work batch (acts_of t.meanwhile ++ rest) st.sink
                  ∙ befall-append sink work (acts_of t.meanwhile) rest
                      (befall sink work batch st.sink))),
        h3,
      )

  -- From a settled manager that drops the oldest envelope of a full inbox, through any turns of `run`
  -- and whatever happens between them, the rounds of the sink's own threads included: what befalls the
  -- sink is the batches of the turns, in order, those rounds where they come, and one flush at the
  -- end; the inbox holds the envelopes that no turn took; and what the manager believes of its
  -- subscriptions is so.
  pub run_lem :
      (ts : List Run.Turn) (q : List Envelope) (st : Run.Running S)
      → Holding opts cap q st
      → let st' = Run.run moved blank sink work ts st in
        (st'.sink ≡ Run.flush_if sink.flush (befall sink work (sink_events cap ts q) st.sink))
        × (given (sink_events cap ts q) ≡ handed cap ts q)
        × Holding opts cap (unsent cap ts q) st'
  run_lem ts q st h =
      let (sunk, held) = run-Holding ts q st h in (sunk, given-sink_events cap ts q, held)

  -- From such a manager, when each arrival finds room in the inbox: what befalls the sink gives it a
  -- list of envelopes and the inbox is left with another, and the first followed by the second is
  -- what was queued and arrived, in order. What is left then is never handed over.
  pub run_keeps_all :
      (ts : List Run.Turn) (q : List Envelope) (st : Run.Running S)
      → Holding opts cap q st
      → AllRoom cap ts q
      → let st' = Run.run moved blank sink work ts st in
        (es : List SinkEvent) × (rest : List Envelope) × (st'.sink
          ≡ Run.flush_if sink.flush (befall sink work es st.sink))
        × Holding opts cap rest st'
        × (given es ++ rest ≡ q ++ all_arrivals ts)
  run_keeps_all ts q st h room =
      let (sunk, held) = run-Holding ts q st h in
      (
        sink_events cap ts q,
        unsent cap ts q,
        sunk,
        held,
        ap (λ l. l ++ unsent cap ts q) (given-sink_events cap ts q) ∙ handed-unsent cap ts q room,
      )
