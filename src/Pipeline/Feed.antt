-- ===== src/Pipeline/Feed.antt =====
-- The feed as `main` of momo_feed puts it together: the manager's loop over the dispatcher, whose downstreams
-- produce to Kafka.
use momo_hdb.Base.{
  ℕ, ◌<◌, ◌≡◌, refl, sym, ap, subst, ◌∙◌, Bool, true, false, some, List, [], ◌∷◌, ◌++◌, All, Text,
  text_eq, map, length, arith, length-map, if◌then◌else◌,
}
use momo_hdb.Base.Int.{ℤ, pos}
use momo_hdb.Downstream.{
  Envelope, ISink, Downstream, Event, submitted, flushed, worked, handle, round, run, submit, flush,
  stop, queue_slots, pop_one,
}
use momo_hdb.Downstream.Delivery.{submissions, Serves}
use momo_hdb.Dispatcher.{Dispatcher, submit_envelope, dispatch, flush_all, destroy}
use momo_hdb.Manager.Run.Handover.{SinkEvent, gets, acts, given, handed, sink_events}
use momo_hdb.Manager.Run.Deliver.{befall, Holding, run_lem}
use momo_hdb.Manager.{Options, OverflowPolicy}
use momo_hdb.Manager.Run
use momo_hdb.Program.{dispatcher_sink}
use momo_hdb.RedPanda.{Producer, Produced, RedPandaSink, record_of}
use momo_hdb.RedPanda
use momo_hdb.RedPanda.Delivery.{Accepts, Sent, produced, stop_produces_all}

-- What befalls the dispatcher, for its downstream of this name.
abbrev pub events_for : Text → List SinkEvent → List Event
events_for name [] = []
events_for name (gets e ∷ es) = submitted (some e) ∷ events_for name es
events_for name (acts who ∷ es) =
    let rest = events_for name es in if text_eq name who then worked ∷ rest else rest

map-map :
    {A B C : Type 0} (f : B → C) (g : A → B) (h : A → C)
    → ((x : A) → f (g x) ≡ h x)
    → (xs : List A) → map f (map g xs) ≡ map h xs
map-map f g h e [] = refl
map-map f g h e (x ∷ xs) = λ i. e x i ∷ map-map f g h e xs i

map_same : {A : Type 0} (xs : List A) → map (λ x. x) xs ≡ xs
map_same [] = refl
map_same (x ∷ xs) = ap (λ l. x ∷ l) (map_same xs)

module _ {S : Type 0} (api : ISink S) where
  -- A round of the worker of each downstream with this name.
  abbrev pub work : Text → Dispatcher S → Dispatcher S
  work name d = record {
    downstreams = map (λ x. if text_eq x.name name then round api x else x) d.downstreams;
  }

  name-round : (d : Downstream S) → (round api d).name ≡ d.name
  unfolding round pop_one
  name-round d = ground arith

  -- All downstreams go through the events for their names.
  abbrev pub each_run : List SinkEvent → List (Downstream S) → List (Downstream S)
  each_run es ds = map (λ x. run api (events_for x.name es) x) ds

  submitted_then :
      (e : Envelope) (es : List SinkEvent) (x : Downstream S)
      → run api (events_for (submit (some e) x).name es) (submit (some e) x)
        ≡ run api (events_for x.name (gets e ∷ es)) x
  unfolding run handle submit
  submitted_then e es x = refl

  worked_then :
      (who : Text) (es : List SinkEvent) (x : Downstream S)
      → let x' = if text_eq x.name who then round api x else x in
        run api (events_for x'.name es) x' ≡ run api (events_for x.name (acts who ∷ es)) x
  unfolding run handle
  worked_then who es x = by_test (text_eq x.name who)
    where
      by_test :
          (b : Bool)
          → let x' = if b then round api x else x in
            run api (events_for x'.name es) x'
            ≡ run api (if b then worked ∷ events_for x.name es else events_for x.name es) x
      by_test true = ap (λ n. run api (events_for n es) (round api x)) (name-round x)
      by_test false = refl

  befall_each :
      (es : List SinkEvent) (d : Dispatcher S)
      → (befall (dispatcher_sink api) work es d).downstreams ≡ each_run es d.downstreams
  unfolding submit_envelope dispatch run
  befall_each [] d = sym (map_same d.downstreams)
  befall_each (gets e ∷ es) d =
      befall_each es (submit_envelope e d)
      ∙ map-map (λ x. run api (events_for x.name es) x) (submit (some e))
          (λ x. run api (events_for x.name (gets e ∷ es)) x) (submitted_then e es) d.downstreams
  befall_each (acts who ∷ es) d =
      befall_each es (work who d)
      ∙ map-map (λ x. run api (events_for x.name es) x)
          (λ x. if text_eq x.name who then round api x else x)
          (λ x. run api (events_for x.name (acts who ∷ es)) x) (worked_then who es) d.downstreams

  run-snoc :
      (evs : List Event) (ev : Event) (x : Downstream S)
      → handle api ev (run api evs x) ≡ run api (evs ++ (ev ∷ [])) x
  unfolding run
  run-snoc [] ev x = refl
  run-snoc (e ∷ evs) ev x = run-snoc evs ev (handle api e x)

  -- The end of the loop and the destructor: each downstream is flushed and stopped.
  pub destroyed_each :
      (es : List SinkEvent) (t : ℤ) (d : Dispatcher S)
      → (destroy api (flush_all api t (befall (dispatcher_sink api) work es d))).downstreams
        ≡ map (λ x. stop api (run api (events_for x.name es ++ (flushed t ∷ [])) x)) d.downstreams
  unfolding destroy flush_all handle
  destroyed_each es t d =
      ap (λ l. map (stop api) (map (flush api t) l)) (befall_each es d)
      ∙ ap (map (stop api)) (
          map-map (flush api t) (λ x. run api (events_for x.name es) x)
            (λ x. run api (events_for x.name es ++ (flushed t ∷ [])) x)
            (λ x. run-snoc (events_for x.name es) (flushed t) x) d.downstreams)
      ∙ map-map (stop api) (λ x. run api (events_for x.name es ++ (flushed t ∷ [])) x)
          (λ x. stop api (run api (events_for x.name es ++ (flushed t ∷ [])) x)) (λ x. refl)
          d.downstreams

-- What a downstream is submitted is what the dispatcher was given, whatever its workers do.
submissions-events_for :
    (name : Text) (es : List SinkEvent) (t : ℤ)
    → submissions (events_for name es ++ (flushed t ∷ [])) ≡ map some (given es)
unfolding submissions
submissions-events_for name [] t = refl
submissions-events_for name (gets e ∷ es) t =
    ap (λ l. some e ∷ l) (submissions-events_for name es t)
submissions-events_for name (acts who ∷ es) t =
    by_test (text_eq name who) (submissions-events_for name es t)
  where
    by_test :
        (b : Bool)
        → submissions (events_for name es ++ (flushed t ∷ [])) ≡ map some (given es)
        → submissions
            ((if b then worked ∷ events_for name es else events_for name es) ++ (flushed t ∷ []))
          ≡ map some (given es)
    by_test true ih = ih
    by_test false ih = ih

produced-map : (es : List Envelope) → produced (map some es) ≡ map record_of es
produced-map [] = refl
produced-map (e ∷ es) = ap (λ l. record_of e ∷ l) (produced-map es)

All-map :
    {A B : Type 0} (P : B → Type 0) (Q : A → Type 0) (f : A → B)
    → ((x : A) → Q x → P (f x))
    → (xs : List A) → All Q xs
    → All P (map f xs)
All-map P Q f each [] all = tt
All-map P Q f each (x ∷ xs) all = (each x all.0, All-map P Q f each xs all.1)

module _ {R : Type 0} (kafka : Producer R) (sent : R → List Produced)
    (ok : Accepts kafka sent) where
  -- A downstream fresh from `main`: running, nothing queued, and nothing produced yet.
  pub record IsFresh (x : Downstream (RedPandaSink R)) : Type 0 where
    pub serves : Serves x []
    pub silent : Sent kafka sent ok x.sink []

  one_downstream :
      (es : List SinkEvent) (t : ℤ)
      → length (given es) < queue_slots
      → (x : Downstream (RedPandaSink R)) → IsFresh x
      → Sent kafka sent ok
          (stop
            (RedPanda.sink kafka)
            (run (RedPanda.sink kafka) (events_for x.name es ++ (flushed t ∷ [])) x)).sink
          (map record_of (given es))
  one_downstream es t few x fresh =
      let evs = events_for x.name es ++ (flushed t ∷ []) in
      let all = submissions-events_for x.name es t in
      let count : length (submissions evs) ≡ length (given es) =
        ap length all ∙ length-map (given es) some in
      subst (Sent kafka sent ok (stop (RedPanda.sink kafka) (run (RedPanda.sink kafka) evs x)).sink)
        (ap produced all ∙ produced-map (given es))
        (stop_produces_all kafka sent ok evs [] [] fresh.serves (omega (arith, count)) fresh.silent)

  -- The feed with downstreams fresh from `main`, a settled manager that drops the oldest envelope of a
  -- full inbox, and a librdkafka that accepts: through any turns of the loop that hand over fewer
  -- envelopes than a downstream's queue has slots, whatever happens between them, the rounds of the
  -- downstreams' workers included, by the time the dispatcher is destroyed every downstream has
  -- produced exactly the envelopes that were handed over, once and in order, and none has failed.
  pub feed_lem :
      (moved : Envelope → Envelope) (blank : Envelope) (ts : List Run.Turn) (q : List Envelope)
      (cap : ℕ) (st : Run.Running (Dispatcher (RedPandaSink R))) {opts : Options}
      → opts.overflow ≡ OverflowPolicy.drop_oldest
      → Holding opts cap q st
      → All IsFresh st.sink.downstreams
      → length (handed cap ts q) < queue_slots
      → let api = RedPanda.sink kafka in
        let st' = Run.run moved blank (dispatcher_sink api) (work api) ts st in
        All
          (λ x. Sent kafka sent ok x.sink (map record_of (handed cap ts q)))
          (destroy api st'.sink).downstreams
  feed_lem moved blank ts q cap st policy holding fresh few =
      let api = RedPanda.sink kafka in
      let es = sink_events cap ts q in
      let (sunk, same, held) =
        run_lem moved blank (dispatcher_sink api) (work api) policy cap ts q st holding in
      let end =
        ap (λ d. (destroy api d).downstreams) sunk ∙ destroyed_each api es (pos 3000) st.sink in
      subst
        (λ l.
          All (λ x. Sent kafka sent ok x.sink (map record_of l))
            (destroy api
              (Run.run moved blank (dispatcher_sink api) (work api) ts st).sink).downstreams)
        same
        (subst (All (λ x. Sent kafka sent ok x.sink (map record_of (given es)))) (sym end) (
          All-map _ IsFresh _ (one_downstream es (pos 3000) (omega (arith, ap length same)))
            st.sink.downstreams fresh))
