-- ===== src/Program/Wiring.antt =====
-- What `main` sets up from a loaded configuration.
use momo_hdb.Base.{
  ◌≡◌, ◌≤◌, ◌^◌, leb, arith, refl, fun_ext, sym, ap, ap₂, subst, ◌∙◌, Bool, true, false, some, List,
  [], ◌∷◌, ◌++◌, map, length, All, Text, ◌==◌, append_assoc, append-nil,
}
use momo_hdb.Yaml.{Call, returned, Attempt, done}
use momo_hdb.Config.{AppConfig, LoggerCfg, ConfigError, DownstreamCfg, SinkCfg, redpanda, demo_log}
use momo_hdb.Downstream.{Downstream, start}
use momo_hdb.Downstream.Delivery.{Serves}
use momo_hdb.Downstream.Guarantees.{new_queue, new_downstream_eq, start-Serves}
use momo_hdb.Dispatcher.{Dispatcher, add_downstream, make_dispatcher}
use momo_hdb.RedPanda.{Producer, RedPandaSink, make_sink, settings}
use momo_hdb.RedPanda
use momo_hdb.Ring.Refine.{Holds}
use momo_hdb.Manager.Push.Capacity.{new_inbox_lem}
use momo_hdb.Program

-- A librdkafka that takes every setting and makes a producer.
pub record Configures {R : Type 0} (kafka : Producer R) : Type 0 where
  pub sets : (key value : Text) → kafka.conf_set key value ≡ returned tt
  pub rk : R
  pub opens : (conf : List (Text × Text)) → kafka.create conf ≡ returned rk

abbrev HasBrokersIn : SinkCfg → Type 0
HasBrokersIn (redpanda rc) = (length rc.brokers == 0) ≡ false
HasBrokersIn demo_log = Unit

-- A sink for Kafka names its brokers.
abbrev pub HasBrokers : DownstreamCfg → Type 0
HasBrokers ds = HasBrokersIn ds.sink

abbrev name_if : Text → SinkCfg → List Text → List Text
name_if name (redpanda rc) names = name ∷ names
name_if name demo_log names = names

-- The names of the downstreams with a sink for Kafka.
abbrev pub sink_names : List DownstreamCfg → List Text
sink_names [] = []
sink_names (ds ∷ rest) = name_if ds.name ds.sink (sink_names rest)

module _ {R : Type 0} (kafka : Producer R) (ok : Configures kafka) where
  -- Running, with nothing queued and an open producer.
  pub record Ready (d : Downstream (RedPandaSink R)) : Type 0 where
    pub serves : Serves d []
    pub producer : d.sink.producer ≡ some ok.rk

  set_all_lem :
      (rest whole : List (Text × Text)) → RedPanda.set_all kafka rest whole ≡ returned whole
  unfolding RedPanda.set_all
  set_all_lem [] whole = refl
  set_all_lem ((key, value) ∷ rest) whole = rw (ok.sets key value) (set_all_lem rest whole)

  make_sink_lem :
      (name : Text) (opts : RedPanda.Options)
      → (length opts.brokers == 0) ≡ false
      → make_sink kafka name opts
        ≡ returned (record { name = name; producer = some ok.rk; failed = [] })
  unfolding RedPanda.make_sink
  make_sink_lem name opts e =
      rw (e, set_all_lem (settings opts) (settings opts), ok.opens (settings opts)) refl

  added_lem :
      (name : Text) (sink : RedPandaSink R) (d : Dispatcher (RedPandaSink R))
      → sink.producer ≡ some ok.rk
      → (one : Downstream (RedPandaSink R)) × (add_downstream name sink d
          ≡ some (record { downstreams = d.downstreams ++ (one ∷ []) }))
        × (one.name ≡ name)
        × Ready one
  unfolding add_downstream start
  added_lem name sink d e = (
    record { name = name; sink = sink; q = new_queue; running = true; worker = true },
    rw (new_downstream_eq name sink) refl,
    refl,
    record { serves = start-Serves name sink (new_downstream_eq name sink); producer = e },
  )

  -- The dispatcher has downstreams of these names, all ready.
  pub record Serving (names : List Text) (d : Dispatcher (RedPandaSink R)) : Type 0 where
    pub named : map (λ one. one.name) d.downstreams ≡ names
    pub ready : All Ready d.downstreams

  map-snoc :
      {A B : Type 0} (f : A → B) (xs : List A) (x : A)
      → map f (xs ++ (x ∷ [])) ≡ map f xs ++ (f x ∷ [])
  map-snoc f [] x = refl
  map-snoc f (y ∷ xs) x = ap (◌∷◌ (f y)) (map-snoc f xs x)

  All-snoc :
      {A : Type 0} (P : A → Type 0) (xs : List A) (x : A) → All P xs → P x → All P (xs ++ (x ∷ []))
  All-snoc P [] x h k = (k, tt)
  All-snoc P (y ∷ xs) x (p, h) k = (p, All-snoc P xs x h k)

  -- One configured downstream, before the others.
  add_one_lem :
      (name : Text) (sink : SinkCfg) (dss : List DownstreamCfg) (names : List Text)
      (d : Dispatcher (RedPandaSink R))
      → HasBrokersIn sink
      → Serving names d
      → ((names' : List Text) (d1 : Dispatcher (RedPandaSink R))
          → Serving names' d1
          → (d' : Dispatcher (RedPandaSink R)) × (Program.add_downstreams kafka dss d1
              ≡ returned d')
            × Serving (names' ++ sink_names dss) d')
      → (d' : Dispatcher (RedPandaSink R)) × (Program.then_add kafka
            (Program.add_downstreams kafka dss)
            (Program.add_one kafka name sink d)
          ≡ returned d')
        × Serving (names ++ name_if name sink (sink_names dss)) d'
  unfolding Program.sink_options
  add_one_lem name demo_log dss names d k s more = more names d s
  add_one_lem name (redpanda rc) dss names d k s more =
      let made = make_sink_lem name (Program.sink_options rc) k in
      let (one, added, called, ready) =
        added_lem name (record { name = name; producer = some ok.rk; failed = [] }) d refl in
      let serving : Serving (names ++ (name ∷ []))
          (record { downstreams = d.downstreams ++ (one ∷ []) }) =
        record {
          named =
              map-snoc (λ x. x.name) d.downstreams one
              ∙ ap₂ (λ ns n. ns ++ (n ∷ [])) s.named called;
          ready = All-snoc Ready d.downstreams one s.ready ready;
        } in
      let (d', e, s') =
        more (names ++ (name ∷ [])) (record { downstreams = d.downstreams ++ (one ∷ []) })
          serving in
      (
        d',
        rw (made, added) e,
        subst (λ ns. Serving ns d') (append_assoc names (name ∷ []) (sink_names dss)) s',
      )

  add_downstreams_lem :
      (dss : List DownstreamCfg) (names : List Text) (d : Dispatcher (RedPandaSink R))
      → All HasBrokers dss
      → Serving names d
      → (d' : Dispatcher (RedPandaSink R)) × (Program.add_downstreams kafka dss d ≡ returned d')
        × Serving (names ++ sink_names dss) d'
  unfolding Program.add_downstreams
  add_downstreams_lem [] names d h s =
      (d, refl, subst (λ ns. Serving ns d) (sym (append-nil names)) s)
  add_downstreams_lem (ds ∷ dss) names d (h, hs) s =
      add_one_lem ds.name ds.sink dss names d h s
        (λ names' d1 s1. add_downstreams_lem dss names' d1 hs s1)

  -- For a librdkafka that takes every setting, a configuration file that is there and loads, a logger that
  -- comes up, a capacity of at most 2 ^ 63, and sinks for Kafka that name their brokers, `main` comes to
  -- the manager's loop: its dispatcher has one downstream for each such sink, under its name and in the
  -- file's order, each running with nothing queued and an open producer, and none for the other sinks;
  -- and the manager has the configured options and an empty inbox of at least the configured capacity.
  pub main_lem :
      (exists : Text → Bool) (load : Text → Attempt ConfigError AppConfig)
      (init : LoggerCfg → Call (Unit {0})) (path : Text) (rest : List Text) {cfg : AppConfig}
      → exists path ≡ true
      → load path ≡ done cfg
      → init cfg.logger ≡ returned tt
      → cfg.submanager.capacity ≤ 2 ^ 63
      → All HasBrokers cfg.downstreams
      → (st : Program.Started R) × (Program.main kafka exists load init (path ∷ rest)
          ≡ Program.runs st)
        × Serving (sink_names cfg.downstreams) st.dispatcher
        × (st.options ≡ Program.manager_options cfg.submanager)
        × Holds st.inbox []
        × (cfg.submanager.capacity ≤ st.inbox.cap)
  unfolding Program.main Program.with_manager Program.manager_options make_dispatcher
  main_lem exists load init path rest {cfg} there loads logs small brokers =
      let (d, added, serving) =
        add_downstreams_lem cfg.downstreams [] (make_dispatcher []) brokers
          (record { named = refl; ready = tt }) in
      let opts = Program.manager_options cfg.submanager in
      let (inbox, made, empty, enough) = new_inbox_lem Program.blank_envelope opts small in
      let fits : leb cfg.submanager.capacity (2 ^ 63) ≡ true = ground arith in
      (
        record {
          dispatcher = d;
          options = opts;
          subscription_path = cfg.subscription;
          opend_ip = cfg.futu.opend_ip;
          opend_port = cfg.futu.opend_port;
          inbox = inbox;
        },
        rw (there, loads, logs, added, fits, made) refl,
        serving,
        refl,
        empty,
        enough,
      )

-- A downstream with other texts for its sink's client and compression.
abbrev with_settings_in : Text → Text → SinkCfg → SinkCfg
with_settings_in client compression (redpanda rc) =
    redpanda (record rc { client_id = client; compression = compression })
with_settings_in client compression demo_log = demo_log

abbrev pub with_settings : Text → Text → DownstreamCfg → DownstreamCfg
with_settings client compression ds = record ds {
  sink = with_settings_in client compression ds.sink;
}

add_one_settings :
    {R : Type 0} (kafka : Producer R) (client compression name : Text) (sink : SinkCfg)
    (d : Dispatcher (RedPandaSink R))
    → Program.add_one kafka name (with_settings_in client compression sink) d
      ≡ Program.add_one kafka name sink d
unfolding Program.sink_options
add_one_settings kafka client compression name (redpanda rc) d = refl
add_one_settings kafka client compression name demo_log d = refl

-- The client and the compression that the configuration names for its sinks make no difference: with any
-- other texts in their place, the same dispatcher is set up, or the same exception ends `main`.
pub ignored_settings :
    {R : Type 0} (kafka : Producer R) (client compression : Text) (dss : List DownstreamCfg)
    (d : Dispatcher (RedPandaSink R))
    → Program.add_downstreams kafka (map (with_settings client compression) dss) d
      ≡ Program.add_downstreams kafka dss d
unfolding Program.add_downstreams
ignored_settings kafka client compression [] d = refl
ignored_settings kafka client compression (ds ∷ dss) d =
    ap₂ (Program.then_add kafka) (fun_ext (ignored_settings kafka client compression dss))
      (add_one_settings kafka client compression ds.name ds.sink d)
