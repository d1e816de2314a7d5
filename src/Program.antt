-- ===== src/Program.antt =====
-- momo_feed/src/main.cpp: from the arguments to the parts that run. The loader of the configuration, the
-- file system's test, what spdlog makes of the logger's settings, and librdkafka are arguments; the callbacks are in Session.Wiring. The session
-- that `main` then makes and starts is in Session.Link, where its start never fails; the signals are
-- not here.
pub mod Wiring
use momo_hdb.Base.{
  ℕ, ◌^◌, leb, Bool, true, false, not, Option, none, some, List, [], ◌∷◌, Text, bytes,
  if◌then◌else◌,
}
use momo_hdb.Base.Int.{ℤ, pos, pos_part}
use momo_hdb.Ring.{Ring}
use momo_hdb.Yaml.{Call, returned, raised, Attempt, done, failed, threw}
use momo_hdb.Config.{
  Overflow, LoggerCfg, AppConfig, ConfigError, DownstreamCfg, SinkCfg, RedpandaSinkCfg,
  SubscriptionManagerCfg, redpanda, demo_log, error_string,
}
use momo_hdb.Manager.{OverflowPolicy, Options}
use momo_hdb.Downstream.{ISink, Envelope}
use momo_hdb.Manager.Push.{Sink, new_inbox}
use momo_hdb.Dispatcher.{Dispatcher, add_downstream, make_dispatcher, submit_envelope, flush_all}
use momo_hdb.RedPanda.{RedPandaSink, Producer, default_options, make_sink}
use momo_hdb.RedPanda

unfoldable pub to_queue_overflow : Overflow → OverflowPolicy
to_queue_overflow Overflow.block = OverflowPolicy.block
to_queue_overflow Overflow.drop_oldest = OverflowPolicy.drop_oldest

unfoldable pub manager_options : SubscriptionManagerCfg → Options
manager_options cfg = record {
  refresh_interval = pos_part cfg.refresh_ms;
  capacity = cfg.capacity;
  overflow = to_queue_overflow cfg.overflow;
  first_push = cfg.first_push;
}

-- What is running when `run` is called: the dispatcher and what the manager and the session were given.
pub record Started (R : Type 0) : Type 0 where
  pub dispatcher : Dispatcher (RedPandaSink R)
  pub options : Options
  pub subscription_path : Text
  pub opend_ip : Text
  pub opend_port : ℤ
  pub inbox : Ring Envelope

-- How `main` ends, or comes to the loop: with an exit code, by an exception that nothing catches, or not
-- at all, where `next_pow2` in the manager's constructor loops for ever.
pub data Outcome (R : Type 0) : Type 0 where
  exits : ℕ → Text → Outcome R
  runs : Started R → Outcome R
  terminates : Text → Outcome R
  hangs : Outcome R

-- A default `Envelope`, which the inbox's slots hold at first.
abbrev pub blank_envelope : Envelope
blank_envelope = record { topic = []; key = []; payload = []; ts_ns = pos 0 }

-- The `sink` that `main` gives the manager.
abbrev pub dispatcher_sink : {S : Type 0} → ISink S → Sink (Dispatcher S)
dispatcher_sink api = record { submit = some submit_envelope; flush = some (flush_all api) }

unfoldable pub sink_options : RedpandaSinkCfg → RedPanda.Options
sink_options rc = record default_options { brokers = rc.brokers; acks = rc.acks }

module _ {R : Type 0} (kafka : Producer R) where
  abbrev pub added : Option (Dispatcher (RedPandaSink R)) → Call (Dispatcher (RedPandaSink R))
  added none = raised (bytes "SPSCQueue")
  added (some d) = returned d

  abbrev pub with_sink :
      Text
      → Dispatcher (RedPandaSink R)
      → Call (RedPandaSink R)
      → Call (Dispatcher (RedPandaSink R))
  with_sink name d (raised what) = raised what
  with_sink name d (returned sink) = added (add_downstream name sink d)

  abbrev pub then_add :
      (Dispatcher (RedPandaSink R) → Call (Dispatcher (RedPandaSink R)))
      → Call (Dispatcher (RedPandaSink R))
      → Call (Dispatcher (RedPandaSink R))
  then_add more (raised what) = raised what
  then_add more (returned d) = more d

  abbrev pub add_one :
      Text → SinkCfg → Dispatcher (RedPandaSink R) → Call (Dispatcher (RedPandaSink R))
  add_one name (redpanda rc) d = with_sink name d (make_sink kafka name (sink_options rc))
  add_one name demo_log d = returned d

  -- The loop over the configured downstreams.
  unfoldable pub add_downstreams :
      List DownstreamCfg → Dispatcher (RedPandaSink R) → Call (Dispatcher (RedPandaSink R))
  add_downstreams [] d = returned d
  add_downstreams (ds ∷ rest) d = then_add (add_downstreams rest) (add_one ds.name ds.sink d)

  abbrev pub with_inbox :
      AppConfig → Dispatcher (RedPandaSink R) → Option (Ring Envelope) → Outcome R
  with_inbox cfg d none = terminates (bytes "SPSCQueue")
  with_inbox cfg d (some inbox) = runs (record {
    dispatcher = d;
    options = manager_options cfg.submanager;
    subscription_path = cfg.subscription;
    opend_ip = cfg.futu.opend_ip;
    opend_port = cfg.futu.opend_port;
    inbox = inbox;
  })

  -- The manager's constructor makes its inbox. The doubling of `next_pow2` wraps to 0, and the loop never
  -- ends, for a capacity above 2 ^ 63.
  unfoldable pub with_manager : AppConfig → Dispatcher (RedPandaSink R) → Outcome R
  with_manager cfg d =
      if leb cfg.submanager.capacity (2 ^ 63)
      then with_inbox cfg d (new_inbox blank_envelope (manager_options cfg.submanager))
      else hangs

  abbrev wired : AppConfig → Call (Dispatcher (RedPandaSink R)) → Outcome R
  wired cfg (raised what) = terminates what
  wired cfg (returned d) = with_manager cfg d

  abbrev logging : AppConfig → Call (Unit {0}) → Outcome R
  logging cfg (raised what) = terminates what
  logging cfg (returned u) = wired cfg (add_downstreams cfg.downstreams (make_dispatcher []))

  abbrev configured : (LoggerCfg → Call (Unit {0})) → Attempt ConfigError AppConfig → Outcome R
  configured init (threw what) = terminates what
  configured init (failed e) = exits 1 (error_string e)
  configured init (done cfg) = logging cfg (init cfg.logger)

  -- `main`, up to the manager's loop, on the arguments behind the program's name; `init` is
  -- `logger::init`, which throws where spdlog cannot open the log.
  unfoldable pub main :
      (Text → Bool)
      → (Text → Attempt ConfigError AppConfig)
      → (LoggerCfg → Call (Unit {0}))
      → List Text
      → Outcome R
  main exists load init [] = exits 2 (bytes "Usage: futu_feeder <config.yaml>")
  main exists load init (config_path ∷ rest) =
      if not (exists config_path)
      then exits 1 (bytes "config_not_found")
      else configured init (load config_path)
