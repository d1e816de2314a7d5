-- ===== src/RedPanda.antt =====
-- momo_feed/{include,src}/sinks/RedPandaSink: the sink that produces to Kafka. librdkafka's producer is
-- an interface over its state `R`; the log keeps the envelopes of failed calls. The delivery reports are
-- in RedPanda.Report.
pub mod Delivery
pub mod Report
use momo_hdb.Base.{
  ℕ, ◌+◌, ◌-◌, ◌/◌, Bool, true, false, ◌==◌, Option, none, some, List, [], ◌∷◌, ◌++◌, Text, bytes,
  length, if◌then◌else◌,
}
use momo_hdb.Base.Int.{ℤ, pos, negsuc}
use momo_hdb.Decoders.{to_string}
use momo_hdb.Yaml.{Call, returned, raised}
use momo_hdb.Downstream.{Envelope, Pointer, ISink}

pub data Resp : Type 0 where
  no_error queue_full : Resp
  failure : ℕ → Resp

-- What one call of `rd_kafka_producev` is given.
pub record Produced : Type 0 where
  pub topic : Text
  pub timestamp_ms : ℤ
  pub key : Text
  pub payload : Text

pub record Producer (R : Type 0) : Type 0 where
  pub conf_set : Text → Text → Call (Unit {0})
  pub create : List (Text × Text) → Call R
  pub producev : Produced → R → Resp × R
  pub poll : ℕ → R → R
  pub flush : ℤ → R → R

pub record Options : Type 0 where
  pub brokers : Text
  pub client_id : Text
  pub compression : Text
  pub acks : Text
  pub message_timeout_ms : Option ℤ
  pub extra_conf : List (Text × Text)

abbrev pub default_options : Options
default_options = record {
  brokers = [];
  client_id = bytes "futu-feedhandler";
  compression = bytes "lz4";
  acks = bytes "all";
  message_timeout_ms = none;
  extra_conf = [];
}

pub record RedPandaSink (R : Type 0) : Type 0 where
  pub name : Text
  pub producer : Option R
  pub failed : List Envelope

unfoldable pub to_timestamp_ms : ℤ → ℤ
to_timestamp_ms (pos n) = pos (n / 1000000)
to_timestamp_ms (negsuc n) = pos 0

abbrev is_empty : Text → Bool
is_empty s = length s == 0

abbrev unless_empty : Text → Text → List (Text × Text)
unless_empty key value = if is_empty value then [] else (key, value) ∷ []

abbrev timeout_setting : Option ℤ → List (Text × Text)
timeout_setting none = []
timeout_setting (some ms) = (bytes "message.timeout.ms", to_string ms) ∷ []

-- The settings, in the order in which the constructor makes them.
unfoldable pub settings : Options → List (Text × Text)
settings options =
    (bytes "bootstrap.servers", options.brokers)
    ∷ (bytes "client.id", options.client_id)
    ∷ (unless_empty (bytes "compression.type") options.compression
        ++ (unless_empty (bytes "acks") options.acks
            ++ (timeout_setting options.message_timeout_ms ++ options.extra_conf)))

unfoldable pub record_of : Envelope → Produced
record_of e = record {
  topic = e.topic;
  timestamp_ms = to_timestamp_ms e.ts_ns;
  key = e.key;
  payload = e.payload;
}

module _ {R : Type 0} (kafka : Producer R) where
  abbrev then_set : Call (List (Text × Text)) → Call (Unit {0}) → Call (List (Text × Text))
  then_set rest (returned u) = rest
  then_set rest (raised what) = raised what

  -- The calls of `set_conf_or_throw`.
  unfoldable pub set_all : List (Text × Text) → List (Text × Text) → Call (List (Text × Text))
  set_all [] whole = returned whole
  set_all ((key, value) ∷ rest) whole =
      let later = set_all rest whole in then_set later (kafka.conf_set key value)

  abbrev with_producer : Text → Call R → Call (RedPandaSink R)
  with_producer name (returned rk) =
      returned (record { name = name; producer = some rk; failed = [] })
  with_producer name (raised what) = raised what

  abbrev created : Text → Call (List (Text × Text)) → Call (RedPandaSink R)
  created name (returned conf) = with_producer name (kafka.create conf)
  created name (raised what) = raised what

  -- The constructor.
  unfoldable pub make_sink : Text → Options → Call (RedPandaSink R)
  make_sink name options =
      if is_empty options.brokers
      then raised (bytes "RedPandaSink requires non-empty brokers")
      else created name (set_all (settings options) (settings options))

  -- What follows the call, by its result.
  abbrev pub after : RedPandaSink R → Envelope → Resp × R → RedPandaSink R
  after self e (Resp.no_error, rk) = record self { producer = some (kafka.poll 0 rk) }
  after self e (Resp.queue_full, rk) = record self {
    producer = some (kafka.poll 10 rk);
    failed = self.failed ++ (e ∷ []);
  }
  after self e (Resp.failure n, rk) = record self {
    producer = some rk;
    failed = self.failed ++ (e ∷ []);
  }

  unfoldable pub submit_to : Option R → Pointer → RedPandaSink R → RedPandaSink R
  submit_to none p self = self
  submit_to (some rk) none self = self
  submit_to (some rk) (some e) self = after self e (kafka.producev (record_of e) rk)

  unfoldable pub submit : Pointer → RedPandaSink R → RedPandaSink R
  submit p self = submit_to self.producer p self

  abbrev pub flushed : ℤ → Option R → Option R
  flushed timeout_ms none = none
  flushed timeout_ms (some rk) = some (kafka.flush timeout_ms rk)

  unfoldable pub flush : ℤ → RedPandaSink R → RedPandaSink R
  flush timeout_ms self = record self { producer = flushed timeout_ms self.producer }

  -- The destructor.
  unfoldable pub destroy : RedPandaSink R → RedPandaSink R
  destroy self = record (flush (pos 2000) self) { producer = none }

  -- The sink's virtual functions.
  abbrev pub sink : ISink (RedPandaSink R)
  sink = record { submit = submit; flush = flush }
