-- ===== src/Tests/Kafka.antt =====
-- The theorems on the Kafka client and the q interface.
use momo_hdb.Base.{ℕ, ◌≡◌, refl, true, false, Option, none, some}
use momo_hdb.Base.{List, [], ◌∷◌, Text, bytes, length, arith}
use momo_hdb.Base.Int.{pos}
use momo_hdb.Ring.{Ring, make, try_push}
use momo_hdb.Ring.Refine.{Holds, try_push_room}
use momo_hdb.Ring.Batch.{make-Holds}
use momo_hdb.Decoders
use momo_hdb.Kfkpb
use momo_hdb.Kfkpb.Flow
use momo_hdb.Yaml.{returned}
use momo_hdb.Qapi
use momo_hdb.Qapi.Handles.{given_handle_refused}
use momo_hdb.Qapi.Topics.{Outcome, all_known, subscribe_lem}
use momo_hdb.Qapi.Callback.{callback_lem}
use momo_hdb.Qapi.Results.{Returns, IsByteList, results_lem}
use momo_hdb.Qapi.Build
use momo_hdb.Base.{text_eq, if◌then◌else◌}
use momo_hdb.Base.{All}
use momo_hdb.Kfkpb.Drain
use momo_hdb.Kfkpb.Drain.Sweep.{AllHold, none_left, one_more}
use momo_hdb.Kfkpb.Drain.Order.{drain_to_lem, all_empty}

abbrev pub hash : Text → ℕ
hash key = length key

abbrev pub raw : Kfkpb.RawMsg
raw = record {
  topic = bytes "futu.ticker.pb";
  key = bytes "HK.00700";
  payload = 1 ∷ [];
  ts_ns = pos 7;
  is_error = false;
  err_msg = [];
}

abbrev pub small : {A : Type 0} → List (Option A) → ℕ → Ring (Option A)
small slots head = record { cap = 2; mask = 1; buf = slots; head = head; tail = 0 }

small_made : {A : Type 0} → make {T = Option A} none 2 ≡ some (small (none ∷ none ∷ []) 0)
unfolding make
small_made = refl

pub small-Holds : {A : Type 0} → Holds (small {A = A} (none ∷ none ∷ []) 0) []
small-Holds = make-Holds none 2 (omega arith) small_made

-- A client of one worker, with room for one message and one event.
abbrev pub client : Ring (Option Kfkpb.RawMsg) → Kfkpb.Client
client ring = record {
  topic_types = (bytes "futu.ticker.pb", Kfkpb.MsgType.ticker) ∷ [];
  seek_from_ms = none;
  cfg_epoch = 1;
  raw_qs = ring ∷ [];
  raw_epochs = 0 ∷ [];
  evt_qs = small (none ∷ none ∷ []) 0 ∷ [];
  drain_rr = 0;
  fallback_rr = 0;
}

abbrev pub empty_client : Kfkpb.Client
empty_client = client (small (none ∷ none ∷ []) 0)

abbrev one_raw : Ring (Option Kfkpb.RawMsg)
one_raw = (try_push (some raw) (small (none ∷ none ∷ []) 0)).1

one_raw-Holds : Holds one_raw (some raw ∷ [])
one_raw-Holds = (try_push_room (some raw) [] small-Holds (omega arith)).1

abbrev pub decode : Kfkpb.MsgType → Kfkpb.RawMsg → Decoders.Decoded
decode mt m = Decoders.kbytes m.payload

decoded_event_lem_example :
    Flow.Says raw raw.is_error
      (Kfkpb.is_unknown (Kfkpb.type_of_topic empty_client.topic_types raw.topic))
      (decode (Kfkpb.type_of_topic empty_client.topic_types raw.topic) raw)
      (Kfkpb.decoded_event decode empty_client.topic_types raw)
decoded_event_lem_example = Flow.decoded_event_lem decode empty_client.topic_types raw

-- Two workers' queues, of which the second holds an event.
abbrev event : Text → Kfkpb.Event
event key = record {
  kind = Kfkpb.Kind.data_kind;
  topic = bytes "futu.ticker.pb";
  key = key;
  ingest_ns = pos 7;
  msg_type = Kfkpb.MsgType.ticker;
  payload = 1 ∷ 2 ∷ [];
  err_msg = [];
}

abbrev one_event : Ring (Option Kfkpb.Event)
one_event = (try_push (some (event (bytes "HK.00700"))) (small (none ∷ none ∷ []) 0)).1

one_event-Holds : Holds one_event (some (event (bytes "HK.00700")) ∷ [])
one_event-Holds = (try_push_room (some (event (bytes "HK.00700"))) [] small-Holds (omega arith)).1

abbrev two_workers : Kfkpb.Client
two_workers = record empty_client {
  evt_qs = small (none ∷ none ∷ []) 0 ∷ one_event ∷ [];
  drain_rr = 3;
}

drain_to_lem_example :
    let (out', c') = Drain.drain_to [] two_workers in
    (out' ≡ event (bytes "HK.00700") ∷ [])
    × AllHold c'.evt_qs (all_empty ([] ∷ (event (bytes "HK.00700") ∷ []) ∷ []))
drain_to_lem_example =
    drain_to_lem [] two_workers ([] ∷ (event (bytes "HK.00700") ∷ []) ∷ [])
      (one_more small-Holds (one_more one_event-Holds none_left))

abbrev api : Qapi.Api
api = record { client = some two_workers; inited = true; registered = true }

given_handle_refused_example :
    (Qapi.subscribe_from_time (Qapi.init true api).0 (Qapi.K.symbols []) (Qapi.K.long (pos 0)) api
      ≡ (Qapi.K.error (bytes "handle"), api))
    × (Qapi.subscribe_from_time
          (Qapi.init_consumer (returned two_workers) Qapi.K.dict api).0
          (Qapi.K.symbols [])
          (Qapi.K.long (pos 0))
          api
        ≡ (Qapi.K.error (bytes "handle"), api))
    × (Qapi.is_int_handle (Qapi.init true api).0 ≡ true)
given_handle_refused_example =
    given_handle_refused true (returned two_workers) Qapi.K.dict (Qapi.K.symbols [])
      (Qapi.K.long (pos 0)) api api

abbrev topics : List Text
topics = bytes "futu.ticker.pb" ∷ bytes "futu.kl1m.pb" ∷ bytes "futu.ticker.pb" ∷ []

subscribe_lem_example :
    Outcome topics two_workers api
      (all_known topics)
      (Qapi.subscribe (Qapi.K.int Qapi.handle) (Qapi.K.symbols topics) api)
subscribe_lem_example = subscribe_lem topics api refl

callback_lem_example :
    ((Qapi.callback api).0 ≡ Qapi.K.byte_list (1 ∷ 2 ∷ []) ∷ [])
    × (c' : Kfkpb.Client) × ((Qapi.callback api).1.client ≡ some c')
    × AllHold c'.evt_qs (all_empty ([] ∷ (event (bytes "HK.00700") ∷ []) ∷ []))
callback_lem_example =
    callback_lem api ([] ∷ (event (bytes "HK.00700") ∷ []) ∷ []) refl
      (one_more small-Holds (one_more one_event-Holds none_left))

results_lem_example :
    Returns api (Qapi.init true api)
    × Returns api (Qapi.init_consumer (returned two_workers) Qapi.K.dict api)
    × Returns api (Qapi.close api)
    × Returns api (Qapi.subscribe (Qapi.K.int Qapi.handle) (Qapi.K.symbols topics) api)
    × Returns api (
        Qapi.subscribe_from_time
          (Qapi.K.int Qapi.handle)
          (Qapi.K.symbols topics)
          (Qapi.K.long (pos 0))
          api)
    × All IsByteList (Qapi.callback api).0
results_lem_example =
    results_lem true (returned two_workers) Qapi.K.dict (Qapi.K.int Qapi.handle)
      (Qapi.K.symbols topics) (Qapi.K.long (pos 0)) api

-- A librdkafka that does not know the third setting.
abbrev without_commit : Build.Factory (Unit {0})
without_commit = record {
  conf_set = λ k v. if text_eq k (bytes "enable.auto.commit") then some (bytes "unknown") else none;
  create = λ conf. returned tt;
}

abbrev no_client : Qapi.Api
no_client = record { client = none; inited = true; registered = true }

abbrev no_commit : Build.Behaviour without_commit
no_commit =
    Build.refuses
      ((bytes "bootstrap.servers", bytes "192.168.2.209:9092")
        ∷ (bytes "group.id", bytes "momo-subpb-dev")
        ∷ [])
      ((bytes "auto.offset.reset", bytes "earliest") ∷ []) (bytes "enable.auto.commit")
      (bytes "true") (bytes "unknown") refl (refl, (refl, tt)) refl

init_consumer_lem_example :
    Build.Answer without_commit no_commit no_client
      (Build.init_consumer without_commit Qapi.K.dict no_client)
init_consumer_lem_example = Build.init_consumer_lem without_commit no_commit no_client refl
