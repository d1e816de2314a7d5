-- ===== src/Tests/Feed.antt =====
-- The theorems on the feed's way to Kafka, with a librdkafka that keeps what it accepts.
use momo_hdb.Base.{◌≤◌, ◌≡◌, refl, true, false, some, List, [], ◌∷◌, ◌++◌, map, bytes, arith}
use momo_hdb.Base.Int.{pos}
use momo_hdb.Yaml.{returned, done}
use momo_hdb.Ring.Refine.{Holds}
use momo_hdb.Downstream
use momo_hdb.Downstream.Delivery.{Serves, submissions}
use momo_hdb.Downstream.Guarantees.{new_queue, new_downstream_eq, start-Serves}
use momo_hdb.Dispatcher.{make_dispatcher}
use momo_hdb.RedPanda.{Producer, Produced, Resp, RedPandaSink}
use momo_hdb.RedPanda
use momo_hdb.RedPanda.Delivery.{Accepts, Sent, produced, stop_produces_all}
use momo_hdb.Program
use momo_hdb.Program.Wiring.{Configures, Serving, main_lem, with_settings, ignored_settings}
use momo_hdb.Tests.Loading.{app_config}

abbrev pub keeper : Producer (List Produced)
keeper = record {
  conf_set = λ key value. returned tt;
  create = λ conf. returned [];
  producev = λ m rk. (Resp.no_error, rk ++ (m ∷ []));
  poll = λ n rk. rk;
  flush = λ t rk. rk;
}

abbrev pub all_sent : List Produced → List Produced
all_sent rk = rk

pub keeper-Accepts : Accepts keeper all_sent
keeper-Accepts = record {
  accepts = λ m rk. refl;
  keeps = λ m rk. refl;
  polls = λ n rk. refl;
  flushes = λ t rk. refl;
}

keeper-Configures : Configures keeper
keeper-Configures = record { sets = λ key value. refl; rk = []; opens = λ conf. refl }

main_lem_example :
    (st : Program.Started (List Produced)) × (Program.main keeper
        (λ path. true)
        (λ path. done app_config)
        (λ cfg. returned tt)
        (bytes "app.yaml" ∷ [])
      ≡ Program.runs st)
    × Serving keeper keeper-Configures (bytes "kafka" ∷ []) st.dispatcher
    × (st.options ≡ Program.manager_options app_config.submanager)
    × Holds st.inbox []
    × (app_config.submanager.capacity ≤ st.inbox.cap)
main_lem_example =
    main_lem keeper keeper-Configures (λ path. true) (λ path. done app_config) (λ cfg. returned tt)
      (bytes "app.yaml") [] refl refl refl (omega arith) (refl, tt)

ignored_settings_example :
    Program.add_downstreams keeper
      (map (with_settings (bytes "me") (bytes "zstd")) app_config.downstreams)
      (make_dispatcher [])
    ≡ Program.add_downstreams keeper app_config.downstreams (make_dispatcher [])
ignored_settings_example =
    ignored_settings keeper (bytes "me") (bytes "zstd") app_config.downstreams (make_dispatcher [])

abbrev message : Downstream.Envelope
message = record {
  topic = bytes "futu.rt.pb";
  key = bytes "HK.00700";
  payload = 1 ∷ [];
  ts_ns = pos 5000000;
}

abbrev pub to_kafka : RedPandaSink (List Produced)
to_kafka = record { name = bytes "kafka"; producer = some []; failed = [] }

abbrev pub idle : Downstream.Downstream (RedPandaSink (List Produced))
idle = record {
  name = bytes "kafka";
  sink = to_kafka;
  q = new_queue;
  running = false;
  worker = false;
}

pub idle-Serves : Serves (Downstream.start idle) []
idle-Serves = start-Serves (bytes "kafka") to_kafka (new_downstream_eq (bytes "kafka") to_kafka)

pub start-Sent : Sent keeper all_sent keeper-Accepts (Downstream.start idle).sink []
unfolding Downstream.start
start-Sent = record { rk = []; is_open = refl; accepted = refl; none_failed = refl }

abbrev events : List Downstream.Event
events =
    Downstream.submitted (some message)
    ∷ Downstream.flushed (pos 10)
    ∷ Downstream.submitted (some message)
    ∷ []

stop_produces_all_example :
    Sent keeper all_sent keeper-Accepts
      (Downstream.stop
        (RedPanda.sink keeper)
        (Downstream.run (RedPanda.sink keeper) events (Downstream.start idle))).sink
      ([] ++ produced ([] ++ submissions events))
unfolding submissions
stop_produces_all_example =
    stop_produces_all keeper all_sent keeper-Accepts events [] [] idle-Serves (omega arith)
      start-Sent
