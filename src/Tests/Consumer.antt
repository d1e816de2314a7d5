-- ===== src/Tests/Consumer.antt =====
-- The theorems on the consumer's loop, with a librdkafka that records the subscriptions that it is sent.
use momo_hdb.Base.{
  ℕ, ◌≡◌, refl, true, false, Bool, some, none, List, [], ◌∷◌, ◌++◌, Text, bytes, arith,
}
use momo_hdb.Base.Int.{pos}
use momo_hdb.Ring.Overflow.{offer}
use momo_hdb.Kfkpb
use momo_hdb.Kfkpb.Flow.{HoldsAt}
use momo_hdb.Kfkpb.Consumer
use momo_hdb.Kfkpb.Consumer.{Kafka, Resp}
use momo_hdb.Kfkpb.Consumer.Applied.{lost_subscription, apply_subscription_once}
use momo_hdb.Kfkpb.Consumer.Path.{message_to_event}
use momo_hdb.Tests.Kafka.{hash, empty_client, small, small-Holds, decode}

abbrev message : Consumer.Message
message = record {
  err = false;
  topic = some (bytes "futu.ticker.pb");
  key = bytes "HK.00700";
  timestamp = some (pos 3);
  payload = 1 ∷ [];
}

abbrev kafka : Kafka (List (List Text))
kafka = record {
  unsubscribe = λ rk. rk ++ ([] ∷ []);
  subscribe = λ names rk. (Resp.no_error, rk ++ (names ∷ []));
  poll = λ rk. rk;
  assignment = λ rk. (
    Resp.no_error,
    some (record { topic = bytes "futu.ticker.pb"; partition = 0; offset = none } ∷ []),
    rk,
  );
  offsets_for_times = λ ps rk. (Resp.no_error, ps, rk);
  assign = λ ps rk. (Resp.no_error, rk);
  topic_new = λ t rk. (true, rk);
  seek = λ t p o rk. (Resp.no_error, rk);
  consumer_poll = λ rk. (some message, rk);
  err2str = λ e. bytes "error";
}

abbrev running : ℕ → Bool
running i = false

-- A subscription from a time, not yet applied.
abbrev consumer : Consumer.Consumer (List (List Text))
consumer = record {
  rk = [];
  client = record empty_client { seek_from_ms = some (pos 5) };
  applied_epoch = none;
}

abbrev other_topics : List (Text × Kfkpb.MsgType)
other_topics = (bytes "futu.orderbook.pb", Kfkpb.MsgType.order_book) ∷ []

apply_subscription_once_example :
    let s' =
      Consumer.apply_subscription kafka hash running (Kfkpb.subscribe other_topics) consumer in
    Consumer.apply_subscription kafka hash running (λ c. c) s' ≡ s'
apply_subscription_once_example =
    apply_subscription_once kafka hash running (Kfkpb.subscribe other_topics) (λ c. c) consumer

lost_subscription_example :
    let s' =
      Consumer.apply_subscription kafka hash running (Kfkpb.subscribe other_topics) consumer in
    (s'.rk ≡ (Consumer.apply_subscription kafka hash running (λ c. c) consumer).rk)
    × (s'.client.topic_types ≡ other_topics)
    × (Consumer.apply_subscription kafka hash running (λ c. c) s' ≡ s')
lost_subscription_example =
    lost_subscription kafka hash running other_topics (λ c. c) consumer refl refl refl refl

abbrev applied : Consumer.Consumer (List (List Text))
applied = record { rk = []; client = empty_client; applied_epoch = some 1 }

message_to_event_example :
    let c' =
      Kfkpb.decode_round decode 0
        (Consumer.consumer_round kafka hash running (λ c. c) applied).client in
    HoldsAt 2 [] c'.raw_qs 0
    × HoldsAt 2
        (offer 2
          (some (Kfkpb.decoded_event decode empty_client.topic_types (Consumer.raw_of message)))
          [])
        c'.evt_qs
        0
message_to_event_example =
    message_to_event kafka hash running (λ c. c) decode applied message 2 2 [] refl refl refl
      (omega arith) (omega arith)
      (record { ring = small (none ∷ none ∷ []) 0; at = refl; slots = refl; queued = small-Holds })
      (record { ring = small (none ∷ none ∷ []) 0; at = refl; slots = refl; queued = small-Holds })
