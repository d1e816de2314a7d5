-- ===== src/Kfkpb/Consumer.antt =====
-- `KfkpbClient::consumerLoop` of momo_subpb/src/kfkpb_core.cpp. librdkafka is an interface over its state
-- `R`. The subscription is applied under a lock that is given up while an assignment is awaited:
-- `meanwhile` is what other threads do to the client until the lock is taken again, and `stopped` what
-- each test of the stop flag reads there.
pub mod Applied
pub mod Path
use momo_hdb.Base.{
  ℕ, zero, suc, ◌+◌, Bool, true, false, not, ◌&&◌, ◌==◌, Option, none, some, List, [], ◌∷◌, map,
  Text, bytes, length, if◌then◌else◌, ltb,
}
use momo_hdb.Base.Int.{ℤ, pos}
use momo_hdb.Decoders.{set_err}
use momo_hdb.Kfkpb.{Client, RawMsg, MsgType, push_raw, err_cap, ms_to_ns}

-- `rd_kafka_resp_err_t`
pub data Resp : Type 0 where
  no_error : Resp
  failure : ℕ → Resp

-- An element of an `rd_kafka_topic_partition_list_t`; the offset `none` is RD_KAFKA_OFFSET_INVALID.
pub record Partition : Type 0 where
  pub topic : Text
  pub partition : ℕ
  pub offset : Option ℤ

-- What the code reads of an `rd_kafka_message_t`: `timestamp` is `none` where its type says that it is
-- not available, and `topic` where the message has no topic handle.
pub record Message : Type 0 where
  pub err : Bool
  pub topic : Option Text
  pub key : Text
  pub timestamp : Option ℤ
  pub payload : List ℕ

pub record Kafka (R : Type 0) : Type 0 where
  pub unsubscribe : R → R
  pub subscribe : List Text → R → Resp × R
  pub poll : R → R
  pub assignment : R → Resp × Option (List Partition) × R
  pub offsets_for_times : List Partition → R → Resp × List Partition × R
  pub assign : List Partition → R → Resp × R
  pub topic_new : Text → R → Bool × R
  pub seek : Text → ℕ → ℤ → R → Resp × R
  pub consumer_poll : R → Option Message × R
  pub err2str : Resp → Text

-- The consumer thread: librdkafka's state, the client, and `appliedEpoch`, which is -1 (`none`) at first.
pub record Consumer (R : Type 0) : Type 0 where
  pub rk : R
  pub client : Client
  pub applied_epoch : Option ℕ

abbrev pub is_applied : Option ℕ → ℕ → Bool
is_applied none epoch = false
is_applied (some e) epoch = e == epoch

abbrev pub failed : Resp → Bool
failed Resp.no_error = false
failed (Resp.failure n) = true

-- The message that carries an error to a worker.
unfoldable pub error_msg : Text → RawMsg
error_msg text = record {
  topic = [];
  key = [];
  payload = [];
  ts_ns = pos 0;
  is_error = true;
  err_msg = set_err err_cap text;
}

abbrev pub or_empty : Option Text → Text
or_empty none = []
or_empty (some t) = t

abbrev pub ts_of : Option ℤ → ℤ
ts_of none = pos 0
ts_of (some ts_ms) = ms_to_ns ts_ms

unfoldable pub raw_of : Message → RawMsg
raw_of msg = record {
  topic = or_empty msg.topic;
  key = msg.key;
  payload = msg.payload;
  ts_ns = ts_of msg.timestamp;
  is_error = false;
  err_msg = [];
}

-- `assn && assn->cnt > 0`, where the call succeeded.
abbrev pub ready : Resp → Option (List Partition) → Option (List Partition)
ready Resp.no_error (some (p ∷ ps)) = some (p ∷ ps)
ready _ _ = none

abbrev pub is_ready : Option (List Partition) → Bool
is_ready none = false
is_ready (some ps) = true

module _ {R : Type 0} (kafka : Kafka R) (hash : Text → ℕ) where
  abbrev report : Text → Client → Client
  report text c = push_raw hash (error_msg text) c

  -- The rounds that are left of the wait for an assignment, `i` being next.
  unfoldable pub wait_assignment : (ℕ → Bool) → ℕ → ℕ → R → Option (List Partition) × R
  wait_assignment stopped zero i rk = (none, rk)
  wait_assignment stopped (suc left) i rk =
      let (e, assn, rk') = kafka.assignment (kafka.poll rk) in
      let later = wait_assignment stopped left (i + 1) rk' in
      if stopped i
      then (none, rk)
      else if is_ready (ready e assn)
      then (ready e assn, rk')
      else later

  abbrev seek_at : Partition → Option ℤ → R × Client → R × Client
  seek_at elem none (rk, c) = (rk, c)
  seek_at elem (some offset) (rk, c) =
      let (made, rk') = kafka.topic_new elem.topic rk in
      let (se, rk'') = kafka.seek elem.topic elem.partition offset rk' in
      if not made then (rk', c) else (rk'', if failed se then report (kafka.err2str se) c else c)

  unfoldable pub seek_all : List Partition → R × Client → R × Client
  seek_all [] s = s
  seek_all (elem ∷ rest) s = seek_all rest (seek_at elem elem.offset s)

  unfoldable pub seek_assigned : List Partition → R × Client → R × Client
  seek_assigned assn (rk, c) =
      let (ae, rk') = kafka.assign assn rk in
      if failed ae then (rk', report (kafka.err2str ae) c) else seek_all assn (rk', c)

  unfoldable pub seek_found : ℤ → Option (List Partition) → R × Client → R × Client
  seek_found ts_ms none (rk, c) =
      (rk, report (bytes "subscribeFromTime: assignment not ready, skip seek") c)
  seek_found ts_ms (some assn) (rk, c) =
      let (oe, assn', rk') =
        kafka.offsets_for_times
          (map {A = Partition} {B = Partition} (λ p. record p { offset = some ts_ms }) assn) rk in
      if failed oe then (rk', report (kafka.err2str oe) c) else seek_assigned assn' (rk', c)

  -- The part without the lock.
  unfoldable pub seek_from : (ℕ → Bool) → ℤ → R × Client → R × Client
  seek_from stopped ts_ms (rk, c) =
      let (assn, rk') = wait_assignment stopped 60 0 rk in seek_found ts_ms assn (rk', c)

  abbrev seek_if : (ℕ → Bool) → (Client → Client) → Option ℤ → R × Client → R × Client
  seek_if stopped meanwhile none s = s
  seek_if stopped meanwhile (some ts_ms) s =
      let (rk, c) = seek_from stopped ts_ms s in (rk, meanwhile c)

  -- `appliedEpoch = cfgEpoch_`
  abbrev settle : R × Client → Consumer R
  settle (rk, c) = record { rk = rk; client = c; applied_epoch = some c.cfg_epoch }

  -- The subscription of `names`, with the time to seek.
  unfoldable pub subscribe_to : (ℕ → Bool) → (Client → Client) → List Text → R → Client → R × Client
  subscribe_to stopped meanwhile [] rk c = (kafka.unsubscribe rk, c)
  subscribe_to stopped meanwhile (name ∷ names) rk c =
      let (e, rk') = kafka.subscribe (name ∷ names) rk in
      if failed e
      then (rk', report (kafka.err2str e) c)
      else seek_if stopped meanwhile c.seek_from_ms (rk', c)

  unfoldable pub apply_subscription : (ℕ → Bool) → (Client → Client) → Consumer R → Consumer R
  apply_subscription stopped meanwhile s =
      if is_applied s.applied_epoch s.client.cfg_epoch
      then s
      else settle
          (subscribe_to stopped meanwhile (map (λ p. p.0) s.client.topic_types) s.rk s.client)

  abbrev take_message : Option Message → Client → Client
  take_message none c = c
  take_message (some msg) c = if msg.err then c else push_raw hash (raw_of msg) c

  -- A round of the loop.
  unfoldable pub consumer_round : (ℕ → Bool) → (Client → Client) → Consumer R → Consumer R
  consumer_round stopped meanwhile s =
      let s' = apply_subscription stopped meanwhile s in
      let (msg, rk') = kafka.consumer_poll s'.rk in
      record s' { rk = rk'; client = take_message msg s'.client }
