-- ===== src/Pipeline/Journey.antt =====
-- One envelope on its way: posted by the manager, produced by the sink, polled and decoded.
use momo_hdb.Base.{ℕ, ◌≡◌, refl, ap, ◌∙◌, false, some, List, [], Text, arith}
use momo_hdb.Downstream.{Envelope}
use momo_hdb.RedPanda.{Produced, record_of, to_timestamp_ms}
use momo_hdb.Decoders.{Decoded, kbytes}
use momo_hdb.Kfkpb.{
  Event, Kind, MsgType, RawMsg, type_of_topic, is_unknown, decoded_event, outcome_event, ms_to_ns,
}
use momo_hdb.Kfkpb.Consumer.{Message, raw_of}

-- A message by which Kafka delivers what was produced.
pub record Delivers (m : Produced) (msg : Message) : Type 0 where
  pub good : msg.err ≡ false
  pub topic : msg.topic ≡ some m.topic
  pub key : msg.key ≡ m.key
  pub payload : msg.payload ≡ m.payload
  pub timestamp : msg.timestamp ≡ some m.timestamp_ms

-- What the decoder's thread gets of an envelope: its time to the millisecond.
abbrev pub raw_envelope : Envelope → RawMsg
raw_envelope e = record {
  topic = e.topic;
  key = e.key;
  payload = e.payload;
  ts_ns = ms_to_ns (to_timestamp_ms e.ts_ns);
  is_error = false;
  err_msg = [];
}

pub raw_of-Delivers :
    (e : Envelope) (msg : Message) → Delivers (record_of e) msg → raw_of msg ≡ raw_envelope e
unfolding raw_of record_of
raw_of-Delivers e msg d = ground arith

-- The event of an envelope whose topic has the type `mt` and which decodes to these bytes.
abbrev pub data_event : Envelope → MsgType → List ℕ → Event
data_event e mt out = record {
  kind = Kind.data_kind;
  topic = e.topic;
  key = e.key;
  ingest_ns = ms_to_ns (to_timestamp_ms e.ts_ns);
  msg_type = mt;
  payload = out;
  err_msg = [];
}

pub decoded-Delivers :
    (decode : MsgType → RawMsg → Decoded) (topics : List (Text × MsgType)) (e : Envelope)
    (msg : Message) (mt : MsgType) {out : List ℕ}
    → Delivers (record_of e) msg
    → type_of_topic topics e.topic ≡ mt
    → is_unknown mt ≡ false
    → decode mt (raw_envelope e) ≡ kbytes out
    → decoded_event decode topics (raw_of msg) ≡ data_event e mt out
unfolding decoded_event outcome_event
decoded-Delivers decode topics e msg mt d typed known bytes_of =
    ap (decoded_event decode topics) (raw_of-Delivers e msg d) ∙ rw (typed, known, bytes_of) refl
