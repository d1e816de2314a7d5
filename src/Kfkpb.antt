-- ===== src/Kfkpb.antt =====
-- momo_subpb/{include,src}/kfkpb_core and `infer_type_from_topic` of momo_subpb/src/kfkpb.cpp: the
-- client that takes Kafka messages through decoder threads to events. `hash` is `std::hash`, and
-- `decode` is the decoder that `DecoderRegistry::get` picks, its exceptions included. A
-- `std::unique_ptr` is an `Option`, an `unordered_map` is a list of pairs, and a buffer of 96 bytes is
-- its C string. The loop that drives librdkafka is in Kfkpb.Consumer,
-- the waits on an epoch and the destructor in Kfkpb.Wake; `notify` is not here.
pub mod Flow
pub mod Drain
pub mod Setup
pub mod Consumer
pub mod Registry
pub mod Wake
use momo_hdb.Base.{ℕ, zero, suc, ◌+◌, ◌-◌, ◌*◌, ◌/◌, ◌%◌, ◌^◌, Bool, true, false, not, ◌||◌, ◌==◌}
use momo_hdb.Base.{
  Option, none, some, List, [], ◌∷◌, ◌++◌, Text, bytes, text_eq, length, take, get_elem?, set,
}
use momo_hdb.Base.{if◌then◌else◌}
use momo_hdb.Base.Int.{ℤ, pos, negsuc}
use momo_hdb.Ring.{Ring, try_push, try_pop}
use momo_hdb.Ring.Overflow.{push_or_drop}
use momo_hdb.Decoders.{Decoded, set_err}

pub data MsgType : Type 0 where
  basic_quote order_book ticker kline_1m unknown : MsgType

pub data Kind : Type 0 where
  data_kind error_kind : Kind

pub record Event : Type 0 where
  pub kind : Kind
  pub topic : Text
  pub key : Text
  pub ingest_ns : ℤ
  pub msg_type : MsgType
  pub payload : List ℕ
  pub err_msg : Text

pub record RawMsg : Type 0 where
  pub topic : Text
  pub key : Text
  pub payload : List ℕ
  pub ts_ns : ℤ
  pub is_error : Bool
  pub err_msg : Text

-- `KfkpbClient`: the subscription, the queues of the workers and the two counters.
pub record Client : Type 0 where
  pub topic_types : List (Text × MsgType)
  pub seek_from_ms : Option ℤ
  pub cfg_epoch : ℕ
  pub raw_qs : List (Ring (Option RawMsg))
  pub raw_epochs : List ℕ
  pub evt_qs : List (Ring (Option Event))
  pub drain_rr : ℕ
  pub fallback_rr : ℕ

-- The quotient of `std::int64_t` is rounded towards zero.
unfoldable pub ns_to_ms : ℤ → ℤ
ns_to_ms (pos n) = pos (n / 1000000)
ns_to_ms (negsuc n) = let q = (n + 1) / 1000000 in if q == 0 then pos 0 else negsuc (q - 1)

-- The product overflows a 64-bit integer, which C++ leaves undefined, from the year 2262 on; times are
-- taken to be earlier.
unfoldable pub ms_to_ns : ℤ → ℤ
ms_to_ns (pos n) = pos (n * 1000000)
ms_to_ns (negsuc n) = pos 0

unfoldable pub subscribe : List (Text × MsgType) → Client → Client
subscribe topics c = record c {
  topic_types = topics;
  seek_from_ms = none;
  cfg_epoch = c.cfg_epoch + 1;
}

unfoldable pub subscribe_from_time : List (Text × MsgType) → ℤ → Client → Client
subscribe_from_time topics ts_ns c = record c {
  topic_types = topics;
  seek_from_ms = some (ns_to_ms ts_ns);
  cfg_epoch = c.cfg_epoch + 1;
}

abbrev pub moved_ptr {ℓ} : {A : Type ℓ} → Option A → Option A
moved_ptr p = none

-- `q` at index `i` of a vector, changed by `f`.
abbrev pub modify {ℓ} : {A : Type ℓ} → List A → ℕ → (A → A) → List A
modify [] i f = []
modify (x ∷ xs) zero f = f x ∷ xs
modify (x ∷ xs) (suc i) f = x ∷ modify xs i f

unfoldable pub worker_index_for : (Text → ℕ) → RawMsg → Client → ℕ × Client
worker_index_for hash m c =
    if length c.raw_qs == 0
    then (0, c)
    else if not (length m.key == 0)
    then (hash m.key % length c.raw_qs, c)
    else (c.fallback_rr % length c.raw_qs, record c { fallback_rr = (c.fallback_rr + 1) % 2 ^ 64 })

unfoldable pub push_raw : (Text → ℕ) → RawMsg → Client → Client
push_raw hash m c =
    let (worker_id, c') = worker_index_for hash m c in
    record c' {
      raw_qs = modify c'.raw_qs worker_id (push_or_drop moved_ptr none (some m));
      raw_epochs = modify c'.raw_epochs worker_id (λ epoch. (epoch + 1) % 2 ^ 64);
    }

unfoldable pub push_event : ℕ → Event → Client → Client
push_event worker_id ev c = record c {
  evt_qs = modify c.evt_qs worker_id (push_or_drop moved_ptr none (some ev));
}

-- `topicTypes_.find(topic)`, `Unknown` where the topic is missing.
unfoldable pub type_of_topic : List (Text × MsgType) → Text → MsgType
type_of_topic [] topic = MsgType.unknown
type_of_topic ((t, mt) ∷ rest) topic =
    let found = type_of_topic rest topic in if text_eq t topic then mt else found

abbrev pub err_cap : ℕ
err_cap = 96

-- The event that says what went wrong with a message.
abbrev pub error_event : RawMsg → MsgType → Text → Event
error_event m mt message = record {
  kind = Kind.error_kind;
  topic = m.topic;
  key = m.key;
  ingest_ns = m.ts_ns;
  msg_type = mt;
  payload = [];
  err_msg = message;
}

abbrev pub is_unknown : MsgType → Bool
is_unknown MsgType.unknown = true
is_unknown _ = false

unfoldable pub outcome_event : RawMsg → MsgType → Decoded → Event
outcome_event m mt (Decoded.kbytes out) = record {
  kind = Kind.data_kind;
  topic = m.topic;
  key = m.key;
  ingest_ns = m.ts_ns;
  msg_type = mt;
  payload = out;
  err_msg = [];
}
outcome_event m mt (Decoded.failed em) =
    error_event m mt (if length em == 0 then set_err err_cap (bytes "decode failed") else em)
outcome_event m mt Decoded.threw =
    error_event m mt (set_err err_cap (bytes "decoder threw exception"))

module _ (decode : MsgType → RawMsg → Decoded) where
  -- The event that one round of `decodeLoop` makes of a message.
  unfoldable pub decoded_event : List (Text × MsgType) → RawMsg → Event
  decoded_event topics m =
      let mt = type_of_topic topics m.topic in
      if m.is_error
      then error_event m MsgType.unknown m.err_msg
      else if is_unknown mt
      then error_event m MsgType.unknown (set_err err_cap (bytes "unknown topic mapping"))
      else outcome_event m mt (decode mt m)

  unfoldable pub decode_popped : ℕ → Option RawMsg → Client → Client
  decode_popped worker_id none c = c
  decode_popped worker_id (some m) c = push_event worker_id (decoded_event c.topic_types m) c

  -- One round of `decodeLoop`, on a queue that `popRaw` finds; an empty one leaves it waiting.
  unfoldable pub decode_round_on : ℕ → Option (Ring (Option RawMsg)) → Client → Client
  decode_round_on worker_id none c = c
  decode_round_on worker_id (some q) c =
      let (got, m, q') = try_pop moved_ptr none q in
      if got then decode_popped worker_id m (record c { raw_qs = set c.raw_qs worker_id q' }) else c

  unfoldable pub decode_round : ℕ → Client → Client
  decode_round worker_id c = decode_round_on worker_id (get_elem? c.raw_qs worker_id) c

-- `topic.find(word) != std::string::npos`
abbrev pub mentions : Text → Text → Bool
mentions [] word = text_eq [] word
mentions (c ∷ s) word =
    let rest = mentions s word in text_eq (take (length word) (c ∷ s)) word || rest

unfoldable pub infer_type_from_topic : Text → MsgType
infer_type_from_topic topic =
    if mentions topic (bytes "basicqot") || mentions topic (bytes "basicqquote")
    then MsgType.basic_quote
    else if mentions topic (bytes "orderbook")
    then MsgType.order_book
    else if mentions topic (bytes "ticker")
    then MsgType.ticker
    else if mentions topic (bytes "kline") || mentions topic (bytes "kl1m")
    then MsgType.kline_1m
    else MsgType.unknown
