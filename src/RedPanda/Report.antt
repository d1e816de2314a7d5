-- ===== src/RedPanda/Report.antt =====
-- What the sinks log of messages: `delivery_report_cb` and `log_delivery_error` of
-- momo_feed/src/sinks/RedPandaSink.cpp, and `DemoLogSink` of momo_feed/include/sinks/DemoLogSink.hpp. The text
-- of an error (`rd_kafka_message_errstr`) is an argument, being librdkafka's.
use momo_hdb.Base.{
  ◌≡◌, ap₂, ◌∙◌, sym, subst, Option, none, some, List, [], ◌∷◌, Text, bytes, length,
}
use momo_hdb.Base.Int.{ℤ, pos}
use momo_hdb.Decoders.{to_string}
use momo_hdb.Downstream.{Envelope}
use momo_hdb.Logger.{Level, NumType, Field, Scratch}
use momo_hdb.Logger
use momo_hdb.Logger.Record.{
  bare, quoted, IsBare, IsBare-to_string, read_record, read-log_record, head_members,
}
use momo_hdb.Logger.Fields.{take-append_self}
use momo_hdb.RedPanda.{Resp}

-- What the report reads of an `rd_kafka_message_t`.
pub record Delivered : Type 0 where
  pub err : Resp
  pub partition : ℤ
  pub offset : ℤ

-- The fields of `log_delivery_error`, and the scratch texts that they look at.
unfoldable pub delivery_error : (Resp → Text) → Text → Delivered → Scratch → List Field × Scratch
delivery_error errstr name message s =
    let (partition, s1) =
      Logger.num NumType.int_type (bytes "partition") (to_string message.partition) s in
    let (offset, s2) = Logger.num NumType.i64_type (bytes "offset") (to_string message.offset) s1 in
    (
      Logger.field (bytes "name") name
          ∷ Logger.field (bytes "error") (errstr message.err)
          ∷ partition
          ∷ offset
          ∷ [],
      s2,
    )

abbrev unless_delivered {ℓ} : {A : Type ℓ} → Resp → A → Option A
unless_delivered Resp.no_error x = none
unless_delivered Resp.queue_full x = some x
unless_delivered (Resp.failure n) x = some x

-- `delivery_report_cb` on the name of the sink that `opaque` points to.
unfoldable pub delivery_report :
    (Resp → Text) → Option Text → Option Delivered → Scratch → Option (List Field × Scratch)
delivery_report errstr none message s = none
delivery_report errstr (some name) none s = none
delivery_report errstr (some name) (some message) s =
    unless_delivered message.err (delivery_error errstr name message s)

-- The fields of `DemoLogSink::submit`, which does not test its pointer.
unfoldable pub demo_fields : Text → Envelope → Scratch → List Field × Scratch
demo_fields name e s =
    let (size, s1) =
      Logger.num NumType.size_type (bytes "size") (to_string (pos (length e.payload))) s in
    let (ts_ns, s2) = Logger.num NumType.i64_type (bytes "ts_ns") (to_string e.ts_ns) s1 in
    (
      Logger.field (bytes "name") name
          ∷ Logger.field (bytes "topic") e.topic
          ∷ Logger.field (bytes "key") e.key
          ∷ size
          ∷ ts_ns
          ∷ [],
      s2,
    )

-- The line of a demonstration sink's message reads back as the sink's name, the message's topic and
-- key, the number of its payload's bytes and its time: the two numbers have scratch texts of their own.
demo_fields_lem :
    (now : ℤ) (name : Text) (e : Envelope) (s : Scratch)
    → let (fields, s') = demo_fields name e s in
      read_record 9 (Logger.log_record now Level.info (bytes "sink") (bytes "enqueue") fields s')
      ≡ some (
          head_members now Level.info (bytes "sink") (bytes "enqueue") (
            (bytes "name", quoted name)
            ∷ (bytes "topic", quoted e.topic)
            ∷ (bytes "key", quoted e.key)
            ∷ (bytes "size", bare (to_string (pos (length e.payload))))
            ∷ (bytes "ts_ns", bare (to_string e.ts_ns))
            ∷ []))
unfolding demo_fields Logger.num Logger.raw Logger.field
demo_fields_lem now name e s =
    let size = to_string (pos (length e.payload)) in
    let time = to_string e.ts_ns in
    let (fields, s') = demo_fields name e s in
    let first = take-append_self size _ in
    let second = take-append_self time _ in
    read-log_record now Level.info (bytes "sink") (bytes "enqueue") fields s' (
      tt,
      (
        tt,
        (
          tt,
          (
            subst IsBare (sym first) (IsBare-to_string (pos (length e.payload))),
            (subst IsBare (sym second) (IsBare-to_string e.ts_ns), tt),
          ),
        ),
      ),
    )
    ∙ ap₂
        (λ (x y : Text). some (
          head_members now Level.info (bytes "sink") (bytes "enqueue") (
            (bytes "name", quoted name)
            ∷ (bytes "topic", quoted e.topic)
            ∷ (bytes "key", quoted e.key)
            ∷ (bytes "size", bare x)
            ∷ (bytes "ts_ns", bare y)
            ∷ [])))
        first second

-- The line of a delivery that failed reads back as the sink's name, the error's text, the partition and
-- the offset.
delivery_error_lem :
    (now : ℤ) (errstr : Resp → Text) (name : Text) (m : Delivered) (s : Scratch)
    → let (fields, s') = delivery_error errstr name m s in
      read_record 8 (
        Logger.log_record now Level.error
          (bytes "sink")
          (bytes "redpanda_delivery_failed")
          fields
          s')
      ≡ some (
          head_members now Level.error (bytes "sink") (bytes "redpanda_delivery_failed") (
            (bytes "name", quoted name)
            ∷ (bytes "error", quoted (errstr m.err))
            ∷ (bytes "partition", bare (to_string m.partition))
            ∷ (bytes "offset", bare (to_string m.offset))
            ∷ []))
unfolding delivery_error Logger.num Logger.raw Logger.field
delivery_error_lem now errstr name m s =
    let (fields, s') = delivery_error errstr name m s in
    let first = take-append_self (to_string m.partition) _ in
    let second = take-append_self (to_string m.offset) _ in
    read-log_record now Level.error (bytes "sink") (bytes "redpanda_delivery_failed") fields s' (
      tt,
      (
        tt,
        (
          subst IsBare (sym first) (IsBare-to_string m.partition),
          (subst IsBare (sym second) (IsBare-to_string m.offset), tt),
        ),
      ),
    )
    ∙ ap₂
        (λ (x y : Text). some (
          head_members now Level.error (bytes "sink") (bytes "redpanda_delivery_failed") (
            (bytes "name", quoted name)
            ∷ (bytes "error", quoted (errstr m.err))
            ∷ (bytes "partition", bare x)
            ∷ (bytes "offset", bare y)
            ∷ [])))
        first second
