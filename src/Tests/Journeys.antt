-- ===== src/Tests/Journeys.antt =====
-- One trade from the API to kdb+, over a protobuf that has one message.
use momo_hdb.Base.{false, ◌≡◌, refl, true, none, some, List, [], ◌∷◌, All, Text, bytes, map, arith}
use momo_hdb.Base.Int.{pos, ◌-ℤ◌}
use momo_hdb.Ring.Overflow.{offer}
use momo_hdb.Subscription.{SecurityId}
use momo_hdb.Schema.{TickerRow}
use momo_hdb.Manager.{Manager, OverflowPolicy}
use momo_hdb.Manager.Push.{on_push_ticker, make_key, market_prefix, returned}
use momo_hdb.Manager.Push.Inbox.{Inbox}
use momo_hdb.RedPanda.{record_of, to_timestamp_ms}
use momo_hdb.Decoders.{
  Response, TickerS2C, ticker_row, rows_of, symbol_of, build_symbol_from_security,
}
use momo_hdb.Qipc.Table.{read_table, Fits}
use momo_hdb.Qipc.Columns.{column}
use momo_hdb.Qipc.Messages.{ticker_columns, ticker_cols}
use momo_hdb.Kfkpb.{MsgType, Kind, type_of_topic, decoded_event, ms_to_ns}
use momo_hdb.Kfkpb.Consumer.{Message, raw_of}
use momo_hdb.Kfkpb.Registry
use momo_hdb.Pipeline.Journey.{Delivers}
use momo_hdb.Pipeline.Ticker.{as_field, ticker_envelope, ticker_journey}
use momo_hdb.Tests.Streams.{
  trade, trade_row, trades, names, tencent, no_time, forget, blank, options, manager, manager-Inbox,
}

abbrev s2c : TickerS2C
s2c = record { security = as_field tencent; ticker_list = trade ∷ [] }

abbrev push : Response TickerS2C
push = record trades { s2c = some s2c }

abbrev tencent_of : Response TickerS2C → SecurityId
tencent_of rsp = tencent

abbrev key : Text
key = bytes "HK.00700"

abbrev parsers : Registry.Parsers
parsers = record {
  basicquote = λ p. none;
  orderbook = λ p. none;
  ticker = λ p. some push;
  kl1min = λ p. none;
}

abbrev row : TickerRow
row = record trade_row { symbol = key; time = pos 1000000 }

abbrev msg : Message
msg = record {
  err = false;
  topic = some (bytes "futu.ticker.pb");
  key = key;
  timestamp = some (pos 1);
  payload = 9 ∷ [];
}

key_lem : make_key names tencent ≡ key
unfolding make_key market_prefix
key_lem = refl

abbrev topics : List (Text × MsgType)
topics = (bytes "futu.ticker.pb", MsgType.ticker) ∷ []

made :
    rows_of
      (ticker_row names no_time no_time
        (symbol_of names s2c.security)
        (ms_to_ns (to_timestamp_ms (pos 1234567))))
      s2c.ticker_list
    ≡ some (row ∷ [])
unfolding ticker_row ms_to_ns to_timestamp_ms build_symbol_from_security market_prefix
made = refl

delivered :
    Delivers (record_of (ticker_envelope (make_key names tencent) (9 ∷ []) (pos 1234567))) msg
unfolding record_of to_timestamp_ms make_key market_prefix
delivered = record { good = refl; topic = refl; key = refl; payload = refl; timestamp = refl }

typed : type_of_topic topics (bytes "futu.ticker.pb") ≡ MsgType.ticker
unfolding type_of_topic
typed = refl

fits : All Fits (map (column (row ∷ [])) ticker_cols)
unfolding ◌-ℤ◌
fits = omega arith

ticker_journey_example :
    let time = ms_to_ns (to_timestamp_ms (pos 1234567)) in
    let k = make_key names tencent in
    ((self' : Manager) × (on_push_ticker forget blank names tencent_of
          (λ rsp. some (9 ∷ []))
          (pos 1234567)
          push
          (manager OverflowPolicy.drop_oldest)
        ≡ returned true self')
      × Inbox
          (options OverflowPolicy.drop_oldest)
          2
          (offer 2 (ticker_envelope k (9 ∷ []) (pos 1234567)) [])
          self')
    × (let ev = decoded_event (Registry.get names no_time no_time parsers) topics (raw_of msg) in
        (ev.kind ≡ Kind.data_kind)
        × (ev.key ≡ k)
        × (ev.ingest_ns ≡ time)
        × All (λ r. (r.symbol ≡ k) × (r.time ≡ time)) (row ∷ [])
        × (read_table ev.payload ≡ some (ticker_columns, map (column (row ∷ [])) ticker_cols)))
ticker_journey_example =
    ticker_journey names no_time no_time parsers forget blank tencent_of (λ rsp. some (9 ∷ []))
      (pos 1234567) push s2c (9 ∷ []) (row ∷ []) topics msg refl manager-Inbox refl refl refl refl
      (omega arith) refl refl made (omega arith) fits delivered typed
