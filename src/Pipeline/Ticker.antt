-- ===== src/Pipeline/Ticker.antt =====
-- A push of tickers from the API to kdb+.
use momo_hdb.Base.{
  ℕ, ◌<◌, ◌^◌, ◌≡◌, refl, ap, ◌∙◌, true, false, ◌==◌, Option, some, List, All, Text, bytes, length,
  map,
}
use momo_hdb.Base.Int.{ℤ}
use momo_hdb.Ring.Overflow.{offer}
use momo_hdb.Downstream.{Envelope}
use momo_hdb.Subscription.{Market, SecurityId}
use momo_hdb.Manager.{Manager, Options, OverflowPolicy}
use momo_hdb.Manager.Push.{on_push_ticker, post, make_key, returned}
use momo_hdb.Manager.Push.Inbox.{Inbox, enqueue-Inbox}
use momo_hdb.RedPanda.{record_of, to_timestamp_ms}
use momo_hdb.Decoders.{
  Response, Security, time_field, TickerS2C, kbytes, ticker_row, rows_of, symbol_of,
  decode_ticker_kbytes, build_symbol_from_security,
}
use momo_hdb.Decoders.Sound.{IsAccepted, bind_source}
use momo_hdb.Decoders.Accept.{table_accepted, All-rows_of}
use momo_hdb.Schema.{TickerRow}
use momo_hdb.Qipc.{serialize_ticker_qipc}
use momo_hdb.Qipc.Table.{read_table, Fits}
use momo_hdb.Qipc.Columns.{column}
use momo_hdb.Qipc.Messages.{ticker_cols, read_table-serialize_ticker, ticker_columns}
use momo_hdb.Kfkpb.{err_cap, MsgType, Kind, type_of_topic, decoded_event, ms_to_ns}
use momo_hdb.Kfkpb.Consumer.{Message, raw_of}
use momo_hdb.Kfkpb.Registry
use momo_hdb.Pipeline.Journey.{Delivers, raw_envelope, decoded-Delivers}

-- What protobuf has of a security.
abbrev pub as_field : SecurityId → Option Security
as_field sec = some (record { market = some sec.market; code = some sec.code })

-- The consumer names a security as the producer does.
pub symbol_of-make_key :
    (market_name : Market → Text) (sec : SecurityId)
    → (length sec.code == 0) ≡ false
    → symbol_of market_name (as_field sec) ≡ make_key market_name sec
unfolding build_symbol_from_security make_key
symbol_of-make_key market_name sec named = rw named refl

-- The envelope that a ticker message becomes.
abbrev pub ticker_envelope : Text → Text → ℤ → Envelope
ticker_envelope key payload now = record {
  topic = bytes "futu.ticker.pb";
  key = key;
  payload = payload;
  ts_ns = now;
}

module _ (market_name : Market → Text) (utc : Text → Option ℤ) (epoch : ℕ → Option ℤ)
    (parsers : Registry.Parsers) where
  ticker_row_lem :
      (symbol : Text) (ts : ℤ) (t : _) (r : TickerRow)
      → ticker_row market_name utc epoch symbol ts t ≡ some r
      → (r.symbol ≡ symbol) × (r.time ≡ ts)
  unfolding ticker_row
  ticker_row_lem symbol ts t r e =
      let (m, _, e1) = bind_source (time_field utc t.time) _ e in
      let (v, _, e2) = bind_source (time_field epoch t.recv_time) _ e1 in (cc e2, cc e2)

  decode_accepted :
      (e : Envelope) (rsp : Response TickerS2C) {s2c : TickerS2C} {rows : List TickerRow}
      → parsers.ticker e.payload ≡ some rsp
      → IsAccepted rsp.ret_type
      → rsp.s2c ≡ some s2c
      → 0 < length s2c.ticker_list
      → rows_of
          (ticker_row market_name utc epoch
            (symbol_of market_name s2c.security)
            (ms_to_ns (to_timestamp_ms e.ts_ns)))
          s2c.ticker_list
        ≡ some rows
      → Registry.get market_name utc epoch parsers MsgType.ticker (raw_envelope e)
        ≡ kbytes (serialize_ticker_qipc rows)
  unfolding Registry.get decode_ticker_kbytes
  decode_accepted e rsp parsed ok has some_item each = rw parsed (
      table_accepted (λ s2c. s2c.ticker_list)
        (λ s2c.
          ticker_row market_name utc epoch (symbol_of market_name s2c.security)
            (ms_to_ns (to_timestamp_ms e.ts_ns)))
        serialize_ticker_qipc err_cap _ _ rsp ok has some_item each)

  -- A ticker message that the API pushes for a security with a code, from a manager that drops the
  -- oldest envelope of a full inbox: the handler returns with one envelope offered to the inbox. Where
  -- the message serializes and parses back, is accepted and has tickers whose rows can be made (and
  -- whose columns the wire can carry), and Kafka delivers what the sink produces of that envelope to a
  -- client to which the topic means tickers: the client's event is a data event, with the security's
  -- name as its key and the time of the push to the millisecond; every row has that name and that
  -- time; and its bytes read back as the table of the rows.
  pub ticker_journey :
      (moved : Envelope → Envelope) (blank : Envelope) (security : Response TickerS2C → SecurityId)
      (serialize : Response TickerS2C → Option Text) (now : ℤ) (rsp : Response TickerS2C)
      (s2c : TickerS2C) (payload : Text) (rows : List TickerRow) (topics : List (Text × MsgType))
      (msg : Message) {opts : Options} {cap : ℕ} {q : List Envelope} {self : Manager}
      → opts.overflow ≡ OverflowPolicy.drop_oldest
      → Inbox opts cap q self
      → serialize rsp ≡ some payload
      → parsers.ticker payload ≡ some rsp
      → IsAccepted rsp.ret_type
      → rsp.s2c ≡ some s2c
      → 0 < length s2c.ticker_list
      → s2c.security ≡ as_field (security rsp)
      → (length (security rsp).code == 0) ≡ false
      → let key = make_key market_name (security rsp) in
        let time = ms_to_ns (to_timestamp_ms now) in
        let e = ticker_envelope key payload now in
        rows_of
            (ticker_row market_name utc epoch (symbol_of market_name s2c.security) time)
            s2c.ticker_list
          ≡ some rows
        → length rows < 2 ^ 32
        → All Fits (map (column rows) ticker_cols)
        → Delivers (record_of e) msg
        → type_of_topic topics (bytes "futu.ticker.pb") ≡ MsgType.ticker
        → ((self' : Manager) × (on_push_ticker moved blank market_name security serialize now rsp
                self
              ≡ returned true self')
            × Inbox opts cap (offer cap e q) self')
          × (let ev =
                decoded_event (Registry.get market_name utc epoch parsers) topics (raw_of msg) in
              (ev.kind ≡ Kind.data_kind)
              × (ev.key ≡ key)
              × (ev.ingest_ns ≡ time)
              × All (λ r. (r.symbol ≡ key) × (r.time ≡ time)) rows
              × (read_table ev.payload ≡ some (ticker_columns, map (column rows) ticker_cols)))
  unfolding on_push_ticker post
  ticker_journey moved blank security serialize now rsp s2c payload rows topics msg {opts} {cap} {q}
        {self} policy i serialized parsed ok has some_item sec named each few fit delivered typed =
      let key = make_key market_name (security rsp) in
      let e = ticker_envelope key payload now in
      let symbol : symbol_of market_name s2c.security ≡ key =
        ap (symbol_of market_name) sec ∙ symbol_of-make_key market_name (security rsp) named in
      let event =
        decoded-Delivers (Registry.get market_name utc epoch parsers) topics e msg MsgType.ticker
          delivered typed refl (decode_accepted e rsp parsed ok has some_item each) in
      let (self', posted, offered) = enqueue-Inbox moved blank e policy i in
      (
        (
          self',
          ap (λ o. post moved blank (bytes "futu.ticker.pb") o key now self) serialized ∙ posted,
          offered,
        ),
        (
          ap (λ ev. ev.kind) event,
          ap (λ ev. ev.key) event,
          ap (λ ev. ev.ingest_ns) event,
          All-rows_of _ _
              (λ t r made.
                let (named_so, timed) = ticker_row_lem _ _ t r made in (named_so ∙ symbol, timed))
              s2c.ticker_list rows each,
          ap (λ ev. read_table ev.payload) event ∙ read_table-serialize_ticker rows few fit,
        ),
      )
