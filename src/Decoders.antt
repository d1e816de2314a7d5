-- ===== src/Decoders.antt =====
-- momo_subpb/src/decoders.cpp and momo_subpb/include/parse_helpers.hpp: a protobuf payload becomes
-- the rows of schema.hpp and these a kdb+ message. Outside the repository, and so arguments: the
-- parser of each protobuf message (`none` is a failed `ParseFromArray`), `market_name`
-- (`QotMarket_Name`), and the two time conversions, which rest on the C library's time zone and on
-- floating point (`none` is an exception). An optional protobuf field is an `Option`; a `char` buffer
-- is its C string. The serializers never fail, so the branch for that is not here.
pub mod Message
pub mod Sound
pub mod Accept
pub mod Book
pub mod Kline
use momo_hdb.Base.{ℕ, zero, suc, ◌+◌, ◌-◌, ◌/◌, ◌%◌, Bool, false, ◌&&◌, ◌==◌, Option, none, some}
use momo_hdb.Base.{List, [], ◌∷◌, ◌++◌, Text, bytes, length, take, ltb, if◌then◌else◌}
use momo_hdb.Base.Int.{ℤ, pos, negsuc}
use momo_hdb.Subscription.{Market}
use momo_hdb.Manager.Push.{market_prefix}
use momo_hdb.Schema.{BasicQuoteRow, OrderBookRow, TickerRow, Kl1MinRow}
use momo_hdb.Qipc.{
  serialize_basicquote_qipc, serialize_orderbook_qipc, serialize_ticker_qipc, serialize_kl1min_qipc,
}
pub use momo_hdb.Decoders.Message.{
  Security, Response, BasicQot, OrderBook, OrderBookS2C, Ticker, TickerS2C, KLine, KlS2C,
}

infixl 5 ◌>>=◌
abbrev pub ◌>>=◌ {ℓ κ} : {A : Type ℓ} {B : Type κ} → Option A → (A → Option B) → Option B
none >>= f = none
some a >>= f = f a

-- What a decoder leaves: its bytes and `true`, a message in `err_msg` and `false`, or an exception.
pub data Decoded : Type 0 where
  kbytes : List ℕ → Decoded
  failed : Text → Decoded
  threw : Decoded

abbrev pub until_nul : Text → Text
until_nul [] = []
until_nul (c ∷ s) = let rest = until_nul s in if c == 0 then [] else c ∷ rest

-- `set_err` on a buffer of `cap` bytes, of which the last holds the terminator.
unfoldable pub set_err : ℕ → Text → Text
set_err cap s = take (cap - 1) (until_nul s)

-- `std::to_string`, with the number of digits that it may still write.
abbrev pub digits_of : ℕ → ℕ → Text
digits_of zero n = []
digits_of (suc fuel) n =
    let rest = digits_of fuel (n / 10) in
    if ltb n 10 then (48 + n) ∷ [] else rest ++ ((48 + n % 10) ∷ [])

abbrev pub to_string : ℤ → Text
to_string (pos n) = digits_of (n + 1) n
to_string (negsuc n) = bytes "-" ++ digits_of (n + 2) (n + 1)

abbrev pub get_field {ℓ} : {A : Type ℓ} → A → Option A → A
get_field d none = d
get_field d (some a) = a

-- `if (m.has_x()) e += label + x`
abbrev pub with_field : Text → Option Text → Text
with_field label none = []
with_field label (some s) = label ++ s

abbrev pub printed : Option ℤ → Option Text
printed none = none
printed (some n) = some (to_string n)

abbrev pub is_zero : ℤ → Bool
is_zero (pos n) = n == 0
is_zero (negsuc n) = false

-- The steps that the decoders share: the parse, `retType` and `s2c`.
module _ {S : Type 0} (decode : S → Decoded) (err_cap : ℕ) where
  unfoldable pub with_s2c : Option S → Decoded
  with_s2c none = failed (set_err err_cap (bytes "missing s2c"))
  with_s2c (some s2c) = decode s2c

  unfoldable pub with_ret_type : Option ℤ → Response S → Decoded
  with_ret_type none rsp = with_s2c rsp.s2c
  with_ret_type (some n) rsp =
      if is_zero n
      then with_s2c rsp.s2c
      else failed (
          set_err err_cap (
            (bytes "retType!=0 retType=" ++ to_string n)
            ++ (with_field (bytes " errCode=") (printed rsp.err_code)
                ++ with_field (bytes " retMsg=") rsp.ret_msg)))

  unfoldable pub with_response : Text → Option (Response S) → Decoded
  with_response name none = failed (set_err err_cap (bytes "ParseFromArray failed for " ++ name))
  with_response name (some rsp) = with_ret_type rsp.ret_type rsp

-- The loop that fills the batch; an exception in any row leaves the decoder.
abbrev pub rows_of {ℓ κ} : {A : Type ℓ} {B : Type κ} → (A → Option B) → List A → Option (List B)
rows_of row [] = some []
rows_of row (x ∷ xs) = do r ← row x; rs ← rows_of row xs; some (r ∷ rs)

abbrev pub serialized {ℓ} : {R : Type ℓ} → (List R → List ℕ) → Option (List R) → Decoded
serialized serialize none = threw
serialized serialize (some rows) = kbytes (serialize rows)

-- `if (t.has_x()) row.x = parse(t.x());` over the zero that the row starts with.
abbrev pub time_field {ℓ} : {A : Type ℓ} → (A → Option ℤ) → Option A → Option ℤ
time_field parse none = some (pos 0)
time_field parse (some s) = parse s

module _ (market_name : Market → Text) where
  abbrev pub symbol_for : Option Market → Text → Text
  symbol_for none code = code
  symbol_for (some market) code = market_prefix (market_name market) ++ (bytes "." ++ code)

  unfoldable pub build_symbol_from_security : Security → Text
  build_symbol_from_security sec =
      let code = get_field [] sec.code in
      if length code == 0 then [] else symbol_for sec.market code

  abbrev pub symbol_of : Option Security → Text
  symbol_of none = []
  symbol_of (some sec) = build_symbol_from_security sec

  module _ (parse_time_utc_string : Text → Option ℤ) (parse_time_epoch_sec : ℕ → Option ℤ) where
    unfoldable pub basicquote_row : ℤ → BasicQot → Option BasicQuoteRow
    basicquote_row ts_ns t = do
      update_time ← time_field parse_time_utc_string t.update_time
      some (record {
        symbol = symbol_of t.security;
        time = ts_ns;
        price_spread = get_field 0 t.price_spread;
        high_price = get_field 0 t.high_price;
        open_price = get_field 0 t.open_price;
        low_price = get_field 0 t.low_price;
        cur_price = get_field 0 t.cur_price;
        last_close_price = get_field 0 t.last_close_price;
        volume = get_field (pos 0) t.volume;
        amount = get_field 0 t.turnover;
        turnover_rate = get_field 0 t.turnover_rate;
        amplitude = get_field 0 t.amplitude;
        update_time = update_time;
      })

    unfoldable pub decode_basicquote_kbytes :
        (List ℕ → Option (Response (List BasicQot))) → List ℕ → ℤ → ℕ → Decoded
    decode_basicquote_kbytes parse payload ts_ns err_cap =
        with_response
          (λ items.
            if length items == 0
            then failed (set_err err_cap (bytes "basicqotlist is empty"))
            else serialized serialize_basicquote_qipc (rows_of (basicquote_row ts_ns) items))
          err_cap (bytes "Qot_UpdateBasicQot::Response (type mismatch or corrupted bytes)")
          (parse payload)

    unfoldable pub ticker_row : Text → ℤ → Ticker → Option TickerRow
    ticker_row symbol ts_ns t = do
      msg_time ← time_field parse_time_utc_string t.time
      recv_time ← time_field parse_time_epoch_sec t.recv_time
      some (record {
        symbol = symbol;
        time = ts_ns;
        direction = get_field (pos 0) t.dir;
        price = get_field 0 t.price;
        volume = get_field (pos 0) t.volume;
        amount = get_field 0 t.turnover;
        msg_time = msg_time;
        recv_time = recv_time;
      })

    unfoldable pub decode_ticker_kbytes :
        (List ℕ → Option (Response TickerS2C)) → List ℕ → ℤ → ℕ → Decoded
    decode_ticker_kbytes parse payload ts_ns err_cap =
        with_response
          (λ s2c.
            if length s2c.ticker_list == 0
            then failed (set_err err_cap (bytes "tickerlist is empty"))
            else serialized serialize_ticker_qipc
                (rows_of (ticker_row (symbol_of s2c.security) ts_ns) s2c.ticker_list))
          err_cap (bytes "Qot_UpdateTicker::Response") (parse payload)

    -- `if (t.has_turnover()) row.volume = t.volume();`: the turnover itself is not read, and `amount`
    -- stays 0. An unset `volume` reads as 0.
    unfoldable pub kl1min_row : Text → ℤ → KLine → Option Kl1MinRow
    kl1min_row symbol ts_ns t = do
      recv_time ← time_field parse_time_utc_string t.time
      timestamp ← time_field parse_time_epoch_sec t.timestamp
      some (record {
        symbol = symbol;
        time = ts_ns;
        high_price = get_field 0 t.high_price;
        open_price = get_field 0 t.open_price;
        low_price = get_field 0 t.low_price;
        close_price = get_field 0 t.close_price;
        last_close_price = get_field 0 t.last_close_price;
        volume = get_field (pos 0) t.volume;
        amount = 0;
        turnover_rate = get_field 0 t.turnover_rate;
        pe = get_field 0 t.pe;
        change_rate = get_field 0 t.change_rate;
        recv_time = recv_time;
        timestamp = timestamp;
      })

    unfoldable pub decode_kl1min_kbytes :
        (List ℕ → Option (Response KlS2C)) → List ℕ → ℤ → ℕ → Decoded
    decode_kl1min_kbytes parse payload ts_ns err_cap =
        with_response
          (λ s2c.
            if length s2c.kl_list == 0
            then failed (set_err err_cap (bytes "kline list is empty"))
            else serialized serialize_kl1min_qipc
                (rows_of (kl1min_row (symbol_of s2c.security) ts_ns) s2c.kl_list))
          err_cap (bytes "Qot_UpdateKL::Response (type mismatch or corrupted bytes)")
          (parse payload)

  -- The rows of one side of the book, ranked from `i` on.
  unfoldable pub side_rows : Text → ℤ → Text → ℕ → List OrderBook → List OrderBookRow
  side_rows symbol ts_ns side i [] = []
  side_rows symbol ts_ns side i (ob ∷ obs) =
      record {
        symbol = symbol;
        time = ts_ns;
        side = side;
        rank = pos i;
        price = get_field 0 ob.price;
        volume = get_field (pos 0) ob.volume;
        order_count = get_field (pos 0) ob.oreder_count;
      }
      ∷ side_rows symbol ts_ns side (i + 1) obs

  unfoldable pub decode_orderbook_kbytes :
      (List ℕ → Option (Response OrderBookS2C)) → List ℕ → ℤ → ℕ → Decoded
  decode_orderbook_kbytes parse payload ts_ns err_cap =
      with_response
        (λ s2c.
          let symbol = symbol_of s2c.security in
          if length s2c.ask_list == 0 && (length s2c.bid_list == 0)
          then failed (set_err err_cap (bytes "orderbook asklist and bidlist are both empty"))
          else kbytes (
              serialize_orderbook_qipc (
                side_rows symbol ts_ns (bytes "ask") 0 s2c.ask_list
                ++ side_rows symbol ts_ns (bytes "bid") 0 s2c.bid_list)))
        err_cap (bytes "Qot_UpdateOrderBook::Response (type mismatch or corrupted bytes)")
        (parse payload)
