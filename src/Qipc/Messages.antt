-- ===== src/Qipc/Messages.antt =====
-- The messages of the four tables read back.
use momo_hdb.Base.{◌<◌, ◌^◌, ◌≡◌, refl, arith, some, List, [], ◌∷◌, map, All, length, Text, bytes}
use momo_hdb.Schema.{BasicQuoteRow, OrderBookRow, TickerRow, Kl1MinRow}
use momo_hdb.Qipc.Table.{read_table, read_message, Fits}
use momo_hdb.Qipc.Columns.{ColumnOf, sym_col, ts_col, i64_col, i32_col, f64_col, column}
use momo_hdb.Qipc.Whole.{table_message, whole_message}
use momo_hdb.Qipc

abbrev pub ticker_cols : List (ColumnOf TickerRow)
ticker_cols =
    sym_col (λ r. r.symbol)
    ∷ ts_col (λ r. r.time)
    ∷ i32_col (λ r. r.direction)
    ∷ f64_col (λ r. r.price)
    ∷ i64_col (λ r. r.volume)
    ∷ f64_col (λ r. r.amount)
    ∷ ts_col (λ r. r.msg_time)
    ∷ ts_col (λ r. r.recv_time)
    ∷ []

-- The names of a table of tickers.
abbrev pub ticker_columns : List Text
ticker_columns =
    bytes "sym"
    ∷ bytes "time"
    ∷ bytes "direction"
    ∷ bytes "price"
    ∷ bytes "volume"
    ∷ bytes "amount"
    ∷ bytes "msgTime"
    ∷ bytes "recvTime"
    ∷ []

-- The table in a message of tickers, without the header.
pub read_table-serialize_ticker :
    (rows : List TickerRow)
    → length rows < 2 ^ 32
    → All Fits (map (column rows) ticker_cols)
    → read_table (Qipc.serialize_ticker_qipc rows)
      ≡ some (ticker_columns, map (column rows) ticker_cols)
unfolding Qipc.serialize_ticker_qipc
read_table-serialize_ticker rows few fit =
    table_message ticker_columns ticker_cols rows few (omega arith) refl fit

-- Rows of tickers whose columns the wire can carry (C strings, 64-bit words, a count of rows in 32 bits), in a
-- message of fewer than 2 ^ 32 bytes, read back from that message: its header says little-endian,
-- asynchronous, not compressed, and how long the message is; behind it are the eight names of
-- `ticker_columns`, each list and column without attributes, and for each name a column with the rows'
-- texts and words in order, times counted in nanoseconds from 2000; nothing is behind them.
pub read-serialize_ticker :
    (rows : List TickerRow)
    → length rows < 2 ^ 32
    → All Fits (map (column rows) ticker_cols)
    → length (Qipc.serialize_ticker_qipc rows) < 2 ^ 32
    → read_message (Qipc.serialize_ticker_qipc rows)
      ≡ some (ticker_columns, map (column rows) ticker_cols)
unfolding Qipc.serialize_ticker_qipc
read-serialize_ticker rows few fit word =
    whole_message ticker_columns ticker_cols rows few (omega arith) refl fit word

abbrev pub orderbook_cols : List (ColumnOf OrderBookRow)
orderbook_cols =
    sym_col (λ r. r.symbol)
    ∷ ts_col (λ r. r.time)
    ∷ sym_col (λ r. r.side)
    ∷ i32_col (λ r. r.rank)
    ∷ f64_col (λ r. r.price)
    ∷ i64_col (λ r. r.volume)
    ∷ i32_col (λ r. r.order_count)
    ∷ []

-- Rows of order books whose columns the wire can carry (C strings, 64-bit words, a count of rows in 32 bits)
-- read back from their message: the seven names, and a column for each, with the rows' texts and words
-- in order and nothing behind them.
pub read-serialize_orderbook :
    (rows : List OrderBookRow)
    → length rows < 2 ^ 32
    → All Fits (map (column rows) orderbook_cols)
    → read_table (Qipc.serialize_orderbook_qipc rows)
      ≡ some (Qipc.orderbook_names, map (column rows) orderbook_cols)
unfolding Qipc.serialize_orderbook_qipc
read-serialize_orderbook rows few fit =
    table_message Qipc.orderbook_names orderbook_cols rows few (omega arith) refl fit

abbrev pub basicquote_cols : List (ColumnOf BasicQuoteRow)
basicquote_cols =
    sym_col (λ r. r.symbol)
    ∷ ts_col (λ r. r.time)
    ∷ f64_col (λ r. r.price_spread)
    ∷ f64_col (λ r. r.high_price)
    ∷ f64_col (λ r. r.open_price)
    ∷ f64_col (λ r. r.low_price)
    ∷ f64_col (λ r. r.cur_price)
    ∷ f64_col (λ r. r.last_close_price)
    ∷ i64_col (λ r. r.volume)
    ∷ f64_col (λ r. r.amount)
    ∷ f64_col (λ r. r.turnover_rate)
    ∷ f64_col (λ r. r.amplitude)
    ∷ ts_col (λ r. r.update_time)
    ∷ []

-- Rows of quotes whose columns the wire can carry (C strings, 64-bit words, a count of rows in 32 bits)
-- read back from their message: the thirteen names, and a column for each, with the rows' texts and words
-- in order and nothing behind them.
pub read-serialize_basicquote :
    (rows : List BasicQuoteRow)
    → length rows < 2 ^ 32
    → All Fits (map (column rows) basicquote_cols)
    → read_table (Qipc.serialize_basicquote_qipc rows)
      ≡ some (Qipc.basicquote_names, map (column rows) basicquote_cols)
unfolding Qipc.serialize_basicquote_qipc
read-serialize_basicquote rows few fit =
    table_message Qipc.basicquote_names basicquote_cols rows few (omega arith) refl fit

abbrev pub kl1min_cols : List (ColumnOf Kl1MinRow)
kl1min_cols =
    sym_col (λ r. r.symbol)
    ∷ ts_col (λ r. r.time)
    ∷ f64_col (λ r. r.high_price)
    ∷ f64_col (λ r. r.open_price)
    ∷ f64_col (λ r. r.low_price)
    ∷ f64_col (λ r. r.close_price)
    ∷ f64_col (λ r. r.last_close_price)
    ∷ i64_col (λ r. r.volume)
    ∷ f64_col (λ r. r.amount)
    ∷ f64_col (λ r. r.turnover_rate)
    ∷ f64_col (λ r. r.pe)
    ∷ f64_col (λ r. r.change_rate)
    ∷ ts_col (λ r. r.recv_time)
    ∷ ts_col (λ r. r.timestamp)
    ∷ []

-- Rows of one-minute candles whose columns the wire can carry (C strings, 64-bit words, a count of rows in 32 bits)
-- read back from their message: the fourteen names, and a column for each, with the rows' texts and words
-- in order and nothing behind them.
pub read-serialize_kl1min :
    (rows : List Kl1MinRow)
    → length rows < 2 ^ 32
    → All Fits (map (column rows) kl1min_cols)
    → read_table (Qipc.serialize_kl1min_qipc rows)
      ≡ some (Qipc.kl1min_names, map (column rows) kl1min_cols)
unfolding Qipc.serialize_kl1min_qipc
read-serialize_kl1min rows few fit =
    table_message Qipc.kl1min_names kl1min_cols rows few (omega arith) refl fit
