-- ===== src/Tests/Messages.antt =====
-- The theorems on kdb+ messages, on a buffer of nine bytes and on tables of one row.
use momo_hdb.Base.{◌≡◌, ◌<◌, ◌^◌, some, [], ◌∷◌, map, length, arith}
use momo_hdb.Base.Int.{pos, negsuc}
use momo_hdb.Base.{bytes}
use momo_hdb.Base.Int.{◌-ℤ◌}
use momo_hdb.Schema.{TickerRow, OrderBookRow, BasicQuoteRow}
use momo_hdb.Qipc.Table.{read_message}
use momo_hdb.Qipc.Columns.{column}
use momo_hdb.Qipc.Messages.{ticker_cols, ticker_columns, read-serialize_ticker}
use momo_hdb.Qipc

abbrev trade : TickerRow
trade = record {
  symbol = bytes "HK.00700";
  time = pos 1700000000000000000;
  direction = negsuc 0;
  price = 4645744490609377280;
  volume = pos 200;
  amount = 0;
  msg_time = pos 0;
  recv_time = pos 1700000000000000001;
}

short : length (Qipc.serialize_ticker_qipc (trade ∷ [])) < 2 ^ 32
unfolding Qipc.serialize_ticker_qipc Qipc.begin_table Qipc.emit_general_list_hdr Qipc.emit_sym_list
    Qipc.emit_dict_begin Qipc.emit_table_begin Qipc.emit_typed_list_hdr Qipc.emit_sym_col
    Qipc.emit_ts_col Qipc.emit_i64_col Qipc.emit_i32_col Qipc.emit_f64_col Qipc.put_rows
    Qipc.put_cstr Qipc.put_u8 Qipc.put_u32_le Qipc.put_i64_le Qipc.put_i32_le Qipc.put_u64_le
    Qipc.put_f64_le Qipc.le_bytes Qipc.size_u32 Qipc.finish_ipc
short = omega arith

read-serialize_ticker_example :
    read_message (Qipc.serialize_ticker_qipc (trade ∷ []))
    ≡ some (ticker_columns, map (column (trade ∷ [])) ticker_cols)
unfolding ◌-ℤ◌
read-serialize_ticker_example = read-serialize_ticker (trade ∷ []) (omega arith) (omega arith) short

abbrev level : OrderBookRow
level = record {
  symbol = bytes "HK.00700";
  time = pos 1700000000000000000;
  side = bytes "bid";
  rank = pos 1;
  price = 4645744490609377280;
  volume = pos 300;
  order_count = pos 2;
}

abbrev quote : BasicQuoteRow
quote = record {
  symbol = bytes "US.BRK.B";
  time = pos 1700000000000000000;
  price_spread = 1;
  high_price = 2;
  open_price = 3;
  low_price = 4;
  cur_price = 5;
  last_close_price = 6;
  volume = pos 7;
  amount = 8;
  turnover_rate = 9;
  amplitude = 10;
  update_time = pos 0;
}
