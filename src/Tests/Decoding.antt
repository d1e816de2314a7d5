-- ===== src/Tests/Decoding.antt =====
-- The decoders of the order book and of 1-minute lines on small responses.
use momo_hdb.Base.{ℕ, ◌≡◌, refl, none, some, List, [], ◌∷◌, All, bytes}
use momo_hdb.Base.Int.{pos}
use momo_hdb.Schema.{Kl1MinRow}
use momo_hdb.Qipc.{serialize_kl1min_qipc, serialize_orderbook_qipc}
use momo_hdb.Decoders
use momo_hdb.Decoders.Sound.{Table}
use momo_hdb.Decoders.Book.{Book, level_row, decode_orderbook_kbytes_lem}
use momo_hdb.Decoders.Kline.{decode_kl1min_kbytes_lem}
use momo_hdb.Tests.Streams.{names, no_time}

abbrev level : ℕ → Decoders.OrderBook
level p = record { price = some p; volume = some (pos 100); oreder_count = none }

abbrev book : Decoders.Response Decoders.OrderBookS2C
book = record {
  ret_type = some (pos 0);
  err_code = none;
  ret_msg = none;
  s2c =
      some (record { security = none; ask_list = level 7 ∷ level 8 ∷ []; bid_list = level 6 ∷ [] });
}

abbrev book_bytes : List ℕ
book_bytes = serialize_orderbook_qipc (
    level_row [] (pos 7) (bytes "ask") 0 (level 7)
    ∷ level_row [] (pos 7) (bytes "ask") 1 (level 8)
    ∷ level_row [] (pos 7) (bytes "bid") 0 (level 6)
    ∷ [])

book_decoded :
    Decoders.decode_orderbook_kbytes names (λ p. some book) [] (pos 7) 96
    ≡ Decoders.kbytes book_bytes
unfolding Decoders.decode_orderbook_kbytes Decoders.with_response Decoders.with_ret_type
    Decoders.with_s2c Decoders.side_rows
book_decoded = refl

decode_orderbook_kbytes_lem_example : Book names (pos 7) (some book) book_bytes
decode_orderbook_kbytes_lem_example =
    decode_orderbook_kbytes_lem names (λ p. some book) [] (pos 7) 96 book_decoded

abbrev line : Decoders.KLine
line = record {
  high_price = some 9;
  open_price = none;
  low_price = none;
  close_price = none;
  last_close_price = none;
  volume = some (pos 3);
  turnover = some 27;
  turnover_rate = none;
  pe = none;
  change_rate = none;
  time = none;
  timestamp = none;
}

abbrev lines : Decoders.Response Decoders.KlS2C
lines = record {
  ret_type = none;
  err_code = none;
  ret_msg = none;
  s2c = some (record { security = none; kl_list = line ∷ [] });
}

abbrev line_row : Kl1MinRow
line_row = record {
  symbol = [];
  time = pos 7;
  high_price = 9;
  open_price = 0;
  low_price = 0;
  close_price = 0;
  last_close_price = 0;
  volume = pos 3;
  amount = 0;
  turnover_rate = 0;
  pe = 0;
  change_rate = 0;
  recv_time = pos 0;
  timestamp = pos 0;
}

lines_decoded :
    Decoders.decode_kl1min_kbytes names no_time no_time (λ p. some lines) [] (pos 7) 96
    ≡ Decoders.kbytes (serialize_kl1min_qipc (line_row ∷ []))
unfolding Decoders.decode_kl1min_kbytes Decoders.with_response Decoders.with_ret_type
    Decoders.with_s2c Decoders.kl1min_row
lines_decoded = refl

decode_kl1min_kbytes_lem_example :
    (table : Table
      (λ s2c. s2c.kl_list)
      (λ s2c.
        Decoders.kl1min_row names no_time no_time (Decoders.symbol_of names s2c.security) (pos 7))
      serialize_kl1min_qipc
      (some lines)
      (serialize_kl1min_qipc (line_row ∷ [])))
    × All (λ r. r.amount ≡ 0) table.rows
decode_kl1min_kbytes_lem_example =
    decode_kl1min_kbytes_lem names no_time no_time (pos 7) (λ p. some lines) [] 96 lines_decoded
