-- ===== src/Decoders/Kline.antt =====
-- The decoder of 1-minute lines, which loses the turnover.
use momo_hdb.Base.{ℕ, ◌≡◌, Option, some, List, All, Text}
use momo_hdb.Base.Int.{ℤ}
use momo_hdb.Subscription.{Market}
use momo_hdb.Schema.{Kl1MinRow}
use momo_hdb.Qipc.{serialize_kl1min_qipc}
use momo_hdb.Decoders
use momo_hdb.Decoders.Sound.{Table, Table-source, bind_source}
use momo_hdb.Decoders.Accept.{All-rows_of}

module _ (market_name : Market → Text) (utc : Text → Option ℤ) (epoch : ℕ → Option ℤ)
    (ts_ns : ℤ) where
  kl1min_row-amount :
      (symbol : Text) (t : Decoders.KLine) (r : Kl1MinRow)
      → Decoders.kl1min_row market_name utc epoch symbol ts_ns t ≡ some r
      → r.amount ≡ 0
  unfolding Decoders.kl1min_row
  kl1min_row-amount symbol t r e =
      let (m, _, e1) = bind_source (Decoders.time_field utc t.time) _ e in
      let (v, _, e2) = bind_source (Decoders.time_field epoch t.timestamp) _ e1 in cc e2

  -- When the decoder of 1-minute lines gives bytes, the payload parsed to a response whose `retType` is
  -- unset or 0, with an `s2c` of one line at least; the bytes are the message of a table with one row
  -- for each line, and the amount of every row is 0, whatever the line's turnover.
  pub decode_kl1min_kbytes_lem :
      (parse : List ℕ → Option (Decoders.Response Decoders.KlS2C)) (payload : List ℕ) (err_cap : ℕ)
      {b : List ℕ}
      → Decoders.decode_kl1min_kbytes market_name utc epoch parse payload ts_ns err_cap
        ≡ Decoders.kbytes b
      → (table : Table
          (λ s2c. s2c.kl_list)
          (λ s2c.
            Decoders.kl1min_row market_name utc epoch
              (Decoders.symbol_of market_name s2c.security)
              ts_ns)
          serialize_kl1min_qipc
          (parse payload)
          b)
        × All (λ r. r.amount ≡ 0) table.rows
  unfolding Decoders.decode_kl1min_kbytes
  decode_kl1min_kbytes_lem parse payload err_cap e =
      let table = Table-source _ _ _ err_cap _ _ (parse payload) e in
      (table, All-rows_of (λ r. r.amount ≡ 0) _ (kl1min_row-amount _) _ table.rows table.each_row)
