-- ===== src/Schema.antt =====
-- momo_schema/include/schema.hpp: the rows of the four tables. A `double` is its 64-bit pattern, a
-- number; a `system_clock::time_point` is its count of nanoseconds since 1970.
use momo_hdb.Base.{ℕ, Text}
use momo_hdb.Base.Int.{ℤ}

pub record BasicQuoteRow : Type 0 where
  pub symbol : Text
  pub time : ℤ
  pub price_spread : ℕ
  pub high_price : ℕ
  pub open_price : ℕ
  pub low_price : ℕ
  pub cur_price : ℕ
  pub last_close_price : ℕ
  pub volume : ℤ
  pub amount : ℕ
  pub turnover_rate : ℕ
  pub amplitude : ℕ
  pub update_time : ℤ

pub record OrderBookRow : Type 0 where
  pub symbol : Text
  pub time : ℤ
  pub side : Text
  pub rank : ℤ
  pub price : ℕ
  pub volume : ℤ
  pub order_count : ℤ

pub record TickerRow : Type 0 where
  pub symbol : Text
  pub time : ℤ
  pub direction : ℤ
  pub price : ℕ
  pub volume : ℤ
  pub amount : ℕ
  pub msg_time : ℤ
  pub recv_time : ℤ

pub record Kl1MinRow : Type 0 where
  pub symbol : Text
  pub time : ℤ
  pub high_price : ℕ
  pub open_price : ℕ
  pub low_price : ℕ
  pub close_price : ℕ
  pub last_close_price : ℕ
  pub volume : ℤ
  pub amount : ℕ
  pub turnover_rate : ℕ
  pub pe : ℕ
  pub change_rate : ℕ
  pub recv_time : ℤ
  pub timestamp : ℤ
