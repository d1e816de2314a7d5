-- ===== src/Decoders/Message.antt =====
-- The protobuf messages that momo_subpb/src/decoders.cpp reads, with the fields that it reads of them. An
-- optional field is an `Option`.
use momo_hdb.Base.{ℕ, Option, List, Text}
use momo_hdb.Base.Int.{ℤ}
use momo_hdb.Subscription.{Market}

pub record Security : Type 0 where
  pub market : Option Market
  pub code : Option Text

-- The four `Response` messages: their common fields, and their own `s2c`.
pub record Response {ℓ} (S : Type ℓ) : Type ℓ where
  pub ret_type : Option ℤ
  pub err_code : Option ℤ
  pub ret_msg : Option Text
  pub s2c : Option S

pub record BasicQot : Type 0 where
  pub security : Option Security
  pub price_spread : Option ℕ
  pub high_price : Option ℕ
  pub open_price : Option ℕ
  pub low_price : Option ℕ
  pub cur_price : Option ℕ
  pub last_close_price : Option ℕ
  pub volume : Option ℤ
  pub turnover : Option ℕ
  pub turnover_rate : Option ℕ
  pub amplitude : Option ℕ
  pub update_time : Option Text

pub record OrderBook : Type 0 where
  pub price : Option ℕ
  pub volume : Option ℤ
  pub oreder_count : Option ℤ

pub record OrderBookS2C : Type 0 where
  pub security : Option Security
  pub ask_list : List OrderBook
  pub bid_list : List OrderBook

pub record Ticker : Type 0 where
  pub dir : Option ℤ
  pub price : Option ℕ
  pub volume : Option ℤ
  pub turnover : Option ℕ
  pub time : Option Text
  pub recv_time : Option ℕ

pub record TickerS2C : Type 0 where
  pub security : Option Security
  pub ticker_list : List Ticker

pub record KLine : Type 0 where
  pub high_price : Option ℕ
  pub open_price : Option ℕ
  pub low_price : Option ℕ
  pub close_price : Option ℕ
  pub last_close_price : Option ℕ
  pub volume : Option ℤ
  pub turnover : Option ℕ
  pub turnover_rate : Option ℕ
  pub pe : Option ℕ
  pub change_rate : Option ℕ
  pub time : Option Text
  pub timestamp : Option ℕ

pub record KlS2C : Type 0 where
  pub security : Option Security
  pub kl_list : List KLine
