-- ===== src/Kfkpb/Registry.antt =====
-- `KfkpbClient::DecoderRegistry::get` of momo_subpb/src/kfkpb_core.cpp, on the decoders of
-- momo_subpb/src/decoders.cpp with the buffer for errors of `decodeLoop`.
use momo_hdb.Base.{ℕ, Option, List, Text, bytes}
use momo_hdb.Base.Int.{ℤ}
use momo_hdb.Subscription.{Market}
use momo_hdb.Decoders.{
  Decoded, failed, set_err, Response, BasicQot, OrderBookS2C, TickerS2C, KlS2C,
  decode_basicquote_kbytes, decode_orderbook_kbytes, decode_ticker_kbytes, decode_kl1min_kbytes,
}
use momo_hdb.Kfkpb.{MsgType, RawMsg, err_cap}

-- `ParseFromArray` of the four messages.
pub record Parsers : Type 0 where
  pub basicquote : List ℕ → Option (Response (List BasicQot))
  pub orderbook : List ℕ → Option (Response OrderBookS2C)
  pub ticker : List ℕ → Option (Response TickerS2C)
  pub kl1min : List ℕ → Option (Response KlS2C)

unfoldable pub decode_not_supported : Decoded
decode_not_supported = failed (set_err err_cap (bytes "decoder not implemented"))

module _ (market_name : Market → Text) (utc : Text → Option ℤ) (epoch : ℕ → Option ℤ)
    (parsers : Parsers) where
  unfoldable pub get : MsgType → RawMsg → Decoded
  get MsgType.basic_quote m =
      decode_basicquote_kbytes market_name utc epoch parsers.basicquote m.payload m.ts_ns err_cap
  get MsgType.order_book m =
      decode_orderbook_kbytes market_name parsers.orderbook m.payload m.ts_ns err_cap
  get MsgType.ticker m =
      decode_ticker_kbytes market_name utc epoch parsers.ticker m.payload m.ts_ns err_cap
  get MsgType.kline_1m m =
      decode_kl1min_kbytes market_name utc epoch parsers.kl1min m.payload m.ts_ns err_cap
  get MsgType.unknown m = decode_not_supported
