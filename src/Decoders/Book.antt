-- ===== src/Decoders/Book.antt =====
-- The order book's decoder: the sides of the book as ranked rows.
use mathlib.Core.Option
use momo_hdb.Base.{
  ℕ, zero, suc, ◌+◌, ◌<◌, ◌≡◌, refl, sym, ap, ◌∙◌, ◌&&◌, ◌==◌, Option, some, List, [], ◌∷◌, ◌++◌,
  Text, bytes, length, length-append, take, drop, get_elem?, arith,
}
use momo_hdb.Base.Int.{ℤ, pos}
use momo_hdb.Subscription.{Market}
use momo_hdb.Schema.{OrderBookRow}
use momo_hdb.Qipc.{serialize_orderbook_qipc}
use momo_hdb.Decoders
use momo_hdb.Decoders.Sound.{IsAccepted, with_response_lem, else_source}

-- The row of a level of the book, at its rank from 0.
abbrev pub level_row : Text → ℤ → Text → ℕ → Decoders.OrderBook → OrderBookRow
level_row symbol ts_ns side rank ob = record {
  symbol = symbol;
  time = ts_ns;
  side = side;
  rank = pos rank;
  price = Decoders.get_field 0 ob.price;
  volume = Decoders.get_field (pos 0) ob.volume;
  order_count = Decoders.get_field (pos 0) ob.oreder_count;
}

module _ (market_name : Market → Text) (symbol : Text) (ts_ns : ℤ) (side : Text) where
  length-side_rows :
      (i : ℕ) (obs : List Decoders.OrderBook)
      → length (Decoders.side_rows market_name symbol ts_ns side i obs) ≡ length obs
  unfolding Decoders.side_rows
  length-side_rows i [] = refl
  length-side_rows i (ob ∷ obs) = ap suc (length-side_rows (i + 1) obs)

  get_elem?-side_rows :
      (i k : ℕ) (obs : List Decoders.OrderBook)
      → get_elem? (Decoders.side_rows market_name symbol ts_ns side i obs) k
        ≡ Option.map (level_row symbol ts_ns side (i + k)) (get_elem? obs k)
  unfolding Decoders.side_rows
  get_elem?-side_rows i k [] = refl
  get_elem?-side_rows i zero (ob ∷ obs) =
      let same : i ≡ i + 0 = omega arith in ap (λ n. some (level_row symbol ts_ns side n ob)) same
  get_elem?-side_rows i (suc k) (ob ∷ obs) =
      let same : i + 1 + k ≡ i + suc k = omega arith in
      get_elem?-side_rows (i + 1) k obs
      ∙ ap (λ n. Option.map (level_row symbol ts_ns side n) (get_elem? obs k)) same

take-append {ℓ} : {A : Type ℓ} (xs ys : List A) → take (length xs) (xs ++ ys) ≡ xs
take-append [] ys = refl
take-append (x ∷ xs) ys = ap (λ l. x ∷ l) (take-append xs ys)

drop-append {ℓ} : {A : Type ℓ} (xs ys : List A) → drop (length xs) (xs ++ ys) ≡ ys
drop-append [] ys = refl
drop-append (x ∷ xs) ys = drop-append xs ys

-- The response that a book's table comes from, and the rows: first the asks, then the bids, each from the
-- best on and ranked from 0.
pub record Book (market_name : Market → Text) (ts_ns : ℤ)
    (parsed : Option (Decoders.Response Decoders.OrderBookS2C)) (b : List ℕ) : Type 0 where
  pub rsp : Decoders.Response Decoders.OrderBookS2C
  pub s2c : Decoders.OrderBookS2C
  pub rows : List OrderBookRow
  pub is_parsed : parsed ≡ some rsp
  pub accepted : IsAccepted rsp.ret_type
  pub has_s2c : rsp.s2c ≡ some s2c
  pub some_level : 0 < length s2c.ask_list + length s2c.bid_list
  pub one_each : length rows ≡ length s2c.ask_list + length s2c.bid_list
  pub asks :
      (k : ℕ)
      → get_elem? (take (length s2c.ask_list) rows) k
        ≡ Option.map
            (level_row (Decoders.symbol_of market_name s2c.security) ts_ns (bytes "ask") k)
            (get_elem? s2c.ask_list k)
  pub bids :
      (k : ℕ)
      → get_elem? (drop (length s2c.ask_list) rows) k
        ≡ Option.map
            (level_row (Decoders.symbol_of market_name s2c.security) ts_ns (bytes "bid") k)
            (get_elem? s2c.bid_list k)
  pub message : b ≡ serialize_orderbook_qipc rows

-- When the order-book decoder gives bytes, the payload parsed to a response whose `retType` is unset or
-- 0, with an `s2c` of one level at least; the bytes are the message of a table with one row for each
-- level, the asks before the bids, each side in its order and ranked from 0.
pub decode_orderbook_kbytes_lem :
    (market_name : Market → Text)
    (parse : List ℕ → Option (Decoders.Response Decoders.OrderBookS2C)) (payload : List ℕ)
    (ts_ns : ℤ) (err_cap : ℕ) {b : List ℕ}
    → Decoders.decode_orderbook_kbytes market_name parse payload ts_ns err_cap ≡ Decoders.kbytes b
    → Book market_name ts_ns (parse payload) b
unfolding Decoders.decode_orderbook_kbytes
decode_orderbook_kbytes_lem market_name parse payload ts_ns err_cap {b} e =
    let src = with_response_lem _ err_cap _ (parse payload) e in
    let s2c = src.s2c in
    let symbol = Decoders.symbol_of market_name s2c.security in
    let asks = Decoders.side_rows market_name symbol ts_ns (bytes "ask") 0 s2c.ask_list in
    let bids = Decoders.side_rows market_name symbol ts_ns (bytes "bid") 0 s2c.bid_list in
    let ask_count = length-side_rows market_name symbol ts_ns (bytes "ask") 0 s2c.ask_list in
    let bid_count = length-side_rows market_name symbol ts_ns (bytes "bid") 0 s2c.bid_list in
    let ranked : (side : Text) (k : ℕ) (obs : List Decoders.OrderBook)
        → get_elem? (Decoders.side_rows market_name symbol ts_ns side 0 obs) k
          ≡ Option.map (level_row symbol ts_ns side k) (get_elem? obs k) =
      λ side k obs.
        let same : 0 + k ≡ k = omega arith in
        get_elem?-side_rows market_name symbol ts_ns side 0 k obs
        ∙ ap (λ n. Option.map (level_row symbol ts_ns side n) (get_elem? obs k)) same in
    let (level, message) =
      else_source ((length s2c.ask_list == 0) && (length s2c.bid_list == 0)) _ _ src.decoded in
    record {
      rsp = src.rsp;
      s2c = s2c;
      rows = asks ++ bids;
      is_parsed = src.is_parsed;
      accepted = src.accepted;
      has_s2c = src.has_s2c;
      some_level = ground arith;
      one_each = omega (arith, length-append asks bids, ask_count, bid_count);
      asks = λ k.
          ap (λ n. get_elem? (take n (asks ++ bids)) k) (sym ask_count)
          ∙ ap (λ l. get_elem? l k) (take-append asks bids)
          ∙ ranked (bytes "ask") k s2c.ask_list;
      bids = λ k.
          ap (λ n. get_elem? (drop n (asks ++ bids)) k) (sym ask_count)
          ∙ ap (λ l. get_elem? l k) (drop-append asks bids)
          ∙ ranked (bytes "bid") k s2c.bid_list;
      message = cc;
    }
