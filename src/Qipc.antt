-- ===== src/Qipc.antt =====
-- momo_schema/include/qcodec.hpp and momo_schema/src/qipc.cpp: the four tables as messages of the
-- kdb+ IPC protocol. A `std::vector<uint8_t>` is a list of bytes, and a function that appends to it
-- takes it and returns it. A serializer of the source always returns true: here it is the bytes.
pub mod Wire
pub mod Table
pub mod Columns
pub mod Whole
pub mod Messages
use momo_hdb.Base.{
  ℕ, zero, suc, ◌+◌, ◌*◌, ◌/◌, ◌%◌, ◌^◌, List, [], ◌∷◌, ◌++◌, Text, bytes, length, drop,
}
use momo_hdb.Base.Int.{ℤ, pos, ◌-ℤ◌, word_of}
use momo_hdb.Schema.{BasicQuoteRow, OrderBookRow, TickerRow, Kl1MinRow}

unfoldable pub put_u8 : List ℕ → ℕ → List ℕ
put_u8 b v = b ++ (v ∷ [])

-- `(v >> 8 * i) & 0xFF` is the remainder by 256 of `v` over 256 to the power `i`.
unfoldable pub put_u32_le : List ℕ → ℕ → List ℕ
put_u32_le b v = b ++ (v % 256 ∷ v / 256 % 256 ∷ v / 65536 % 256 ∷ v / 16777216 % 256 ∷ [])

-- The loop's low `k` bytes of `v`, the lowest first.
unfoldable pub le_bytes : ℕ → ℕ → List ℕ
le_bytes zero v = []
le_bytes (suc k) v = v % 256 ∷ le_bytes k (v / 256)

unfoldable pub put_u64_le : List ℕ → ℕ → List ℕ
put_u64_le b v = b ++ le_bytes 8 v

unfoldable pub put_i32_le : List ℕ → ℤ → List ℕ
put_i32_le b v = put_u32_le b (word_of (2 ^ 32) v)

unfoldable pub put_i64_le : List ℕ → ℤ → List ℕ
put_i64_le b v = put_u64_le b (word_of (2 ^ 64) v)

unfoldable pub put_f64_le : List ℕ → ℕ → List ℕ
put_f64_le b d = put_u64_le b d

unfoldable pub put_cstr : List ℕ → Text → List ℕ
put_cstr b s = (b ++ s) ++ (0 ∷ [])

abbrev pub xt_table : ℕ
xt_table = 98

abbrev pub xd_dict : ℕ
xd_dict = 99

abbrev pub kl_list : ℕ
kl_list = 0

abbrev pub ks_list : ℕ
ks_list = 11

abbrev pub kp_ts : ℕ
kp_ts = 12

abbrev pub kf_list : ℕ
kf_list = 9

abbrev pub kj_list : ℕ
kj_list = 7

abbrev pub ki_list : ℕ
ki_list = 6

-- Nanoseconds since 2000, where `tp` counts them from 1970.
unfoldable pub to_kdb_timestamp_ns : ℤ → ℤ
to_kdb_timestamp_ns tp = tp -ℤ pos (946684800 * 1000000000)

unfoldable pub emit_typed_list_hdr : List ℕ → ℕ → ℕ → List ℕ
emit_typed_list_hdr b t n = put_u32_le (put_u8 (put_u8 b t) 0) n

unfoldable pub emit_general_list_hdr : List ℕ → ℕ → List ℕ
emit_general_list_hdr b n = put_u32_le (put_u8 (put_u8 b kl_list) 0) n

unfoldable pub emit_dict_begin : List ℕ → List ℕ
emit_dict_begin b = put_u8 b xd_dict

unfoldable pub emit_table_begin : List ℕ → List ℕ
emit_table_begin b = put_u8 (put_u8 b xt_table) 0

-- `static_cast<uint32_t>(v.size())`
unfoldable pub size_u32 {ℓ} : {A : Type ℓ} → List A → ℕ
size_u32 xs = length xs % 2 ^ 32

module _ {ℓ} {R : Type ℓ} where
  -- `for (const auto& r : rows) put(b.buf, get(r));`
  unfoldable pub put_rows {κ} :
      {A : Type κ} → (List ℕ → A → List ℕ) → (R → A) → List R → List ℕ → List ℕ
  put_rows put get [] b = b
  put_rows put get (r ∷ rows) b = put_rows put get rows (put b (get r))

  unfoldable pub emit_sym_col : List ℕ → ℕ → List R → (R → Text) → List ℕ
  emit_sym_col b n rows get = put_rows put_cstr get rows (emit_typed_list_hdr b ks_list n)

  unfoldable pub emit_ts_col : List ℕ → ℕ → List R → (R → ℤ) → List ℕ
  emit_ts_col b n rows get =
      put_rows put_i64_le (λ r. to_kdb_timestamp_ns (get r)) rows (emit_typed_list_hdr b kp_ts n)

  unfoldable pub emit_f64_col : List ℕ → ℕ → List R → (R → ℕ) → List ℕ
  emit_f64_col b n rows get = put_rows put_f64_le get rows (emit_typed_list_hdr b kf_list n)

  unfoldable pub emit_i64_col : List ℕ → ℕ → List R → (R → ℤ) → List ℕ
  emit_i64_col b n rows get = put_rows put_i64_le get rows (emit_typed_list_hdr b kj_list n)

  unfoldable pub emit_i32_col : List ℕ → ℕ → List R → (R → ℤ) → List ℕ
  emit_i32_col b n rows get = put_rows put_i32_le get rows (emit_typed_list_hdr b ki_list n)

unfoldable pub emit_sym_list : List ℕ → List Text → List ℕ
emit_sym_list b syms =
    put_rows put_cstr (λ s. s) syms (emit_typed_list_hdr b ks_list (size_u32 syms))

unfoldable pub begin_table : List ℕ → List Text → List ℕ
begin_table b colnames =
    emit_general_list_hdr (emit_sym_list (emit_dict_begin (emit_table_begin b)) colnames)
      (size_u32 colnames)

-- `Builder`: the eight reserved bytes, and the header written over them.
abbrev pub begin_ipc : List ℕ
begin_ipc = 0 ∷ 0 ∷ 0 ∷ 0 ∷ 0 ∷ 0 ∷ 0 ∷ 0 ∷ []

unfoldable pub finish_ipc : List ℕ → List ℕ
finish_ipc buf = put_u32_le (1 ∷ 0 ∷ 0 ∷ 0 ∷ []) (size_u32 buf) ++ drop 8 buf

abbrev pub basicquote_names : List Text
basicquote_names =
    bytes "sym"
    ∷ bytes "time"
    ∷ bytes "spread"
    ∷ bytes "high"
    ∷ bytes "open"
    ∷ bytes "low"
    ∷ bytes "cur"
    ∷ bytes "lastclose"
    ∷ bytes "volume"
    ∷ bytes "amount"
    ∷ bytes "turnoverrate"
    ∷ bytes "amplitude"
    ∷ bytes "updtime"
    ∷ []

unfoldable pub serialize_basicquote_qipc : List BasicQuoteRow → List ℕ
serialize_basicquote_qipc rows =
    let n = size_u32 rows in
    let b0 = begin_table begin_ipc basicquote_names in
    let b1 = emit_sym_col b0 n rows (λ r. r.symbol) in
    let b2 = emit_ts_col b1 n rows (λ r. r.time) in
    let b3 = emit_f64_col b2 n rows (λ r. r.price_spread) in
    let b4 = emit_f64_col b3 n rows (λ r. r.high_price) in
    let b5 = emit_f64_col b4 n rows (λ r. r.open_price) in
    let b6 = emit_f64_col b5 n rows (λ r. r.low_price) in
    let b7 = emit_f64_col b6 n rows (λ r. r.cur_price) in
    let b8 = emit_f64_col b7 n rows (λ r. r.last_close_price) in
    let b9 = emit_i64_col b8 n rows (λ r. r.volume) in
    let b10 = emit_f64_col b9 n rows (λ r. r.amount) in
    let b11 = emit_f64_col b10 n rows (λ r. r.turnover_rate) in
    let b12 = emit_f64_col b11 n rows (λ r. r.amplitude) in
    finish_ipc (emit_ts_col b12 n rows (λ r. r.update_time))

abbrev pub orderbook_names : List Text
orderbook_names =
    bytes "sym"
    ∷ bytes "time"
    ∷ bytes "side"
    ∷ bytes "level"
    ∷ bytes "price"
    ∷ bytes "volume"
    ∷ bytes "ordercount"
    ∷ []

unfoldable pub serialize_orderbook_qipc : List OrderBookRow → List ℕ
serialize_orderbook_qipc rows =
    let n = size_u32 rows in
    let b0 = begin_table begin_ipc orderbook_names in
    let b1 = emit_sym_col b0 n rows (λ r. r.symbol) in
    let b2 = emit_ts_col b1 n rows (λ r. r.time) in
    let b3 = emit_sym_col b2 n rows (λ r. r.side) in
    let b4 = emit_i32_col b3 n rows (λ r. r.rank) in
    let b5 = emit_f64_col b4 n rows (λ r. r.price) in
    let b6 = emit_i64_col b5 n rows (λ r. r.volume) in
    finish_ipc (emit_i32_col b6 n rows (λ r. r.order_count))

abbrev pub ticker_names : List Text
ticker_names =
    bytes "sym"
    ∷ bytes "time"
    ∷ bytes "direction"
    ∷ bytes "price"
    ∷ bytes "volume"
    ∷ bytes "amount"
    ∷ bytes "msgTime"
    ∷ bytes "recvTime"
    ∷ []

unfoldable pub serialize_ticker_qipc : List TickerRow → List ℕ
serialize_ticker_qipc rows =
    let n = size_u32 rows in
    let b0 = begin_table begin_ipc ticker_names in
    let b1 = emit_sym_col b0 n rows (λ r. r.symbol) in
    let b2 = emit_ts_col b1 n rows (λ r. r.time) in
    let b3 = emit_i32_col b2 n rows (λ r. r.direction) in
    let b4 = emit_f64_col b3 n rows (λ r. r.price) in
    let b5 = emit_i64_col b4 n rows (λ r. r.volume) in
    let b6 = emit_f64_col b5 n rows (λ r. r.amount) in
    let b7 = emit_ts_col b6 n rows (λ r. r.msg_time) in
    finish_ipc (emit_ts_col b7 n rows (λ r. r.recv_time))

abbrev pub kl1min_names : List Text
kl1min_names =
    bytes "sym"
    ∷ bytes "time"
    ∷ bytes "high"
    ∷ bytes "open"
    ∷ bytes "low"
    ∷ bytes "close"
    ∷ bytes "lastclose"
    ∷ bytes "volume"
    ∷ bytes "amount"
    ∷ bytes "turnoverrate"
    ∷ bytes "pe"
    ∷ bytes "changerate"
    ∷ bytes "recvtime"
    ∷ bytes "tstime"
    ∷ []

unfoldable pub serialize_kl1min_qipc : List Kl1MinRow → List ℕ
serialize_kl1min_qipc rows =
    let n = size_u32 rows in
    let b0 = begin_table begin_ipc kl1min_names in
    let b1 = emit_sym_col b0 n rows (λ r. r.symbol) in
    let b2 = emit_ts_col b1 n rows (λ r. r.time) in
    let b3 = emit_f64_col b2 n rows (λ r. r.high_price) in
    let b4 = emit_f64_col b3 n rows (λ r. r.open_price) in
    let b5 = emit_f64_col b4 n rows (λ r. r.low_price) in
    let b6 = emit_f64_col b5 n rows (λ r. r.close_price) in
    let b7 = emit_f64_col b6 n rows (λ r. r.last_close_price) in
    let b8 = emit_i64_col b7 n rows (λ r. r.volume) in
    let b9 = emit_f64_col b8 n rows (λ r. r.amount) in
    let b10 = emit_f64_col b9 n rows (λ r. r.turnover_rate) in
    let b11 = emit_f64_col b10 n rows (λ r. r.pe) in
    let b12 = emit_f64_col b11 n rows (λ r. r.change_rate) in
    let b13 = emit_ts_col b12 n rows (λ r. r.recv_time) in
    finish_ipc (emit_ts_col b13 n rows (λ r. r.timestamp))
