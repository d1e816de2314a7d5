-- ===== src/Decoders/Sound.antt =====
-- What stands behind the bytes of a decoder: an accepted response, and a table of its items' rows.
use momo_hdb.Base.{ℕ, ◌<◌, ◌≡◌, refl, Bool, true, false, ◌==◌}
use momo_hdb.Base.{Option, none, some, List, [], ◌∷◌, Text, length, arith, if◌then◌else◌}
use momo_hdb.Base.Int.{ℤ}
use momo_hdb.Subscription.{Market}
use momo_hdb.Qipc.{serialize_basicquote_qipc, serialize_ticker_qipc}
use momo_hdb.Decoders

-- `retType` is unset or 0.
abbrev pub IsAccepted : Option ℤ → Type 0
IsAccepted none = Unit
IsAccepted (some n) = Decoders.is_zero n ≡ true

-- The response that the bytes `b` come from.
pub record Source {S : Type 0} (decode : S → Decoders.Decoded)
    (parsed : Option (Decoders.Response S)) (b : List ℕ) : Type 0 where
  pub rsp : Decoders.Response S
  pub s2c : S
  pub is_parsed : parsed ≡ some rsp
  pub accepted : IsAccepted rsp.ret_type
  pub has_s2c : rsp.s2c ≡ some s2c
  pub decoded : decode s2c ≡ Decoders.kbytes b

then_source :
    (t : Bool) (x : Decoders.Decoded) (s : Text) {b : List ℕ}
    → (if t then x else Decoders.failed s) ≡ Decoders.kbytes b
    → (t ≡ true) × (x ≡ Decoders.kbytes b)
then_source true x s e = (refl, e)
then_source false x s e = cc

pub else_source :
    (t : Bool) (x : Decoders.Decoded) (s : Text) {b : List ℕ}
    → (if t then Decoders.failed s else x) ≡ Decoders.kbytes b
    → (t ≡ false) × (x ≡ Decoders.kbytes b)
else_source true x s e = cc
else_source false x s e = (refl, e)

serialized_source :
    {R : Type 0} (serialize : List R → List ℕ) (o : Option (List R)) {b : List ℕ}
    → Decoders.serialized serialize o ≡ Decoders.kbytes b
    → (rows : List R) × (o ≡ some rows) × (b ≡ serialize rows)
serialized_source serialize none e = cc
serialized_source serialize (some rows) e = (rows, refl, cc)

pub bind_source :
    {A : Type 0} {B : Type 0} (o : Option A) (f : A → Option B) {y : B}
    → Decoders.◌>>=◌ o f ≡ some y
    → (x : A) × (o ≡ some x) × (f x ≡ some y)
bind_source none f e = cc
bind_source (some x) f e = (x, refl, e)

module _ {S : Type 0} (decode : S → Decoders.Decoded) (cap : ℕ) {b : List ℕ} where
  s2c_source :
      (o : Option S)
      → Decoders.with_s2c decode cap o ≡ Decoders.kbytes b
      → (s2c : S) × (o ≡ some s2c) × (decode s2c ≡ Decoders.kbytes b)
  unfolding Decoders.with_s2c
  s2c_source none e = cc
  s2c_source (some s) e = (s, refl, e)

  ret_type_source :
      (ret : Option ℤ) (rsp : Decoders.Response S)
      → Decoders.with_ret_type decode cap ret rsp ≡ Decoders.kbytes b
      → IsAccepted ret × ((s2c : S) × (rsp.s2c ≡ some s2c) × (decode s2c ≡ Decoders.kbytes b))
  unfolding Decoders.with_ret_type
  ret_type_source none rsp e = (tt, s2c_source rsp.s2c e)
  ret_type_source (some n) rsp e =
      let (zero_ret, e') = then_source (Decoders.is_zero n) _ _ e in
      (zero_ret, s2c_source rsp.s2c e')

  -- A decoder gives bytes only for a payload that parses to a response whose `retType` is unset or 0 and
  -- that has an `s2c`; the bytes are those that this `s2c` decodes to.
  pub with_response_lem :
      (name : Text) (parsed : Option (Decoders.Response S))
      → Decoders.with_response decode cap name parsed ≡ Decoders.kbytes b
      → Source decode parsed b
  unfolding Decoders.with_response
  with_response_lem name none e = cc
  with_response_lem name (some rsp) e =
      let (accepted, (s2c, has, decoded)) = ret_type_source rsp.ret_type rsp e in
      record {
        rsp = rsp;
        s2c = s2c;
        is_parsed = refl;
        accepted = accepted;
        has_s2c = has;
        decoded = decoded;
      }

length-rows_of :
    {A : Type 0} {B : Type 0} (row : A → Option B) (xs : List A) {rows : List B}
    → Decoders.rows_of row xs ≡ some rows
    → length rows ≡ length xs
length-rows_of row [] e = cc
length-rows_of row (x ∷ xs) e =
    let (r, _, e1) = bind_source (row x) _ e in
    let (rs, eq, e2) = bind_source (Decoders.rows_of row xs) _ e1 in
    let ih = length-rows_of row xs eq in cc

-- The response that a table comes from: accepted, with a nonempty list of items, one row for each item,
-- and the message of those rows.
pub record Table {S I R : Type 0} (items : S → List I) (row : S → I → Option R)
    (serialize : List R → List ℕ) (parsed : Option (Decoders.Response S)) (b : List ℕ)
    : Type 0 where
  pub rsp : Decoders.Response S
  pub s2c : S
  pub rows : List R
  pub is_parsed : parsed ≡ some rsp
  pub accepted : IsAccepted rsp.ret_type
  pub has_s2c : rsp.s2c ≡ some s2c
  pub nonempty : 0 < length (items s2c)
  pub each_row : Decoders.rows_of (row s2c) (items s2c) ≡ some rows
  pub one_each : length rows ≡ length (items s2c)
  pub message : b ≡ serialize rows

pub Table-source :
    {S I R : Type 0} (items : S → List I) (row : S → I → Option R) (serialize : List R → List ℕ)
    (cap : ℕ) (name empty : Text) (parsed : Option (Decoders.Response S)) {b : List ℕ}
    → Decoders.with_response
        (λ s2c.
          if length (items s2c) == 0
          then Decoders.failed empty
          else Decoders.serialized serialize (Decoders.rows_of (row s2c) (items s2c)))
        cap
        name
        parsed
      ≡ Decoders.kbytes b
    → Table items row serialize parsed b
Table-source items row serialize cap name empty parsed e =
    let src = with_response_lem _ cap name parsed e in
    let (some_item, e1) = else_source (length (items src.s2c) == 0) _ _ src.decoded in
    let (rows, each, message) =
      serialized_source serialize (Decoders.rows_of (row src.s2c) (items src.s2c)) e1 in
    record {
      rsp = src.rsp;
      s2c = src.s2c;
      rows = rows;
      is_parsed = src.is_parsed;
      accepted = src.accepted;
      has_s2c = src.has_s2c;
      nonempty = ground arith;
      each_row = each;
      one_each = length-rows_of (row src.s2c) (items src.s2c) each;
      message = message;
    }

module _ (market_name : Market → Text) (utc : Text → Option ℤ) (epoch : ℕ → Option ℤ)
    (payload : List ℕ) (ts_ns : ℤ) (cap : ℕ) {b : List ℕ} where
  -- When the ticker decoder gives bytes, the payload parsed to a response whose `retType` is unset or 0,
  -- with an `s2c` of one ticker at least; the bytes are the message of a table with one row for each ticker.
  pub decode_ticker_kbytes_lem :
      (parse : List ℕ → Option (Decoders.Response Decoders.TickerS2C))
      → Decoders.decode_ticker_kbytes market_name utc epoch parse payload ts_ns cap
        ≡ Decoders.kbytes b
      → Table
          (λ s2c. s2c.ticker_list)
          (λ s2c.
            Decoders.ticker_row market_name utc epoch
              (Decoders.symbol_of market_name s2c.security)
              ts_ns)
          serialize_ticker_qipc
          (parse payload)
          b
  unfolding Decoders.decode_ticker_kbytes
  decode_ticker_kbytes_lem parse e = Table-source _ _ _ cap _ _ (parse payload) e

  -- When the quote decoder gives bytes, the payload parsed to a response whose `retType` is unset or 0,
  -- with an `s2c` of one quote at least; the bytes are the message of a table with one row for each quote.
  pub decode_basicquote_kbytes_lem :
      (parse : List ℕ → Option (Decoders.Response (List Decoders.BasicQot)))
      → Decoders.decode_basicquote_kbytes market_name utc epoch parse payload ts_ns cap
        ≡ Decoders.kbytes b
      → Table
          (λ items. items)
          (λ items. Decoders.basicquote_row market_name utc epoch ts_ns)
          serialize_basicquote_qipc
          (parse payload)
          b
  unfolding Decoders.decode_basicquote_kbytes
  decode_basicquote_kbytes_lem parse e = Table-source _ _ _ cap _ _ (parse payload) e
