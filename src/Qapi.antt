-- ===== src/Qapi.antt =====
-- momo_subpb/src/kfkpb.cpp: the functions that q calls. A `K` is the part of k.h's values that the code
-- makes or tests; `socketpair` and `build_default_consumer`, which call the system and librdkafka, are
-- arguments, as is the making of a client (Qapi.Build has `build_default_consumer`). An exception is
-- the text of its `what()`. `krr` keeps the pointer that it is given and does not copy the text.
pub mod Topics
pub mod Handles
pub mod Callback
pub mod Results
pub mod Build
use momo_hdb.Base.{
  ℕ, zero, suc, ◌+◌, Bool, true, false, not, ◌&&◌, ◌||◌, ◌==◌, Option, none, some, List, [], ◌∷◌,
  ◌++◌, map, Text, bytes, text_eq, if◌then◌else◌,
}
use momo_hdb.Base.Int.{ℤ, pos, negsuc}
use momo_hdb.Yaml.{Call, returned, raised}
use momo_hdb.Kfkpb.{Client, Event, MsgType, Kind, infer_type_from_topic, is_unknown}
use momo_hdb.Kfkpb
use momo_hdb.Kfkpb.Drain.{drain_to}

pub data K : Type 0 where
  null : K
  int long : ℤ → K
  symbols : List Text → K
  byte_list : List ℕ → K
  -- `krr` of a string literal, and `krr` of the `what()` of an exception that the handler destroys: the
  -- pointer that it keeps dangles, and the text that q reads through it is not determined.
  error : Text → K
  stale_error : K
  dict : K
  other : K

-- The file's static variables; `registered` is that `sd1` was called.
pub record Api : Type 0 where
  pub client : Option Client
  pub inited : Bool
  pub registered : Bool

abbrev pub handle : ℤ
handle = pos 1

unfoldable pub msg_type_name : MsgType → Text
msg_type_name MsgType.basic_quote = bytes "basicquote"
msg_type_name MsgType.order_book = bytes "orderbook"
msg_type_name MsgType.ticker = bytes "ticker"
msg_type_name MsgType.kline_1m = bytes "kline1m"
msg_type_name MsgType.unknown = bytes "unknown"

unfoldable pub kind_name : Kind → Text
kind_name Kind.data_kind = bytes "data"
kind_name Kind.error_kind = bytes "error"

unfoldable pub make_kbytes : List ℕ → K
make_kbytes buf = byte_list buf

abbrev pub has_topic : Text → List (Text × MsgType) → Bool
has_topic topic [] = false
has_topic topic ((t, mt) ∷ rest) = text_eq t topic || has_topic topic rest

-- `emplace`, which keeps an entry that is there.
abbrev pub emplace : Text → MsgType → List (Text × MsgType) → List (Text × MsgType)
emplace topic mt out = if has_topic topic out then out else out ++ ((topic, mt) ∷ [])

unfoldable pub parse_symbols : List Text → List (Text × MsgType) → Call (List (Text × MsgType))
parse_symbols [] out = returned out
parse_symbols (topic ∷ rest) out =
    let mt = infer_type_from_topic topic in
    let later = parse_symbols rest (emplace topic mt out) in
    if is_unknown mt then raised (bytes "cannot infer msg type from topic: " ++ topic) else later

unfoldable pub parse_topics : K → Call (List (Text × MsgType))
parse_topics (symbols ss) = parse_symbols ss []
parse_topics other_value = raised (bytes "topics must be symbol list")

-- The calls of `.kfkpb.consumecb` that the callback makes, and the state afterwards.
unfoldable pub callback_on : Option Client → Api → List K × Api
callback_on none self = ([], self)
callback_on (some c) self =
    let (evs, c') = drain_to [] c in
    (map (λ ev. make_kbytes ev.payload) evs, record self { client = some c' })

unfoldable pub callback : Api → List K × Api
callback self = callback_on self.client self

unfoldable pub init : Bool → Api → K × Api
init socketpair_ok self =
    if self.inited
    then (int handle, self)
    else if not socketpair_ok
    then (error (bytes "socketpair"), record self { inited = true })
    else (int handle, record self { inited = true; registered = true })

abbrev pub is_dict : K → Bool
is_dict dict = true
is_dict _ = false

unfoldable pub make_client : Call Client → Api → K × Api
make_client (returned c) self = (int handle, record self { client = some c })
make_client (raised what) self = (stale_error, self)

abbrev pub with_client : (Client → K × Api) → K × Api → Option Client → K × Api
with_client f otherwise none = otherwise
with_client f otherwise (some c) = f c

unfoldable pub init_consumer : Call Client → K → Api → K × Api
init_consumer built conf self =
    if not (is_dict conf)
    then (error (bytes "type"), self)
    else with_client (λ c. (int handle, self)) (make_client built self) self.client

unfoldable pub close : Api → K × Api
close self = (null, record self { client = none })

unfoldable pub applied :
    (List (Text × MsgType) → Client → Client)
    → Call (List (Text × MsgType))
    → Client
    → Api
    → K × Api
applied f (returned topics) c self = (null, record self { client = some (f topics c) })
applied f (raised what) c self = (stale_error, self)

-- `handle->t == -6 && handle->i == g_handle`
abbrev pub is_int_handle : K → Bool
is_int_handle (int (pos n)) = n == 1
is_int_handle _ = false

-- `handle->t == -7 && handle->j == g_handle`
abbrev pub is_long_handle : K → Bool
is_long_handle (long (pos n)) = n == 1
is_long_handle _ = false

unfoldable pub subscribe : K → K → Api → K × Api
subscribe h topics self =
    if not (is_int_handle h)
    then (error (bytes "handle"), self)
    else with_client (λ c. applied Kfkpb.subscribe (parse_topics topics) c self)
        (error (bytes "not initialized"), self) self.client

abbrev pub subscribe_at : K → K → Api → K × Api
subscribe_at topics (long ts) self =
    with_client
      (λ c. applied (λ parsed. Kfkpb.subscribe_from_time parsed ts) (parse_topics topics) c self)
      (error (bytes "not initialized"), self) self.client
subscribe_at topics other_value self = (error (bytes "type"), self)

unfoldable pub subscribe_from_time : K → K → K → Api → K × Api
subscribe_from_time h topics ts self =
    if not (is_long_handle h) then (error (bytes "handle"), self) else subscribe_at topics ts self
