-- ===== src/Qapi/Results.antt =====
-- What the functions of momo_subpb/src/kfkpb.cpp return to q.
use momo_hdb.Base.{
  ◌≡◌, refl, Bool, true, false, not, Option, none, some, List, [], ◌∷◌, map, All, Text,
  if◌then◌else◌,
}
use momo_hdb.Yaml.{Call, returned, raised}
use momo_hdb.Kfkpb.{Client, Event, MsgType}
use momo_hdb.Kfkpb.Drain.{drain_to}
use momo_hdb.Qapi.{K, Api}
use momo_hdb.Qapi

-- The handle, the null value, or an error that leaves the client alone.
abbrev pub Returns : Api → K × Api → Type 0
Returns self (K.int z, s) = z ≡ Qapi.handle
Returns self (K.null, s) = Unit
Returns self (K.error what, s) = s.client ≡ self.client
Returns self (K.stale_error, s) = s.client ≡ self.client
Returns self (other_value, s) = ⊥

abbrev pub IsByteList : K → Type 0
IsByteList (K.byte_list bytes_of) = Unit
IsByteList other_value = ⊥

Returns-if :
    (self : Api) (b : Bool) (x y : K × Api)
    → Returns self x
    → Returns self y
    → Returns self (if b then x else y)
Returns-if self true x y p q = p
Returns-if self false x y p q = q

init-Returns : (ok : Bool) (self : Api) → Returns self (Qapi.init ok self)
unfolding Qapi.init
init-Returns ok self = Returns-if self self.inited _ _ refl (Returns-if self (not ok) _ _ refl refl)

make-Returns : (built : Call Client) (self : Api) → Returns self (Qapi.make_client built self)
unfolding Qapi.make_client
make-Returns (returned c) self = refl
make-Returns (raised what) self = refl

applied-Returns :
    (f : List (Text × MsgType) → Client → Client) (parsed : Call (List (Text × MsgType)))
    (c : Client) (self : Api)
    → Returns self (Qapi.applied f parsed c self)
unfolding Qapi.applied
applied-Returns f (returned topics) c self = tt
applied-Returns f (raised what) c self = refl

with_client-Returns :
    (self : Api) (f : Client → K × Api) (otherwise : K × Api)
    → ((c : Client) → Returns self (f c))
    → Returns self otherwise
    → (o : Option Client) → Returns self (Qapi.with_client f otherwise o)
with_client-Returns self f otherwise each other none = other
with_client-Returns self f otherwise each other (some c) = each c

init_consumer-Returns :
    (built : Call Client) (conf : K) (self : Api)
    → Returns self (Qapi.init_consumer built conf self)
unfolding Qapi.init_consumer
init_consumer-Returns built conf self =
    Returns-if self (not (Qapi.is_dict conf)) _ _ refl
      (with_client-Returns self _ _ (λ c. refl) (make-Returns built self) self.client)

subscribe-Returns : (h topics : K) (self : Api) → Returns self (Qapi.subscribe h topics self)
unfolding Qapi.subscribe
subscribe-Returns h topics self = Returns-if self (not (Qapi.is_int_handle h)) _ _ refl (
    with_client-Returns self _ _ (λ c. applied-Returns _ (Qapi.parse_topics topics) c self) refl
      self.client)

subscribe_at-Returns :
    (topics ts : K) (self : Api) → Returns self (Qapi.subscribe_at topics ts self)
subscribe_at-Returns topics (K.long ts) self =
    with_client-Returns self _ _ (λ c. applied-Returns _ (Qapi.parse_topics topics) c self) refl
      self.client
subscribe_at-Returns topics K.null self = refl
subscribe_at-Returns topics (K.int z) self = refl
subscribe_at-Returns topics (K.symbols ss) self = refl
subscribe_at-Returns topics (K.byte_list bs) self = refl
subscribe_at-Returns topics (K.error what) self = refl
subscribe_at-Returns topics K.stale_error self = refl
subscribe_at-Returns topics K.dict self = refl
subscribe_at-Returns topics K.other self = refl

made_bytes : (evs : List Event) → All IsByteList (map (λ ev. Qapi.make_kbytes ev.payload) evs)
unfolding Qapi.make_kbytes
made_bytes [] = tt
made_bytes (ev ∷ evs) = (tt, made_bytes evs)

callback_returns : (o : Option Client) (self : Api) → All IsByteList (Qapi.callback_on o self).0
unfolding Qapi.callback_on
callback_returns none self = tt
callback_returns (some c) self = made_bytes (drain_to [] c).0

-- The types that q meets. Whatever it gives them, kfkpb_init, kfkpb_initConsumer, kfkpb_close,
-- kfkpb_subscribe and kfkpb_subscribeFromTime each return the handle as an int, the null value or an
-- error, and an error leaves the client and its subscription as they were; the callback hands q byte
-- lists only.
pub results_lem :
    (ok : Bool) (built : Call Client) (conf h topics ts : K) (self : Api)
    → Returns self (Qapi.init ok self)
      × Returns self (Qapi.init_consumer built conf self)
      × Returns self (Qapi.close self)
      × Returns self (Qapi.subscribe h topics self)
      × Returns self (Qapi.subscribe_from_time h topics ts self)
      × All IsByteList (Qapi.callback self).0
unfolding Qapi.close Qapi.subscribe_from_time Qapi.callback
results_lem ok built conf h topics ts self = (
  init-Returns ok self,
  init_consumer-Returns built conf self,
  tt,
  subscribe-Returns h topics self,
  Returns-if self (not (Qapi.is_long_handle h)) _ _ refl (subscribe_at-Returns topics ts self),
  callback_returns self.client self,
)
