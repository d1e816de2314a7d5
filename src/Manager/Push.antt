-- ===== src/Manager/Push.antt =====
-- momo_feed/src/futu_quote/SubscriptionManager.cpp, the data plane: the push handlers, which turn
-- an API message into an envelope for the inbox, and what the loop of `run` hands to the sink.
-- Arguments here, being outside the repository: `market_name` (`Qot_Common::QotMarket_Name`),
-- `serialize` (`SerializeToArray`, `none` where it fails), `single` (the copy of a message that
-- keeps one item of its list), the clock `now` and what a move leaves of an envelope (`moved`).
pub mod Capacity
pub mod Inbox
use momo_hdb.Base.{
  ℕ, zero, suc, ◌+◌, ◌-◌, ◌*◌, ◌%◌, ◌^◌, Bool, true, false, not, ◌&&◌, ◌||◌, ◌==◌, Option, none,
  some,
}
use momo_hdb.Base.{
  List, [], ◌∷◌, ◌++◌, Text, bytes, length, take, drop, ltb, leb, if◌then◌else◌, text_eq,
}
use momo_hdb.Base.Int.{ℤ}
use momo_hdb.Ring.{Ring, make, try_push, try_pop, pop_many}
use momo_hdb.Downstream.{Envelope}
use momo_hdb.Subscription.{Market, SecurityId}
use momo_hdb.Manager.{OverflowPolicy, Options, Manager}

-- The loop of `next_pow2`, with the number of rounds that it may still make.
unfoldable pub next_pow2_loop : ℕ → ℕ → ℕ → ℕ
next_pow2_loop zero v p = p
next_pow2_loop (suc fuel) v p =
    let rest = next_pow2_loop fuel v (p * 2 % 2 ^ 64) in if ltb p v then rest else p

unfoldable pub next_pow2 : ℕ → ℕ
next_pow2 v = if ltb v 2 then 2 else next_pow2_loop v v 1

-- The constructor; `none` is the exception of the queue's.
unfoldable pub new_inbox : Envelope → Options → Option (Ring Envelope)
new_inbox blank opts = make blank (next_pow2 opts.capacity)

-- `s.starts_with(p)` and `s.ends_with(p)`
abbrev pub starts_with : Text → Text → Bool
starts_with s p = text_eq (take (length p) s) p

abbrev pub ends_with : Text → Text → Bool
ends_with s p = leb (length p) (length s) && text_eq (drop (length s - length p) s) p

abbrev pub market_head : Text
market_head = bytes "QotMarket_"

abbrev pub market_tail : Text
market_tail = bytes "_Security"

-- `name` is what `QotMarket_Name` returns; `len` is a `std::size_t`, which can wrap around.
unfoldable pub market_prefix : Text → Text
market_prefix name =
    let len = (length name + 2 ^ 64 - length market_head - length market_tail) % 2 ^ 64 in
    if not (starts_with name market_head) || not (ends_with name market_tail)
    then name
    else if len == 0
    then name
    else take len (drop (length market_head) name)

unfoldable pub make_key : (Market → Text) → SecurityId → Text
make_key market_name sec = market_prefix (market_name sec.market) ++ (bytes "." ++ sec.code)

-- `enqueue`: what it returns with the new state, or the state in which it still spins.
pub data Enqueued : Type 0 where
  returned : Bool → Manager → Enqueued
  spinning : Manager → Enqueued

abbrev pub and_then : Enqueued → (Manager → Enqueued) → Enqueued
and_then (returned done self) k = k self
and_then (spinning self) k = spinning self

module _ (moved : Envelope → Envelope) (blank : Envelope) where
  unfoldable pub refused : OverflowPolicy → Envelope → Manager → Enqueued
  refused OverflowPolicy.drop_oldest e self =
      let (done, r) = try_push e (try_pop moved blank self.inbox).2 in
      returned done (record self { inbox = r })
  refused OverflowPolicy.block e self = spinning self

  unfoldable pub enqueue : Envelope → Manager → Enqueued
  unfolding refused
  enqueue e self =
      let (done, r) = try_push e self.inbox in
      if done then returned true (record self { inbox = r }) else refused self.opts.overflow e self

  -- A handler that posts one message: `none` is the return on a failed serialization.
  unfoldable pub post : Text → Option Text → Text → ℤ → Manager → Enqueued
  post topic none key now self = returned false self
  post topic (some payload) key now self =
      enqueue (record { topic = topic; key = key; payload = payload; ts_ns = now }) self

module _ (moved : Envelope → Envelope) (blank : Envelope) (market_name : Market → Text) where
  module _ {M : Type 0} (security : M → SecurityId) (serialize : M → Option Text) where
    unfoldable pub on_push_orderbook : ℤ → M → Manager → Enqueued
    on_push_orderbook now rsp =
        post moved blank (bytes "futu.orderbook.pb") (serialize rsp)
          (make_key market_name (security rsp)) now

    unfoldable pub on_push_ticker : ℤ → M → Manager → Enqueued
    on_push_ticker now rsp =
        post moved blank (bytes "futu.ticker.pb") (serialize rsp)
          (make_key market_name (security rsp)) now

    unfoldable pub on_push_kl : ℤ → M → Manager → Enqueued
    on_push_kl now rsp =
        post moved blank (bytes "futu.kl1min.pb") (serialize rsp)
          (make_key market_name (security rsp)) now

    unfoldable pub on_push_rt : ℤ → M → Manager → Enqueued
    on_push_rt now rsp =
        post moved blank (bytes "futu.rt.pb") (serialize rsp) (make_key market_name (security rsp))
          now

    unfoldable pub on_push_broker : ℤ → M → Manager → Enqueued
    on_push_broker now rsp =
        post moved blank (bytes "futu.broker.pb") (serialize rsp)
          (make_key market_name (security rsp)) now

  module _ {M I : Type 0} (item_security : I → SecurityId) (single : M → I → Option Text) where
    -- The loop over `basicqotlist`, which a handler that spins does not leave; each item has the
    -- time at which its turn comes.
    unfoldable pub push_items : M → List (ℤ × I) → Manager → Enqueued
    push_items rsp [] self = returned true self
    push_items rsp ((now, item) ∷ items) self =
        let key = make_key market_name (item_security item) in
        and_then (post moved blank (bytes "futu.basicqot.pb") (single rsp item) key now self)
          (push_items rsp items)

    unfoldable pub on_push_basicqot : M → List (ℤ × I) → Manager → Enqueued
    on_push_basicqot rsp items self = push_items rsp items self

-- `sink_`: a context and two functions that may be null.
pub record Sink (S : Type 0) : Type 0 where
  pub submit : Option (Envelope → S → S)
  pub flush : Option (ℤ → S → S)

unfoldable pub submit_batch : {S : Type 0} → Option (Envelope → S → S) → List Envelope → S → S
submit_batch none batch s = s
submit_batch (some f) [] s = s
submit_batch (some f) (e ∷ batch) s = submit_batch (some f) batch (f e s)

abbrev pub batch_max : ℕ
batch_max = 1024

-- The data plane of one round of `run`; a round that finds nothing sleeps.
unfoldable pub data_plane :
    {S : Type 0} → (Envelope → Envelope) → Envelope → Sink S → Manager → S → Manager × S
data_plane moved blank sink self s =
    let (n, batch, r) = pop_many moved blank [] batch_max self.inbox in
    (record self { inbox = r }, submit_batch sink.submit batch s)
