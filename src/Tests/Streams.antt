-- ===== src/Tests/Streams.antt =====
-- The theorems on the message paths: the downstream, the inbox, the decoders and the Kafka client.
use momo_hdb.Base.{ℕ, zero, suc, ◌+◌, ◌≤◌, ◌<◌, ◌≡◌, refl, true, false, Option, none, some}
use momo_hdb.Base.{List, [], ◌∷◌, ◌++◌, Text, bytes, length, map, arith}
use momo_hdb.Base.Int.{ℤ, pos}
use momo_hdb.Ring.{Ring, make}
use momo_hdb.Ring.Refine.{Holds}
use momo_hdb.Ring.Batch.{make-Holds}
use momo_hdb.Downstream
use momo_hdb.Downstream.Delivery
use momo_hdb.Downstream.Guarantees
use momo_hdb.Downstream.Room
use momo_hdb.Subscription.{Market, SecurityId}
use momo_hdb.Manager.{OverflowPolicy, Options, Manager}
use momo_hdb.Manager.Push
use momo_hdb.Manager.Push.Inbox
use momo_hdb.Manager.Push.Capacity
use momo_hdb.Schema.{TickerRow}
use momo_hdb.Decoders
use momo_hdb.Dispatcher

abbrev sink : Downstream.ISink (List Downstream.Pointer)
sink = record { submit = λ e s. s ++ (e ∷ []); flush = λ t s. s }

abbrev fresh : Downstream.Downstream (List Downstream.Pointer)
fresh = record {
  name = bytes "demo";
  sink = [];
  q = Guarantees.new_queue;
  running = false;
  worker = false;
}

started : Delivery.Serves (Downstream.start fresh) []
started = Guarantees.start-Serves (bytes "demo") [] (Guarantees.new_downstream_eq (bytes "demo") [])

abbrev message : Downstream.Envelope
message = record {
  topic = bytes "futu.rt.pb";
  key = bytes "HK.00700";
  payload = 1 ∷ [];
  ts_ns = pos 5;
}

abbrev events : List Downstream.Event
events =
    Downstream.submitted (some message)
    ∷ Downstream.worked
    ∷ Downstream.flushed (pos 10)
    ∷ Downstream.submitted (some message)
    ∷ []

room : Room.HasRoom [] events
room = (omega arith, (omega arith, tt))

run_is_fifo_example :
    let (q', cs) = Room.fifo [] events in
    Delivery.Serves (Downstream.run sink events (Downstream.start fresh)) q'
    × ((Downstream.run sink events (Downstream.start fresh)).sink
        ≡ Delivery.calls sink cs (Downstream.start fresh).sink)
run_is_fifo_example = Room.run_is_fifo sink events [] started room

stop_lem_example :
    Holds (Downstream.stop sink (Downstream.start fresh)).q []
    × ((Downstream.stop sink (Downstream.start fresh)).sink
        ≡ Delivery.calls sink (map Delivery.give []) (Downstream.start fresh).sink)
    × ((Downstream.stop sink (Downstream.start fresh)).worker ≡ false)
stop_lem_example = Delivery.stop_lem sink [] started

few :
    length {A = Downstream.Pointer} [] + length (Delivery.submissions events)
    < Downstream.queue_slots
unfolding Delivery.submissions
few = omega arith

stop_delivers_in_order_example :
    ((Downstream.stop sink (Downstream.run sink events (Downstream.start fresh))).sink
      ≡ Delivery.calls sink (Room.calls_to_stop sink [] events) (Downstream.start fresh).sink)
    × (Delivery.given (Room.calls_to_stop sink [] events) ≡ [] ++ Delivery.submissions events)
stop_delivers_in_order_example = Room.stop_delivers_in_order sink events [] started room

abbrev pub blank : Downstream.Envelope
blank = record { topic = []; key = []; payload = []; ts_ns = pos 0 }

abbrev pub forget : Downstream.Envelope → Downstream.Envelope
forget e = blank

abbrev inbox : Ring Downstream.Envelope
inbox = record { cap = 2; mask = 1; buf = blank ∷ blank ∷ []; head = 0; tail = 0 }

inbox_made : make blank 2 ≡ some inbox
unfolding make
inbox_made = refl

inbox-Holds : Holds inbox []
inbox-Holds = make-Holds blank 2 (omega arith) inbox_made

abbrev pub options : OverflowPolicy → Options
options policy = record {
  refresh_interval = 5000;
  capacity = 2;
  overflow = policy;
  first_push = false;
}

abbrev pub manager : OverflowPolicy → Manager
manager policy = record {
  opts = options policy;
  session = true;
  has_loader = true;
  inbox = inbox;
  connected = true;
  force_resubscribe = false;
  last_check = none;
  last_mtime = 0;
  current_state = [];
  pending_state = [];
  has_current = false;
  has_pending = false;
}

abbrev pub names : Market → Text
names market = bytes "QotMarket_HK_Security"

abbrev pub tencent : SecurityId
tencent = record { market = Market.hk_security; code = bytes "00700" }

new_inbox_lem_example :
    (r : Ring Downstream.Envelope) × (Push.new_inbox blank (options OverflowPolicy.block) ≡ some r)
    × Holds r []
    × ((options OverflowPolicy.block).capacity ≤ r.cap)
new_inbox_lem_example = Capacity.new_inbox_lem blank (options OverflowPolicy.block) (omega arith)

abbrev item_security : ℕ → SecurityId
item_security item = tencent

-- An item that is 0 does not serialize.
abbrev single : ℕ → ℕ → Option Text
single rsp zero = none
single rsp (suc n) = some (n ∷ [])

abbrev items : List (ℤ × ℕ)
items = (pos 1, 5) ∷ (pos 2, 0) ∷ (pos 3, 6) ∷ []

pub manager-Inbox :
    Inbox.Inbox (options OverflowPolicy.drop_oldest) 2 [] (manager OverflowPolicy.drop_oldest)
manager-Inbox = record { same_opts = refl; same_cap = refl; queued = inbox-Holds }

on_push_basicqot_lem_example :
    (self' : Manager) × (Push.on_push_basicqot forget blank names item_security single 0 items
        (manager OverflowPolicy.drop_oldest)
      ≡ Push.returned true self')
    × Inbox.Inbox
        (options OverflowPolicy.drop_oldest)
        2
        (Inbox.offer_all 2 (Inbox.basicqot_envelopes names item_security single 0 items) [])
        self'
on_push_basicqot_lem_example =
    Inbox.on_push_basicqot_lem names item_security single forget blank 0 items refl manager-Inbox

abbrev pub listing : Push.Sink (List Downstream.Envelope)
listing = record { submit = some (λ e s. s ++ (e ∷ [])); flush = none }

abbrev pub no_time : {A : Type 0} → A → Option ℤ
no_time s = none

abbrev pub trade : Decoders.Ticker
trade = record {
  dir = some (pos 1);
  price = some 4645744490609377280;
  volume = some (pos 200);
  turnover = none;
  time = none;
  recv_time = none;
}

abbrev pub trades : Decoders.Response Decoders.TickerS2C
trades = record {
  ret_type = some (pos 0);
  err_code = none;
  ret_msg = none;
  s2c = some (record { security = none; ticker_list = trade ∷ [] });
}

abbrev pub trade_row : TickerRow
trade_row = record {
  symbol = [];
  time = pos 7;
  direction = pos 1;
  price = 4645744490609377280;
  volume = pos 200;
  amount = 0;
  msg_time = pos 0;
  recv_time = pos 0;
}

abbrev hub : Dispatcher.Dispatcher (List Downstream.Pointer)
hub = record { downstreams = Downstream.start fresh ∷ Downstream.start fresh ∷ [] }
