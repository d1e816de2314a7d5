-- ===== src/Tests/Sessions.antt =====
-- The session, through a connection, its loss and a failed attempt to connect again.
use momo_hdb.Base.{◌≡◌, true, false, some, none, [], ◌∷◌, List, Text, bytes}
use momo_hdb.Base.Int.{pos, negsuc}
use momo_hdb.Downstream.{Envelope}
use momo_hdb.Manager.{Manager, OverflowPolicy}
use momo_hdb.Manager.Push.{Enqueued, post}
use momo_hdb.Session.{Event, init_connect, dis_connect, reply_sub, make_session, handle_all}
use momo_hdb.Session.Wiring.{Handlers, main_callbacks, bind_session, connection_lem}

abbrev blank : Envelope
blank = record { topic = []; key = []; payload = []; ts_ns = pos 0 }

abbrev posts : Text → Text → Manager → Enqueued
posts topic rsp = post (λ e. blank) blank topic (some rsp) (bytes "HK.00700") (pos 0)

abbrev handlers : Handlers Text
handlers = record {
  basicqot = posts (bytes "futu.basicqot.pb");
  orderbook = posts (bytes "futu.orderbook.pb");
  ticker = posts (bytes "futu.ticker.pb");
  kl = posts (bytes "futu.kl1min.pb");
  rt = posts (bytes "futu.rt.pb");
  broker = posts (bytes "futu.broker.pb");
}

-- A manager as its constructor makes it, with an inbox of two slots.
abbrev fresh : Manager
fresh = record {
  opts = record {
    refresh_interval = 5000;
    capacity = 2;
    overflow = OverflowPolicy.drop_oldest;
    first_push = false;
  };
  session = false;
  has_loader = true;
  inbox = record { buf = blank ∷ blank ∷ []; cap = 2; mask = 1; head = 0; tail = 0 };
  connected = false;
  force_resubscribe = false;
  last_check = none;
  last_mtime = 0;
  current_state = [];
  pending_state = [];
  has_current = false;
  has_pending = false;
}

-- Connected, answered, lost.
abbrev lost : List (Event Text)
lost = init_connect (pos 0) ∷ reply_sub (bytes "ok") ∷ dis_connect (negsuc 0) ∷ []

connection_lem_example :
    let after =
      handle_all lost
        (record (make_session (main_callbacks handlers)) { connected = false })
        (bind_session fresh) in
    (after.0.connected ≡ false) × (after.1.connected ≡ true) × (after.1.force_resubscribe ≡ true)
unfolding bind_session
connection_lem_example = connection_lem handlers lost false (bind_session fresh)
