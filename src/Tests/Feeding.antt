-- ===== src/Tests/Feeding.antt =====
-- The feed over two turns, with one downstream and a librdkafka that keeps what it accepts.
use momo_hdb.Base.{map, [], ◌∷◌, All, refl, arith}
use momo_hdb.Ring.Batch.{make-Holds}
use momo_hdb.Ring.Overflow.{offer}
use momo_hdb.Downstream
use momo_hdb.Dispatcher.{Dispatcher, destroy}
use momo_hdb.RedPanda.{RedPandaSink, Produced, record_of}
use momo_hdb.RedPanda
use momo_hdb.RedPanda.Delivery.{Sent}
use momo_hdb.Manager.Run
use momo_hdb.Manager.Run.Handover.{handed}
use momo_hdb.Manager.Run.Deliver.{Holding}
use momo_hdb.Program.{dispatcher_sink}
use momo_hdb.Pipeline.Feed.{work, feed_lem}
use momo_hdb.Tests.Subscriptions.{connected, connected-IsSettled, no_subscription, blank}
use momo_hdb.Tests.Running.{forget, turns, inbox_made}
use momo_hdb.Tests.Feed.{keeper, all_sent, keeper-Accepts, idle, idle-Serves, start-Sent}
use momo_hdb.Base.{List}

abbrev wired : Run.Running (Dispatcher (RedPandaSink (List Produced)))
wired = record {
  manager = connected;
  sink = record { downstreams = Downstream.start idle ∷ [] };
  subscribed = no_subscription;
}

wired-Holding : Holding connected.opts 2 [] wired
wired-Holding = record {
  inbox = record {
    same_opts = refl;
    same_cap = refl;
    queued = make-Holds blank 2 (omega arith) inbox_made;
  };
  settled = connected-IsSettled;
}

feed_lem_example :
    let api = RedPanda.sink keeper in
    let st' = Run.run forget blank (dispatcher_sink api) (work api) turns wired in
    All
      (λ x. Sent keeper all_sent keeper-Accepts x.sink (map record_of (handed 2 turns [])))
      (destroy api st'.sink).downstreams
unfolding offer
feed_lem_example =
    feed_lem keeper all_sent keeper-Accepts forget blank turns [] 2 wired refl wired-Holding
      (record { serves = idle-Serves; silent = start-Sent }, tt) (omega arith)
