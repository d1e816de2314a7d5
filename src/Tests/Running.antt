-- ===== src/Tests/Running.antt =====
-- The loop of `run` over two turns, with an arrival and a new connection between them.
use momo_hdb.Base.{Text, ◌≡◌, refl, true, false, some, List, [], ◌∷◌, ◌++◌, bytes, arith}
use momo_hdb.Base.Int.{pos}
use momo_hdb.Ring.Batch.{make-Holds}
use momo_hdb.Ring.{make}
use momo_hdb.Subscription.{SubType, canonicalize, merge_all, merge}
use momo_hdb.Subscription.Canon.{view}
use momo_hdb.Downstream.{Envelope}
use momo_hdb.Manager.{
  Manager, ok, on_connected, nothing_sent, load_if_changed, apply_due, apply_pending, resume,
  clear_force, value_or_false,
}
use momo_hdb.Manager.Push.{Sink}
use momo_hdb.Manager.Settled.{IsSettled}
use momo_hdb.Manager.Run
use momo_hdb.Manager.Run.{arrives, connects, works}
use momo_hdb.Manager.Run.Handover.{SinkEvent, sink_events, given, handed, unsent, all_arrivals}
use momo_hdb.Manager.Run.Deliver.{Holding, befall, run_lem, run_keeps_all}
use momo_hdb.Manager.Run.Race.{racing_attempt, lost_reconnect}
use momo_hdb.Tests.Subscriptions.{
  connected, connected-IsSettled, no_subscription, serial_one, blank, two_types, tencent,
}

abbrev listing : Sink (List Envelope)
listing = record { submit = some (λ e s. s ++ (e ∷ [])); flush = some (λ t s. s) }

abbrev pub forget : Envelope → Envelope
forget e = blank

abbrev tick : Envelope
tick = record { topic = bytes "futu.ticker.pb"; key = []; payload = 7 ∷ []; ts_ns = pos 1 }

abbrev pub turns : List Run.Turn
turns =
    record {
      now = 0;
      stat = ok 9;
      loaded = ok two_types;
      serial = serial_one;
      meanwhile = arrives tick ∷ works (bytes "kafka") ∷ connects true ∷ [];
    }
    ∷ record {
      now = 1;
      stat = ok 9;
      loaded = ok two_types;
      serial = serial_one;
      meanwhile = arrives tick ∷ [];
    }
    ∷ []

abbrev started : Run.Running (List Envelope)
started = record { manager = connected; sink = []; subscribed = no_subscription }

pub inbox_made : make blank 2 ≡ some connected.inbox
unfolding make
inbox_made = refl

started-Holding : Holding connected.opts 2 [] started
started-Holding = record {
  inbox = record {
    same_opts = refl;
    same_cap = refl;
    queued = make-Holds blank 2 (omega arith) inbox_made;
  };
  settled = connected-IsSettled;
}

abbrev nothing : Text → List Envelope → List Envelope
nothing name s = s

run_lem_example :
    let st' = Run.run forget blank listing nothing turns started in
    (st'.sink ≡ Run.flush_if listing.flush (befall listing nothing (sink_events 2 turns []) []))
    × (given (sink_events 2 turns []) ≡ handed 2 turns [])
    × Holding connected.opts 2 (unsent 2 turns []) st'
run_lem_example = run_lem forget blank listing nothing refl 2 turns [] started started-Holding

run_keeps_all_example :
    let st' = Run.run forget blank listing nothing turns started in
    (es : List SinkEvent) × (rest : List Envelope) × (st'.sink
      ≡ Run.flush_if listing.flush (befall listing nothing es []))
    × Holding connected.opts 2 rest st'
    × (given es ++ rest ≡ [] ++ all_arrivals turns)
run_keeps_all_example =
    run_keeps_all forget blank listing nothing refl 2 turns [] started started-Holding (omega arith)

abbrev raced : Manager
raced =
    (racing_attempt serial_one (λ s. s) (on_connected true) true (ok 9) (ok two_types) connected
      nothing_sent).0

raced_current :
    (raced.has_current ≡ true) × (view raced.current_state tencent SubType.ticker ≡ true)
unfolding racing_attempt load_if_changed apply_due apply_pending resume clear_force value_or_false
    canonicalize merge_all merge view on_connected momo_hdb.Subscription.Mask.wants
raced_current = (refl, refl)

lost_reconnect_example :
    let s =
      (racing_attempt serial_one
        (λ s. s)
        (on_connected true)
        true
        (ok 9)
        (ok two_types)
        connected
        nothing_sent).0 in
    (s.force_resubscribe ≡ false) × (¬ IsSettled s (λ id t. false))
lost_reconnect_example =
    lost_reconnect serial_one (ok 9) (ok two_types) connected (λ s. s) tencent SubType.ticker
      raced_current.0 raced_current.1
