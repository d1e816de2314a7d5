-- ===== src/Manager/Run.antt =====
-- `SubscriptionManager::run`: turns of the loop until the stop flag is seen, with what other threads do
-- in between. A turn has its own clock, file, loader's result and API (`serial`). What happens after
-- a turn is atomic here, and a handler that spins at a full inbox tries again as a later arrival.
pub mod Untouched
pub mod Handover
pub mod Deliver
pub mod Race
use momo_hdb.Base.{Text, ℕ, Bool, true, false, Option, none, some, List, [], ◌∷◌}
use momo_hdb.Base.Int.{ℤ, pos}
use momo_hdb.Subscription.{SubType, SecurityId}
use momo_hdb.Downstream.{Envelope}
use momo_hdb.Manager.{Manager, Request, Stat, Loaded, nothing_sent, on_connected, control_cycle}
use momo_hdb.Manager.Requests.{Subscribed, obey_all}
use momo_hdb.Manager.Push.{Enqueued, returned, spinning, enqueue, Sink, data_plane}

-- What other threads do: a handler posts an envelope, the session reports an attempt to connect, or a
-- thread of the sink, named here, makes a round of its own (`work`).
pub data Happening : Type 0 where
  arrives : Envelope → Happening
  connects : Bool → Happening
  works : Text → Happening

pub record Turn : Type 0 where
  pub now : ℕ
  pub stat : Stat
  pub loaded : Loaded
  pub serial : List Request → Request → ℕ
  pub meanwhile : List Happening

-- The manager, the sink's state, and what an API that obeys the requests is subscribed to: nothing
-- after a new connection.
pub record Running (S : Type 0) : Type 0 where
  pub manager : Manager
  pub sink : S
  pub subscribed : Subscribed

abbrev pub manager_after : Enqueued → Manager
manager_after (returned done self) = self
manager_after (spinning self) = self

abbrev pub renewed : Bool → Subscribed → Subscribed
renewed true v = λ id t. false
renewed false v = v

-- `if (sink_.flush)`
abbrev pub flush_if : {S : Type 0} → Option (ℤ → S → S) → S → S
flush_if none s = s
flush_if (some f) s = f (pos 3000) s

module _ {S : Type 0} (moved : Envelope → Envelope) (blank : Envelope) (sink : Sink S)
    (work : Text → S → S) where
  unfoldable pub happen : Happening → Running S → Running S
  happen (arrives e) st = record st { manager = manager_after (enqueue moved blank e st.manager) }
  happen (connects success) st = record st {
    manager = on_connected success st.manager;
    subscribed = renewed success st.subscribed;
  }
  happen (works name) st = record st { sink = work name st.sink }

  unfoldable pub happen_all : List Happening → Running S → Running S
  happen_all [] st = st
  happen_all (h ∷ hs) st = happen_all hs (happen h st)

  -- The body of the loop: the control plane, then the data plane.
  unfoldable pub turn : Turn → Running S → Running S
  turn t st =
      let (m, w) = control_cycle t.serial t.now t.stat t.loaded st.manager nothing_sent in
      let (m', s) = data_plane moved blank sink m st.sink in
      record { manager = m'; sink = s; subscribed = obey_all w.requests st.subscribed }

  -- The turns that are made before the stop flag is seen, and the last flush.
  unfoldable pub run : List Turn → Running S → Running S
  run [] st = record st { sink = flush_if sink.flush st.sink }
  run (t ∷ ts) st = run ts (happen_all t.meanwhile (turn t st))
