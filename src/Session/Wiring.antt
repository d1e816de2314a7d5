-- ===== src/Session/Wiring.antt =====
-- momo_feed/src/main.cpp: the callbacks that it gives the session, and what the manager then knows.
use momo_hdb.Base.{
  ◌≡◌, refl, ◌∙◌, Bool, true, false, ◌||◌, none, some, List, [], ◌∷◌, if◌then◌else◌,
}
use momo_hdb.Manager.{Manager, on_connected}
use momo_hdb.Manager.Push.{Enqueued}
use momo_hdb.Session.{
  SessionCallbacks, Event, init_connect, dis_connect, reply_sub, is_zero, make_session,
  on_init_connect, on_dis_connect, on_reply_sub, handle, handle_all,
}

-- The manager's handlers of the six pushes, as Manager.Push has them.
pub record Handlers (P : Type 0) : Type 0 where
  pub basicqot : P → Manager → Enqueued
  pub orderbook : P → Manager → Enqueued
  pub ticker : P → Manager → Enqueued
  pub kl : P → Manager → Enqueued
  pub rt : P → Manager → Enqueued
  pub broker : P → Manager → Enqueued

-- `cbs` of `main`; `on_sub_reply` of the manager only logs.
unfoldable pub main_callbacks : {P : Type 0} → Handlers P → SessionCallbacks Manager P Enqueued
main_callbacks hs = record {
  on_connected = some (λ err self. on_connected (is_zero err) self);
  on_disconnected = none;
  on_sub_reply = some (λ rsp self. self);
  on_push_basicqot = some hs.basicqot;
  on_push_orderbook = some hs.orderbook;
  on_push_ticker = some hs.ticker;
  on_push_kl = some hs.kl;
  on_push_rt = some hs.rt;
  on_push_broker = some hs.broker;
}

-- `bind_session`, and the manager's public `force_resubscribe`.
unfoldable pub bind_session : Manager → Manager
bind_session self = record self { session = true }

unfoldable pub force_resubscribe : Manager → Manager
force_resubscribe self = record self { force_resubscribe = true }

-- Whether the link is up after the events, if it was `up` before.
abbrev pub link_up : {P : Type 0} → List (Event P) → Bool → Bool
link_up [] up = up
link_up (init_connect err ∷ es) up = link_up es (is_zero err)
link_up (dis_connect err ∷ es) up = link_up es false
link_up (reply_sub rsp ∷ es) up = link_up es up

-- The same, deaf to the loss of the link.
abbrev pub last_attempt : {P : Type 0} → List (Event P) → Bool → Bool
last_attempt [] up = up
last_attempt (init_connect err ∷ es) up = last_attempt es (is_zero err)
last_attempt (dis_connect err ∷ es) up = last_attempt es up
last_attempt (reply_sub rsp ∷ es) up = last_attempt es up

-- Whether one of the attempts succeeded.
abbrev pub ever_up : {P : Type 0} → List (Event P) → Bool
ever_up [] = false
ever_up (init_connect err ∷ es) = is_zero err || ever_up es
ever_up (dis_connect err ∷ es) = ever_up es
ever_up (reply_sub rsp ∷ es) = ever_up es

force_step : (b c f : Bool) → c || (if b then true else f) ≡ (b || c) || f
force_step true true f = refl
force_step true false f = refl
force_step false true f = refl
force_step false false f = refl

module _ {P : Type 0} (hs : Handlers P) where
  -- From a session with the callbacks of `main` and any manager, after any sequence of connection
  -- results, losses of the connection and replies: the session is connected if the link is up; the
  -- manager believes it is connected if the last attempt to connect succeeded, whatever was lost
  -- since; and a full resubscription is due if one was due or an attempt succeeded.
  pub connection_lem :
      (es : List (Event P)) (up : Bool) (self : Manager)
      → let after =
          handle_all es (record (make_session (main_callbacks hs)) { connected = up }) self in
        (after.0.connected ≡ link_up es up)
        × (after.1.connected ≡ last_attempt es self.connected)
        × (after.1.force_resubscribe ≡ ever_up es || self.force_resubscribe)
  unfolding handle_all handle make_session main_callbacks on_init_connect on_dis_connect
      on_reply_sub on_connected
  connection_lem [] up self = (refl, refl, refl)
  connection_lem (init_connect err ∷ es) up self =
      let self' = on_connected (is_zero err) self in
      let (a, b, c) = connection_lem es (is_zero err) self' in
      (a, b, c ∙ force_step (is_zero err) (ever_up es) self.force_resubscribe)
  connection_lem (dis_connect err ∷ es) up self = connection_lem es false self
  connection_lem (reply_sub rsp ∷ es) up self = connection_lem es up self
