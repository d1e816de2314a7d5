-- ===== src/Session.antt =====
-- momo_feed/{include,src}/futu_quote/FutuQuoteSession: the session, which keeps whether it is connected
-- and passes the calls of the Futu API on to the callbacks it was given. `C` is what `ctx` points to,
-- `P` what the API passes, `R` the state that a push leaves (`idle` where it leaves `C` alone). What
-- the session asks of the API (connect, close, subscribe) is in Session.Link.
pub mod Wiring
pub mod Link
use momo_hdb.Base.{Bool, false, Option, none, some, List, [], ◌∷◌, ◌==◌}
use momo_hdb.Base.Int.{ℤ, pos, negsuc}

-- A callback that is null is `none`.
pub record SessionCallbacks (C P R : Type 0) : Type 0 where
  pub on_connected : Option (ℤ → C → C)
  pub on_disconnected : Option (ℤ → C → C)
  pub on_sub_reply : Option (P → C → C)
  pub on_push_basicqot : Option (P → C → R)
  pub on_push_orderbook : Option (P → C → R)
  pub on_push_ticker : Option (P → C → R)
  pub on_push_kl : Option (P → C → R)
  pub on_push_rt : Option (P → C → R)
  pub on_push_broker : Option (P → C → R)

pub record Session (C P R : Type 0) : Type 0 where
  pub cbs : SessionCallbacks C P R
  pub connected : Bool

abbrev pub is_zero : ℤ → Bool
is_zero (pos n) = n == 0
is_zero (negsuc n) = false

-- What the API calls on its own thread.
pub data Event (P : Type 0) : Type 0 where
  init_connect : ℤ → Event P
  dis_connect : ℤ → Event P
  reply_sub : P → Event P

-- `if (cbs_.f) cbs_.f(cbs_.ctx, x)`
abbrev pub call_if : {A C : Type 0} → Option (A → C → C) → A → C → C
call_if none x c = c
call_if (some f) x c = f x c

abbrev pub push_if : {C P R : Type 0} → (C → R) → Option (P → C → R) → P → C → R
push_if idle none x c = idle c
push_if idle (some f) x c = f x c

module _ {C P R : Type 0} where
  unfoldable pub make_session : SessionCallbacks C P R → Session C P R
  make_session cbs = record { cbs = cbs; connected = false }

  unfoldable pub on_init_connect : ℤ → Session C P R → C → Session C P R × C
  on_init_connect err self c =
      (record self { connected = is_zero err }, call_if self.cbs.on_connected err c)

  unfoldable pub on_dis_connect : ℤ → Session C P R → C → Session C P R × C
  on_dis_connect err self c =
      (record self { connected = false }, call_if self.cbs.on_disconnected err c)

  unfoldable pub on_reply_sub : P → Session C P R → C → Session C P R × C
  on_reply_sub rsp self c = (self, call_if self.cbs.on_sub_reply rsp c)

  unfoldable pub on_push_update_basic_qot : (C → R) → P → Session C P R → C → R
  on_push_update_basic_qot idle rsp self c = push_if idle self.cbs.on_push_basicqot rsp c

  unfoldable pub on_push_update_order_book : (C → R) → P → Session C P R → C → R
  on_push_update_order_book idle rsp self c = push_if idle self.cbs.on_push_orderbook rsp c

  unfoldable pub on_push_update_ticker : (C → R) → P → Session C P R → C → R
  on_push_update_ticker idle rsp self c = push_if idle self.cbs.on_push_ticker rsp c

  unfoldable pub on_push_update_kl : (C → R) → P → Session C P R → C → R
  on_push_update_kl idle rsp self c = push_if idle self.cbs.on_push_kl rsp c

  unfoldable pub on_push_update_rt : (C → R) → P → Session C P R → C → R
  on_push_update_rt idle rsp self c = push_if idle self.cbs.on_push_rt rsp c

  unfoldable pub on_push_update_broker : (C → R) → P → Session C P R → C → R
  on_push_update_broker idle rsp self c = push_if idle self.cbs.on_push_broker rsp c

  unfoldable pub handle : Event P → Session C P R → C → Session C P R × C
  handle (init_connect err) self c = on_init_connect err self c
  handle (dis_connect err) self c = on_dis_connect err self c
  handle (reply_sub rsp) self c = on_reply_sub rsp self c

  unfoldable pub handle_all : List (Event P) → Session C P R → C → Session C P R × C
  handle_all [] self c = (self, c)
  handle_all (e ∷ es) self c = let (self', c') = handle e self c in handle_all es self' c'
