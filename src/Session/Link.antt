-- ===== src/Session/Link.antt =====
-- What the session of momo_feed/src/futu_quote/FutuQuoteSession.cpp asks of the Futu API: the
-- constructor, `start`, `stop`, `sub` and the destructor. The API is an interface over its state `A`,
-- in which it keeps the object that `qot_` points to; `has_qot` says that `qot_` is not null.
use momo_hdb.Base.{ℕ, Bool, true, false, ◌≡◌, refl, Option, none, some, Text, bytes, if◌then◌else◌}

pub record FutuApi (A Request : Type 0) : Type 0 where
  pub create : A → A
  pub register_qot_spi : A → A
  pub register_conn_spi : A → A
  pub init_connect : Text → ℕ → Bool → A → Bool × A
  pub sub : Request → A → ℕ × A
  pub close : A → A
  pub delete : A → A

-- `std::expected<void, std::string>`
pub data Expected : Type 0 where
  expected : Expected
  unexpected : Text → Expected

pub record Link (A : Type 0) : Type 0 where
  pub state : A
  pub has_qot : Bool

module _ {A Request : Type 0} (api : FutuApi A Request) where
  unfoldable pub open_link : A → Link A
  open_link a = record {
    state = api.register_conn_spi (api.register_qot_spi (api.create a));
    has_qot = true;
  }

  -- The result of `InitConnect` is thrown away.
  unfoldable pub start_link : Text → ℕ → Link A → Expected × Link A
  start_link ip port self =
      if self.has_qot
      then (expected, record self { state = (api.init_connect ip port false self.state).1 })
      else (unexpected (bytes "qot_ is null"), self)

  unfoldable pub stop_link : Link A → Link A
  stop_link self = if self.has_qot then record self { state = api.close self.state } else self

  -- `none` is a call on a null pointer.
  unfoldable pub sub_link : Request → Link A → Option (ℕ × Link A)
  sub_link req self =
      let (serial, a) = api.sub req self.state in
      if self.has_qot then some (serial, record self { state = a }) else none

  -- The destructor; `delete` of a null pointer does nothing.
  unfoldable pub close_link : Link A → Link A
  close_link self =
      let self' = stop_link self in
      if self'.has_qot then record { state = api.delete self'.state; has_qot = false } else self'

  -- Whatever the API answers to `InitConnect`, a session that was just made reports a start without
  -- error, and its end in `main`, a stop and then the destructor, closes the connection twice.
  link_lem :
      (ip : Text) (port : ℕ) (a : A)
      → let (started, self) = start_link ip port (open_link a) in
        (started ≡ expected)
        × ((close_link (stop_link self)).state ≡ api.delete (api.close (api.close self.state)))
  unfolding start_link open_link stop_link close_link
  link_lem ip port a = (refl, refl)
