-- ===== src/Manager.antt =====
-- momo_feed/{include,src}/futu_quote/SubscriptionManager: the control plane, which loads the
-- subscription file, and sends the requests that take the session from the current state to it.
-- Outside the repository, and so arguments here: the steady clock (`now`, in milliseconds), the
-- file's write time (`Stat`), the config loader's result (`Loaded`), and the serial number that
-- `FTAPI_Qot::Sub` returns, given what was sent before. Log lines are left out, but the two that
-- report a failed request, which are `errors`.
pub mod Requests
pub mod Refine
pub mod Load
pub mod Cycle
pub mod Settled
pub mod Converge
pub mod Push
pub mod Run
use momo_hdb.Base.{ℕ, ◌+◌, ◌-◌, ◌≡◌, Bool, true, false, not, ◌&&◌, ◌||◌, Option, none, some}
use momo_hdb.Base.{List, [], ◌∷◌, ◌++◌, Text, bytes, leb, ◌==◌, if◌then◌else◌}
use momo_hdb.Ring.{Ring}
use momo_hdb.Downstream.{Envelope}
use momo_hdb.Subscription.{
  SubType, SecurityId, SubMask, SubState, SubscribeConfig, DiffItem, SubscriptionTools,
}
use momo_hdb.Subscription.{mask_to_vec, diff_state, canonicalize, st_equal}

-- `std::expected<A, std::string>`
pub data Result {ℓ} (A : Type ℓ) : Type ℓ where
  ok : A → Result A
  err : Text → Result A

-- `Qot_Sub::Request`: one security, its subtypes, and the flags; an unset flag is `none`.
pub record Request : Type 0 where
  pub security : SecurityId
  pub subtypes : List SubType
  pub is_sub_or_un_sub : Bool
  pub is_reg_or_un_reg_push : Bool
  pub is_first_push : Option Bool

-- `queue::OverflowPolicy`
pub data OverflowPolicy : Type 0 where
  block drop_oldest : OverflowPolicy

pub record Options : Type 0 where
  pub refresh_interval : ℕ
  pub capacity : ℕ
  pub overflow : OverflowPolicy
  pub first_push : Bool

-- `session` says whether `session_` is bound, `has_loader` whether `cfgloader_` is set.
pub record Manager : Type 0 where
  pub opts : Options
  pub session : Bool
  pub has_loader : Bool
  pub inbox : Ring Envelope
  pub connected : Bool
  pub force_resubscribe : Bool
  pub last_check : Option ℕ
  pub last_mtime : ℕ
  pub current_state : SubState
  pub pending_state : SubState
  pub has_current : Bool
  pub has_pending : Bool

-- The requests sent so far and the failures logged so far.
pub record Sent : Type 0 where
  pub requests : List Request
  pub errors : List (Text × Text)

abbrev pub nothing_sent : Sent
nothing_sent = record { requests = []; errors = [] }

unfoldable pub on_connected : Bool → Manager → Manager
on_connected err_is_zero self = record self {
  connected = err_is_zero;
  force_resubscribe = if err_is_zero then true else self.force_resubscribe;
}

module _ (serial : List Request → Request → ℕ) where
  -- `session_->sub(pbSub)`
  unfoldable pub send : Request → Sent → ℕ × Sent
  send r w = (serial w.requests r, record w { requests = w.requests ++ (r ∷ []) })

  unfoldable pub subscribe_api : Bool → SecurityId → List SubType → Sent → ℕ × Sent
  subscribe_api first_push id subs w =
      send
        (record {
          security = id;
          subtypes = subs;
          is_sub_or_un_sub = true;
          is_reg_or_un_reg_push = true;
          is_first_push = some first_push;
        })
        w

  unfoldable pub unsubscribe_api : SecurityId → List SubType → Sent → ℕ × Sent
  unsubscribe_api id subs w =
      send
        (record {
          security = id;
          subtypes = subs;
          is_sub_or_un_sub = false;
          is_reg_or_un_reg_push = false;
          is_first_push = none;
        })
        w

  unfoldable pub call_subscribe : Manager → SecurityId → SubMask → Sent → Result (Unit {0}) × Sent
  call_subscribe self id mask w =
      if not self.session
      then (err (bytes "session not bound"), w)
      else (let (sn, w') = subscribe_api self.opts.first_push id (mask_to_vec mask) w in
          (if sn == 0 then err (bytes "subscribe failed for " ++ id.code) else ok tt, w'))

  unfoldable pub call_unsubscribe : Manager → SecurityId → SubMask → Sent → Result (Unit {0}) × Sent
  call_unsubscribe self id mask w =
      if not self.session
      then (err (bytes "session not bound"), w)
      else (let (sn, w') = unsubscribe_api id (mask_to_vec mask) w in
          (if sn == 0 then err (bytes "unsubscribe failed for " ++ id.code) else ok tt, w'))

  -- `if (!res) logger::error(...)`
  unfoldable pub report : SecurityId → Result (Unit {0}) × Sent → Sent
  report id (ok _, w) = w
  report id (err e, w) = record w { errors = w.errors ++ ((id.code, e) ∷ []) }

  -- The loops over states and over lists of differences.
  unfoldable pub subscribe_all : Manager → SubState → Sent → Sent
  subscribe_all self [] w = w
  subscribe_all self ((id, mask) ∷ st) w =
      subscribe_all self st (report id (call_subscribe self id mask w))

  unfoldable pub unsubscribe_all : Manager → SubState → Sent → Sent
  unsubscribe_all self [] w = w
  unsubscribe_all self ((id, mask) ∷ st) w =
      unsubscribe_all self st (report id (call_unsubscribe self id mask w))

  unfoldable pub subscribe_items : Manager → List DiffItem → Sent → Sent
  subscribe_items self [] w = w
  subscribe_items self (i ∷ is) w =
      subscribe_items self is (report i.id (call_subscribe self i.id i.mask w))

  unfoldable pub unsubscribe_items : Manager → List DiffItem → Sent → Sent
  unsubscribe_items self [] w = w
  unsubscribe_items self (i ∷ is) w =
      unsubscribe_items self is (report i.id (call_unsubscribe self i.id i.mask w))

  unfoldable pub do_full_resubscribe : Manager → SubState → Sent → Sent
  do_full_resubscribe self target w =
      subscribe_all self target
        (if self.has_current then unsubscribe_all self self.current_state w else w)

  unfoldable pub execute_diff : Manager → SubState → SubState → Sent → Sent
  execute_diff self current pending w =
      let d = diff_state current pending in
      subscribe_items self d.add_security (
        subscribe_items self d.add_subtypes
          (unsubscribe_items self d.del_subtypes (unsubscribe_items self d.remove_security w)))

  -- `force_resubscribe_.exchange(false)` reads and clears the flag.
  unfoldable pub send_pending : Manager → Sent → Sent
  send_pending self w =
      let cleared = record self { force_resubscribe = false } in
      if self.force_resubscribe
      then do_full_resubscribe cleared self.pending_state w
      else (if self.has_current
          then execute_diff cleared self.current_state self.pending_state w
          else do_full_resubscribe cleared self.pending_state w)

  unfoldable pub apply_pending : Manager → Sent → Manager × Sent
  apply_pending self w = if not self.has_pending then (self, w) else (
    record self {
      force_resubscribe = false;
      current_state = self.pending_state;
      has_current = true;
      has_pending = false;
    },
    send_pending self w,
  )

-- `std::filesystem::last_write_time`: a time, or the message of the error.
abbrev pub Stat : Type 0
Stat = Result ℕ

-- What `cfgloader_` returns for the file.
abbrev pub Loaded : Type 0
Loaded = Result SubscribeConfig

unfoldable pub should_check_file : ℕ → Manager → Bool × Manager
should_check_file now self =
    let due : Bool = elim (self.last_check) [
      | none ↦ true
      | some last ↦ leb self.opts.refresh_interval (now - last)
    ] in
    if due then (true, record self { last_check = some now }) else (false, self)

-- The part of `load_if_changed` behind a successful load.
unfoldable pub take_config : ℕ → SubscribeConfig → Manager → Result Bool × Manager
take_config mtime cfg self =
    let st = canonicalize cfg in
    if self.has_current && st_equal self.current_state st
    then (ok false, record self { last_mtime = mtime })
    else (ok true, record self { pending_state = st; has_pending = true; last_mtime = mtime })

unfoldable pub load_file : ℕ → Loaded → Manager → Result Bool × Manager
unfolding take_config
load_file mtime (err e) self = (err e, self)
load_file mtime (ok cfg) self = take_config mtime cfg self

unfoldable pub load_stat : Stat → Loaded → Manager → Result Bool × Manager
unfolding load_file
load_stat (err e) loaded self = (err (bytes "last_write_time failed: " ++ e), self)
load_stat (ok mtime) loaded self =
    if self.has_current && (mtime == self.last_mtime)
    then (ok false, self)
    else load_file mtime loaded self

unfoldable pub load_if_changed : Stat → Loaded → Manager → Result Bool × Manager
unfolding load_stat
load_if_changed stat loaded self =
    if not self.has_loader
    then (err (bytes "no config loader set"), self)
    else load_stat stat loaded self

-- `changed.value_or(false)`
unfoldable pub value_or_false : Result Bool → Bool
value_or_false (ok b) = b
value_or_false (err e) = false

-- A forced round with nothing new resubscribes to the current state.
unfoldable pub resume : Bool → Bool → Manager → Manager
resume changed want_force self =
    if not changed && (want_force && (self.has_current && not self.has_pending))
    then record self { pending_state = self.current_state; has_pending = true }
    else self

unfoldable pub clear_force : Bool → Manager → Manager
clear_force want_force self =
    if want_force && self.has_current then record self { force_resubscribe = false } else self

module _ (serial : List Request → Request → ℕ) where
  unfoldable pub apply_due : Manager → Sent → Manager × Sent
  apply_due self w = if self.has_pending then apply_pending serial self w else (self, w)

  -- The steps of a round of `run` between the test and the data plane.
  unfoldable pub attempt : Bool → Stat → Loaded → Manager → Sent → Manager × Sent
  attempt want_force stat loaded self w =
      let (changed, s1) = load_if_changed stat loaded self in
      let (s2, w') = apply_due (resume (value_or_false changed) want_force s1) w in
      (clear_force want_force s2, w')

  -- The control plane of one round of `run`.
  unfoldable pub control_cycle : ℕ → Stat → Loaded → Manager → Sent → Manager × Sent
  control_cycle now stat loaded self w =
      let (want_poll, s) = should_check_file now self in
      if (self.connected && self.session) && (self.force_resubscribe || want_poll)
      then attempt self.force_resubscribe stat loaded s w
      else (s, w)
