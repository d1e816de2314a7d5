-- ===== src/Manager/Refine.antt =====
-- `apply_pending` takes the session from the current state to the pending one.
use momo_hdb.Base.{ℕ, ◌≡◌, refl, Bool, true, false, ◌&&◌, arith}
use momo_hdb.Base.{List, if◌then◌else◌}
use momo_hdb.Base.Maps.{IsMap}
use momo_hdb.Subscription.{SubType, SecurityId, SubState, security_eq, diff_state}
use momo_hdb.Subscription.Canon.{view}
use momo_hdb.Subscription.Diff.{IsWide, any_at-view, diff_state_lem}
use momo_hdb.Manager.{
  Manager, Request, Sent, nothing_sent, do_full_resubscribe, execute_diff, send_pending,
  apply_pending, subscribe_items, unsubscribe_items, unsubscribe_all,
}
use momo_hdb.Manager.Requests.{
  Subscribed, obey_all, outcome, outcome-subscribe_all, outcome-unsubscribe_all,
  outcome-subscribe_items, outcome-unsubscribe_items,
}

-- One entry for each security, and masks of 64 bits.
pub record IsProper (st : SubState) : Type 0 where
  pub one_each : IsMap st
  pub wide : IsWide st

module _ (serial : List Request → Request → ℕ) (self : Manager) (bound : self.session ≡ true) where
  -- Where the session has no subscription but those of the current state, the full way leads to
  -- exactly the target.
  full_outcome :
      (target : SubState) (w : Sent) (v : Subscribed) (id : SecurityId) (t : SubType)
      → IsMap self.current_state
      → IsMap target
      → (outcome serial self bound w v id t ≡ true
          → self.has_current && view self.current_state id t ≡ true)
      → outcome serial self bound (do_full_resubscribe serial self target w) v id t
        ≡ view target id t
  unfolding do_full_resubscribe
  full_outcome target w v id t mc mt within = ground (
    arith,
    outcome-subscribe_all serial self bound target
        (if self.has_current then unsubscribe_all serial self self.current_state w else w) v id t,
    outcome-unsubscribe_all serial self bound self.current_state w v id t,
    any_at-view target id t mt,
    any_at-view self.current_state id t mc,
  )

  -- Where the session has exactly the current state, the difference leads to exactly the pending one.
  diff_outcome :
      (current pending : SubState) (w : Sent) (v : Subscribed) (id : SecurityId) (t : SubType)
      → IsProper current
      → IsProper pending
      → outcome serial self bound w v id t ≡ view current id t
      → outcome serial self bound (execute_diff serial self current pending w) v id t
        ≡ view pending id t
  unfolding execute_diff
  diff_outcome current pending w v id t pc pp exact =
      let d = diff_state current pending in
      let w1 = unsubscribe_items serial self d.remove_security w in
      let w2 = unsubscribe_items serial self d.del_subtypes w1 in
      let w3 = subscribe_items serial self d.add_subtypes w2 in
      ground (
        arith,
        outcome-unsubscribe_items serial self bound d.remove_security w v id t,
        outcome-unsubscribe_items serial self bound d.del_subtypes w1 v id t,
        outcome-subscribe_items serial self bound d.add_subtypes w2 v id t,
        outcome-subscribe_items serial self bound d.add_security w3 v id t,
        diff_state_lem current pending id t pc.one_each pp.one_each pc.wide pp.wide,
      )

-- What the manager may rely on of the session's subscriptions `v`: it has none but those of the current
-- state, and has all of these unless a full resubscription is due.
pub record Tracks (self : Manager) (v : Subscribed) : Type 0 where
  pub within :
      (id : SecurityId) (t : SubType)
      → v id t ≡ true
      → self.has_current && view self.current_state id t ≡ true
  pub exact :
      self.force_resubscribe ≡ false
      → self.has_current ≡ true
      → (id : SecurityId) (t : SubType) → v id t ≡ view self.current_state id t
  pub current_proper : IsProper self.current_state

full_or_diff :
    (forced had : Bool) {full diff : Sent} (P : Sent → Type 0)
    → P full
    → (forced ≡ false → had ≡ true → P diff)
    → P (if forced then full else (if had then diff else full))
full_or_diff true had P pf pd = pf
full_or_diff false true P pf pd = pd refl refl
full_or_diff false false P pf pd = pf

send_pending_outcome :
    (serial : List Request → Request → ℕ) (self : Manager) (v : Subscribed) (id : SecurityId)
    (t : SubType)
    → self.session ≡ true
    → IsProper self.pending_state
    → Tracks self v
    → obey_all (send_pending serial self nothing_sent).requests v id t
      ≡ view self.pending_state id t
unfolding send_pending outcome obey_all
send_pending_outcome serial self v id t bound proper tracks =
    let cleared = record self { force_resubscribe = false } in
    let full =
      full_outcome serial cleared bound self.pending_state nothing_sent v id t
        tracks.current_proper.one_each proper.one_each (tracks.within id t) in
    let diff = λ (e : v id t ≡ view self.current_state id t).
      diff_outcome serial cleared bound self.current_state self.pending_state nothing_sent v id t
        tracks.current_proper proper e in
    full_or_diff self.force_resubscribe self.has_current
      (λ w. obey_all w.requests v id t ≡ view self.pending_state id t) full
      (λ calm had. diff (tracks.exact calm had id t))

-- With a session bound, a proper pending state, and a manager that tracks the session, a session
-- that obeys what `apply_pending` sends ends up with exactly the subscriptions of the pending
-- state, whether the manager goes by difference or resubscribes in full; the pending state is then
-- the current one, and the pending and the force flag are clear.
pub apply_pending_lem :
    (serial : List Request → Request → ℕ) (self : Manager) (v : Subscribed)
    → self.session ≡ true
    → self.has_pending ≡ true
    → IsProper self.pending_state
    → Tracks self v
    → let (self', w) = apply_pending serial self nothing_sent in
      ((id : SecurityId) (t : SubType) → obey_all w.requests v id t ≡ view self.pending_state id t)
      × (self'.current_state ≡ self.pending_state)
      × (self'.has_current ≡ true)
      × (self'.has_pending ≡ false)
      × (self'.force_resubscribe ≡ false)
unfolding apply_pending
apply_pending_lem serial self v bound due proper tracks =
    let done = λ (id : SecurityId) (t : SubType).
      send_pending_outcome serial self v id t bound proper tracks in
    simp due (done, refl, refl, refl, refl)
