-- ===== src/Manager/Run/Race.antt =====
-- A new connection while a round of `run` is under way, before its store to `force_resubscribe_`.
use momo_hdb.Base.{ℕ, ◌≡◌, refl, sym, ◌∙◌, Bool, true, false, List, arith}
use momo_hdb.Subscription.{SubType, SecurityId}
use momo_hdb.Subscription.Canon.{view}
use momo_hdb.Manager.{
  Manager, Request, Sent, Stat, Loaded, nothing_sent, load_if_changed, value_or_false, resume,
  clear_force, apply_due, attempt, on_connected,
}
use momo_hdb.Manager.Settled.{IsSettled}

-- The round, with what other threads do to the manager: `early` between the load of the file and the
-- requests, `late` between the requests and the store.
unfoldable pub racing_attempt :
    (List Request → Request → ℕ)
    → (Manager → Manager)
    → (Manager → Manager)
    → Bool
    → Stat
    → Loaded
    → Manager
    → Sent
    → Manager × Sent
racing_attempt serial early late want_force stat loaded self w =
    let (changed, s1) = load_if_changed stat loaded self in
    let (s2, w') = apply_due serial (resume (value_or_false changed) want_force (early s1)) w in
    (clear_force want_force (late s2), w')

-- With nothing in between it is the round.
racing_attempt-attempt :
    (serial : List Request → Request → ℕ) (want : Bool) (stat : Stat) (loaded : Loaded)
    (self : Manager) (w : Sent)
    → racing_attempt serial (λ s. s) (λ s. s) want stat loaded self w
      ≡ attempt serial want stat loaded self w
unfolding racing_attempt attempt
racing_attempt-attempt serial want stat loaded self w = refl

cleared :
    (s : Manager)
    → (clear_force true (on_connected true s)).has_current ≡ true
    → (clear_force true (on_connected true s)).force_resubscribe ≡ false
unfolding clear_force on_connected
cleared s had = ground arith

-- In a forced round that leaves the manager with a current state, a connection that is made after the
-- round's requests and before its store loses its resubscription, whatever other threads did earlier
-- in the round: the flag that the connection set is cleared. The new session has no subscriptions, the
-- manager believes that it has those of the current state, and so, if that state has any, the manager
-- is not settled. (A connection before the requests is not meant: these then go to it.)
pub lost_reconnect :
    (serial : List Request → Request → ℕ) (stat : Stat) (loaded : Loaded) (self : Manager)
    (early : Manager → Manager) (id : SecurityId) (t : SubType)
    → let s =
        (racing_attempt serial early (on_connected true) true stat loaded self nothing_sent).0 in
      s.has_current ≡ true
      → view s.current_state id t ≡ true
      → (s.force_resubscribe ≡ false) × (¬ IsSettled s (λ id t. false))
unfolding racing_attempt
lost_reconnect serial stat loaded self early id t had some_sub =
    let (changed, s1) = load_if_changed stat loaded self in
    let s2 = (apply_due serial (resume (value_or_false changed) true (early s1)) nothing_sent).0 in
    let calm = cleared s2 had in
    (calm, λ st. cc (sym some_sub ∙ sym (st.tracks.exact calm had id t)))
