-- ===== src/Manager/Converge.antt =====
-- One round of the control plane over a readable file brings the session to what the file lists.
use momo_hdb.Base.{
  ℕ, ◌≡◌, sym, ap, subst, ◌∙◌, Bool, true, false, not, ◌&&◌, ◌||◌, ◌⊎◌, inl, inr, arith,
}
use momo_hdb.Base.{List, bytes, ◌==◌, if◌then◌else◌, Bool-cases}
use momo_hdb.Subscription.{SubType, SecurityId, SubscribeConfig, canonicalize, st_equal, mask_at}
use momo_hdb.Subscription.Canon.{view, listed, view-canonicalize}
use momo_hdb.Subscription.Mask.{is_named}
use momo_hdb.Subscription.Same.{st_equal_iff}
use momo_hdb.Manager.{
  Manager, Request, nothing_sent, ok, err, load_if_changed, load_stat, load_file, take_config,
  should_check_file, value_or_false, attempt, control_cycle,
}
use momo_hdb.Manager.Requests.{Subscribed, obey_all}
use momo_hdb.Manager.Load.{load_if_changed-LoadFacts, canonicalize-IsProper}
use momo_hdb.Manager.Settled.{IsSettled}
use momo_hdb.Manager.Cycle.{attempt-Finished, polled, goal}

-- What a readable file that is new to the manager makes of it.
loads :
    (m : ℕ) (cfg : SubscribeConfig) (self : Manager)
    → self.has_loader ≡ true
    → self.has_current && (m == self.last_mtime) ≡ false
    → load_if_changed (ok m) (ok cfg) self ≡ take_config m cfg self
unfolding load_if_changed load_stat load_file
loads m cfg self ready new =
    ap
      (λ b.
        if not b
        then (err (bytes "no config loader set"), self)
        else load_stat (ok m) (ok cfg) self)
      ready
    ∙ ap (λ b. if b then (ok false, self) else load_file m (ok cfg) self) new

view_of_same :
    (self : Manager) (v : Subscribed) (cfg : SubscribeConfig) (id : SecurityId) (t : SubType)
    → IsSettled self v
    → st_equal self.current_state (canonicalize cfg) ≡ true
    → view self.current_state id t ≡ view (canonicalize cfg) id t
unfolding view mask_at
view_of_same self v cfg id t st e =
    let same =
      (st_equal_iff self.current_state (canonicalize cfg) st.tracks.current_proper.one_each
          (canonicalize-IsProper cfg).one_each).0
        e id in
    ground (arith, same)

-- Either the file brings a new state, or the current one is what it lists.
goal_of_file :
    (m : ℕ) (self : Manager) (v : Subscribed) (cfg : SubscribeConfig) (id : SecurityId)
    (t : SubType)
    → IsSettled self v
    → let (r, s) = take_config m cfg self in
      ((value_or_false r ≡ true) ⊎ (s.has_current ≡ true))
      × (view (goal (value_or_false r) s) id t ≡ view (canonicalize cfg) id t)
unfolding take_config value_or_false
goal_of_file m self v cfg id t st =
    elim (Bool-cases (self.has_current && st_equal self.current_state (canonicalize cfg))) [
      | inl same ↦ ground (arith, view_of_same self v cfg id t st (ground arith))
      | inr new ↦ ground arith
    ]

pub poll_keeps :
    (now : ℕ) (self : Manager)
    → ((should_check_file now self).1.has_loader ≡ self.has_loader)
      × ((should_check_file now self).1.has_current ≡ self.has_current)
      × ((should_check_file now self).1.last_mtime ≡ self.last_mtime)
      × ((should_check_file now self).1.force_resubscribe ≡ self.force_resubscribe)
unfolding should_check_file
poll_keeps now self = ground arith

-- From a settled manager, a round that is connected with a bound session, has a loader, and is
-- forced or due to look at the file, which loads and is newer than what the manager has read, or
-- its first: a session that obeys the requests of the round is then subscribed to exactly those of
-- the six named subtypes that the file lists.
pub control_cycle_converges :
    (serial : List Request → Request → ℕ) (now m : ℕ) (cfg : SubscribeConfig) (self : Manager)
    (v : Subscribed)
    → IsSettled self v
    → self.connected && self.session ≡ true
    → self.has_loader ≡ true
    → self.force_resubscribe || (should_check_file now self).0 ≡ true
    → self.has_current && (m == self.last_mtime) ≡ false
    → (id : SecurityId) (t : SubType)
    → obey_all (control_cycle serial now (ok m) (ok cfg) self nothing_sent).1.requests v id t
      ≡ is_named t && listed cfg.securities id t
unfolding control_cycle attempt
control_cycle_converges serial now m cfg self v st up ready due new id t =
    let s = (should_check_file now self).1 in
    let (st', bound) = polled now self v st in
    let (loader, had, seen, force) = poll_keeps now self in
    let load = loads m cfg s (loader ∙ ready) (rw (had, seen) new) in
    let f = load_if_changed-LoadFacts (ok m) (ok cfg) s in
    let finished =
      attempt-Finished serial self.force_resubscribe (ok m) (ok cfg) s v (bound ∙ ground arith)
        st' in
    let (known, reach) =
      subst
        (λ p.
          ((value_or_false p.0 ≡ true) ⊎ (p.1.has_current ≡ true))
          × (view (goal (value_or_false p.0) p.1) id t ≡ view (canonicalize cfg) id t))
        (sym load) (goal_of_file m s v cfg id t st') in
    ap
      (λ b.
        obey_all
          (if b
            then attempt serial self.force_resubscribe (ok m) (ok cfg) s nothing_sent
            else (s, nothing_sent)).1.requests
          v id t)
      (both up due)
    ∙ finished.1 (sym (f.forced ∙ force)) known id t
    ∙ reach
    ∙ view-canonicalize cfg id t
  where
    both : {a b : Bool} → a ≡ true → b ≡ true → a && b ≡ true
    both p q = ground arith
