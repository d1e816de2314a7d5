-- ===== src/Manager/Cycle.antt =====
-- The control plane of `run`, round by round: what the session is subscribed to stays what the manager
-- believes, through reloads, failures and reconnects.
use momo_hdb.Base.{
  ℕ, ◌≡◌, refl, sym, ap, subst, ◌∙◌, Bool, true, false, ◌&&◌, ◌||◌, ◌⊎◌, inl, inr, arith,
}
use momo_hdb.Base.{List, if◌then◌else◌, Bool-cases, some}
use momo_hdb.Subscription.{SubType, SecurityId, SubState}
use momo_hdb.Subscription.Canon.{view}
use momo_hdb.Manager.{
  Manager, Request, Sent, nothing_sent, Result, Stat, Loaded, load_if_changed, should_check_file,
  value_or_false, resume, clear_force, apply_due, attempt, control_cycle, on_connected,
}
use momo_hdb.Manager.Requests.{Subscribed, obey_all}
use momo_hdb.Manager.Refine.{IsProper, Tracks}
use momo_hdb.Manager.Load.{LoadFacts, load_if_changed-LoadFacts, canonicalize-IsProper}
use momo_hdb.Manager.Settled.{
  IsSettled, Tracks-same, apply_due_off, settled_after, IsSettled-idle, again, resume_off,
  resume_on,
}

-- The state that a round with these facts brings the session to.
abbrev pub goal : Bool → Manager → SubState
goal changed self = if changed then self.pending_state else self.current_state

module _ (serial : List Request → Request → ℕ) where
  abbrev pub finish : Bool → Manager → Manager × Sent
  finish want self = let (s, w) = apply_due serial self nothing_sent in (clear_force want s, w)

  -- What a round that ends from `m` has to show of it.
  abbrev pub Finished : Bool → Bool → Manager → Subscribed → Manager → Type 0
  Finished changed want self v m =
      let (s, w) = finish want m in
      IsSettled s (obey_all w.requests v)
      × (want ≡ self.force_resubscribe
          → (changed ≡ true) ⊎ (self.has_current ≡ true)
          → (id : SecurityId) (t : SubType)
          → obey_all w.requests v id t ≡ view (goal changed self) id t)

  unsent :
      (self : Manager) (v : Subscribed) (id : SecurityId) (t : SubType)
      → self.has_pending ≡ false
      → obey_all (apply_due serial self nothing_sent).1.requests v id t ≡ v id t
  unfolding obey_all
  unsent self v id t idle = ap (λ p. obey_all p.1.requests v id t) (apply_due_off serial self idle)

  -- What a round does with the state that the load left.
  resumed :
      (changed want : Bool) (self : Manager) (v : Subscribed)
      → self.session ≡ true
      → ((changed ≡ true) × (self.has_pending ≡ true) × IsProper self.pending_state)
        ⊎ ((changed ≡ false) × (self.has_pending ≡ false))
      → Tracks self v
      → Finished changed want self v (resume changed want self)
  resumed changed want self v bound (inl (c, due, proper)) tracks =
      let reached = settled_after serial self v want bound due proper tracks in
      subst (Finished changed want self v) (sym (resume_off changed want self (inl c))) (
        reached.settled,
        λ same known id t. reached.served id t ∙ ap (λ b. view (goal b self) id t) (sym c),
      )
  resumed changed want self v bound (inr (c, idle)) tracks =
      elim (Bool-cases (want && self.has_current)) [
        | inl on ↦
            let reached =
              settled_after serial (again self) v want bound refl tracks.current_proper
                (Tracks-same refl refl refl tracks) in
            subst (Finished changed want self v) (sym (resume_on changed want self c on idle)) (
              reached.settled,
              λ same known id t. reached.served id t ∙ ap (λ b. view (goal b self) id t) (sym c),
            )
        | inr off ↦
            subst (Finished changed want self v) (sym (resume_off changed want self (inr off))) (
              IsSettled-idle serial self v want idle off tracks,
              λ same known id t.
                  let had : self.has_current ≡ true = ground arith in
                  unsent self v id t idle
                  ∙ tracks.exact (ground arith) had id t
                  ∙ ap (λ b. view (goal b self) id t) (sym c),
            )
      ]

  Tracks-load :
      {self : Manager} {v : Subscribed} {res : Result Bool × Manager}
      → LoadFacts self res
      → Tracks self v
      → Tracks res.1 v
  Tracks-load f t = Tracks-same f.current f.had f.forced t

  -- The facts that a load leaves for the rest of the round.
  load_outcome :
      {self : Manager} {res : Result Bool × Manager}
      → LoadFacts self res
      → self.has_pending ≡ false
      → ((value_or_false res.0 ≡ true) × (res.1.has_pending ≡ true) × IsProper res.1.pending_state)
        ⊎ ((value_or_false res.0 ≡ false) × (res.1.has_pending ≡ false))
  load_outcome f idle = elim (f.outcome) [
    | inl (c, due, cfg, eq) ↦ inl (c, due, subst IsProper (sym eq) (canonicalize-IsProper cfg))
    | inr (c, same, eq) ↦ inr (c, same ∙ idle)
  ]

  pub attempt-Finished :
      (want : Bool) (stat : Stat) (loaded : Loaded) (self : Manager) (v : Subscribed)
      → self.session ≡ true
      → IsSettled self v
      → let (changed, s) = load_if_changed stat loaded self in
        Finished (value_or_false changed) want s v (resume (value_or_false changed) want s)
  attempt-Finished want stat loaded self v bound st =
      let f = load_if_changed-LoadFacts stat loaded self in
      resumed (value_or_false (load_if_changed stat loaded self).0) want
        (load_if_changed stat loaded self).1 v (f.session ∙ bound) (load_outcome f st.idle)
        (Tracks-load f st.tracks)

-- `should_check_file` touches nothing but the time of the last check.
pub polled :
    (now : ℕ) (self : Manager) (v : Subscribed)
    → IsSettled self v
    → IsSettled (should_check_file now self).1 v
      × ((should_check_file now self).1.session ≡ self.session)
unfolding should_check_file
polled now self v st = by_test _
  where
    by_test :
        (due : Bool)
        → let s =
            if◌then◌else◌ {A = Bool × Manager} due
              (true, record self { last_check = some now })
              (false, self) in
          IsSettled s.1 v × (s.1.session ≡ self.session)
    by_test true = (record { tracks = Tracks-same refl refl refl st.tracks; idle = st.idle }, refl)
    by_test false = (st, refl)

-- A round of the control plane keeps a settled manager settled, whatever the clock, the file and
-- the loader do: what it believes of the session's subscriptions stays true of a session that
-- obeys the requests, and no pending state is left over.
pub control_cycle-IsSettled :
    (serial : List Request → Request → ℕ) (now : ℕ) (stat : Stat) (loaded : Loaded) (self : Manager)
    (v : Subscribed)
    → IsSettled self v
    → let (s, w) = control_cycle serial now stat loaded self nothing_sent in
      IsSettled s (obey_all w.requests v)
unfolding control_cycle attempt obey_all
control_cycle-IsSettled serial now stat loaded self v st =
    by_test
      ((self.connected && self.session)
        && (self.force_resubscribe || (should_check_file now self).0))
      (λ on. ground arith)
  where
    by_test :
        (t : Bool)
        → (t ≡ true → self.session ≡ true)
        → let (s, w) =
            if t
            then attempt serial self.force_resubscribe stat loaded
                (should_check_file now self).1
                nothing_sent
            else ((should_check_file now self).1, nothing_sent) in
          IsSettled s (obey_all w.requests v)
    by_test true bound =
        let (st', same) = polled now self v st in
        (attempt-Finished serial self.force_resubscribe stat loaded (should_check_file now self).1 v
          (same ∙ bound refl) st').0
    by_test false bound = (polled now self v st).0

-- A reconnect, after which the session has no subscriptions, keeps the manager settled: the flag that
-- it sets makes the next round resubscribe in full.
pub on_connected-IsSettled :
    (self : Manager) (v : Subscribed)
    → IsSettled self v
    → IsSettled (on_connected true self) (λ id t. false)
unfolding on_connected
on_connected-IsSettled self v st = record {
  tracks = record {
    within = λ id t e. cc;
    exact = λ calm. cc;
    current_proper = st.tracks.current_proper;
  };
  idle = st.idle;
}
