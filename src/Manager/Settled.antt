-- ===== src/Manager/Settled.antt =====
-- What the control plane of SubscriptionManager.cpp keeps between rounds, and what loading and applying
-- a state do to it.
use momo_hdb.Base.{ℕ, ◌≡◌, refl, sym, ap, subst, ◌∙◌, Bool, true, false, not, ◌&&◌, ◌⊎◌, arith}
use momo_hdb.Base.{List, if◌then◌else◌}
use momo_hdb.Subscription.{SubType, SecurityId, SubState}
use momo_hdb.Subscription.Canon.{view}
use momo_hdb.Manager.{
  Manager, Request, Sent, nothing_sent, resume, clear_force, apply_due, apply_pending,
}
use momo_hdb.Manager.Requests.{Subscribed, obey_all}
use momo_hdb.Manager.Refine.{IsProper, Tracks, apply_pending_lem}

-- Between rounds: the beliefs of `Tracks`, and no pending state left over.
pub record IsSettled (self : Manager) (v : Subscribed) : Type 0 where
  pub tracks : Tracks self v
  pub idle : self.has_pending ≡ false

-- A manager that differs in none of what `Tracks` reads.
pub Tracks-same :
    {a b : Manager} {v : Subscribed}
    → b.current_state ≡ a.current_state
    → b.has_current ≡ a.has_current
    → b.force_resubscribe ≡ a.force_resubscribe
    → Tracks a v
    → Tracks b v
Tracks-same {a} {b} {v} c h f t = record {
  within = λ id u e. rw (c, h) (t.within id u e);
  exact =
      λ calm had id u. t.exact (sym f ∙ calm) (sym h ∙ had) id u ∙ ap (λ st. view st id u) (sym c);
  current_proper = subst IsProper (sym c) t.current_proper;
}

-- Clearing a flag that is clear changes nothing.
clear_clear : (want : Bool) (s : Manager) → s.force_resubscribe ≡ false → clear_force want s ≡ s
unfolding clear_force
clear_clear want s calm = by_test (want && s.has_current)
  where
    by_test : (b : Bool) → (if b then record s { force_resubscribe = false } else s) ≡ s
    by_test true = λ i. record s { force_resubscribe = sym calm i }
    by_test false = refl

clear_off : (want : Bool) (s : Manager) → want && s.has_current ≡ false → clear_force want s ≡ s
unfolding clear_force
clear_off want s off = ap (λ b. if b then record s { force_resubscribe = false } else s) off

module _ (serial : List Request → Request → ℕ) where
  apply_due_on :
      (self : Manager)
      → self.has_pending ≡ true
      → apply_due serial self nothing_sent ≡ apply_pending serial self nothing_sent
  unfolding apply_due
  apply_due_on self due =
      ap (λ b. if b then apply_pending serial self nothing_sent else (self, nothing_sent)) due

  pub apply_due_off :
      (self : Manager)
      → self.has_pending ≡ false
      → apply_due serial self nothing_sent ≡ (self, nothing_sent)
  unfolding apply_due
  apply_due_off self idle =
      ap (λ b. if b then apply_pending serial self nothing_sent else (self, nothing_sent)) idle

  -- What a round has reached when it had a pending state.
  pub record Reached (target : SubState) (v : Subscribed) (p : Manager × Sent) : Type 0 where
    pub settled : IsSettled p.0 (obey_all p.1.requests v)
    pub served : (id : SecurityId) (t : SubType) → obey_all p.1.requests v id t ≡ view target id t
    pub current : p.0.current_state ≡ target
    pub had : p.0.has_current ≡ true

  apply_pending-Reached :
      (self : Manager) (v : Subscribed)
      → self.session ≡ true
      → self.has_pending ≡ true
      → IsProper self.pending_state
      → Tracks self v
      → Reached self.pending_state v (apply_pending serial self nothing_sent)
        × ((apply_pending serial self nothing_sent).0.force_resubscribe ≡ false)
  apply_pending-Reached self v bound due proper tracks =
      let (served, cur, had, idle, calm) =
        apply_pending_lem serial self v bound due proper tracks in
      (
        record {
          settled = record {
            tracks = record {
              within = λ id t e. rw (had, cur) (sym (served id t) ∙ e);
              exact = λ c h id t. served id t ∙ ap (λ st. view st id t) (sym cur);
              current_proper = subst IsProper (sym cur) proper;
            };
            idle = idle;
          };
          served = served;
          current = cur;
          had = had;
        },
        calm,
      )

  -- After a pending state was applied, clearing the flag once more changes nothing.
  pub settled_after :
      (self : Manager) (v : Subscribed) (want : Bool)
      → self.session ≡ true
      → self.has_pending ≡ true
      → IsProper self.pending_state
      → Tracks self v
      → let (s, w) = apply_due serial self nothing_sent in
        Reached self.pending_state v (clear_force want s, w)
  settled_after self v want bound due proper tracks =
      let (reached, calm) = apply_pending-Reached self v bound due proper tracks in
      subst (λ p. Reached self.pending_state v (clear_force want p.0, p.1))
        (sym (apply_due_on self due))
        (subst (λ s. Reached self.pending_state v (s, (apply_pending serial self nothing_sent).1))
          (sym (clear_clear want (apply_pending serial self nothing_sent).0 calm)) reached)

  -- With nothing pending, no flag is cleared that is still needed.
  pub IsSettled-idle :
      (self : Manager) (v : Subscribed) (want : Bool)
      → self.has_pending ≡ false
      → want && self.has_current ≡ false
      → Tracks self v
      → let (s, w) = apply_due serial self nothing_sent in
        IsSettled (clear_force want s) (obey_all w.requests v)
  unfolding obey_all
  IsSettled-idle self v want idle off tracks =
      subst (λ p. IsSettled (clear_force want p.0) (obey_all p.1.requests v))
        (sym (apply_due_off self idle))
        (subst (λ s. IsSettled s v) (sym (clear_off want self off))
          (record { tracks = tracks; idle = idle }))

abbrev pub again : Manager → Manager
again self = record self { pending_state = self.current_state; has_pending = true }

pub resume_off :
    (changed want : Bool) (self : Manager)
    → (changed ≡ true) ⊎ (want && self.has_current ≡ false)
    → resume changed want self ≡ self
unfolding resume
resume_off changed want self h =
    ap (λ b. if b then again self else self)
      (off changed want self.has_current (not self.has_pending) h)
  where
    off : (c w h n : Bool) → (c ≡ true) ⊎ (w && h ≡ false) → not c && (w && (h && n)) ≡ false
    off c w h n p = ground arith

pub resume_on :
    (changed want : Bool) (self : Manager)
    → changed ≡ false
    → want && self.has_current ≡ true
    → self.has_pending ≡ false
    → resume changed want self ≡ again self
unfolding resume
resume_on changed want self c h idle =
    ap (λ b. if b then again self else self)
      (on changed want self.has_current self.has_pending c h idle)
  where
    on :
        (c w h n : Bool)
        → c ≡ false
        → w && h ≡ true
        → n ≡ false
        → not c && (w && (h && not n)) ≡ true
    on c w h n p q r = ground arith
