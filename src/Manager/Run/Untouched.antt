-- ===== src/Manager/Run/Untouched.antt =====
-- What the two planes of `run` leave to each other.
use momo_hdb.Base.{ℕ, ◌≡◌, refl, ◌∙◌, Bool, true, false, ◌&&◌, ◌||◌, List, arith, if◌then◌else◌}
use momo_hdb.Ring.{Ring}
use momo_hdb.Downstream.{Envelope}
use momo_hdb.Manager.{
  Manager, Request, Sent, Stat, Loaded, nothing_sent, on_connected, control_cycle, attempt,
  load_if_changed, load_stat, load_file, take_config, resume, clear_force, apply_due, apply_pending,
  should_check_file, value_or_false,
}
use momo_hdb.Manager.Settled.{IsSettled, Tracks-same}
use momo_hdb.Manager.Cycle.{on_connected-IsSettled}
use momo_hdb.Manager.Requests.{Subscribed}
use momo_hdb.Manager.Run

-- What no part of the control plane touches.
pub record SameFeed (a b : Manager) : Type 0 where
  pub inbox : b.inbox ≡ a.inbox
  pub opts : b.opts ≡ a.opts

load_same :
    (stat : Stat) (loaded : Loaded) (self : Manager)
    → SameFeed self (load_if_changed stat loaded self).1
unfolding load_if_changed load_stat load_file take_config
load_same stat loaded self = ground arith

resume_same : (changed want : Bool) (self : Manager) → SameFeed self (resume changed want self)
unfolding resume
resume_same changed want self = ground arith

poll_same : (now : ℕ) (self : Manager) → SameFeed self (should_check_file now self).1
unfolding should_check_file
poll_same now self = ground arith

apply_same :
    (serial : List Request → Request → ℕ) (want : Bool) (self : Manager) (w : Sent)
    → SameFeed self (clear_force want (apply_due serial self w).0)
unfolding clear_force apply_due apply_pending
apply_same serial want self w = ground arith

same_trans : {a b c : Manager} → SameFeed a b → SameFeed b c → SameFeed a c
same_trans p q = record { inbox = q.inbox ∙ p.inbox; opts = q.opts ∙ p.opts }

attempt_same :
    (serial : List Request → Request → ℕ) (want : Bool) (stat : Stat) (loaded : Loaded)
    (self : Manager)
    → SameFeed self (attempt serial want stat loaded self nothing_sent).0
unfolding attempt
attempt_same serial want stat loaded self =
    let (changed, s1) = load_if_changed stat loaded self in
    same_trans (load_same stat loaded self) (
      same_trans (resume_same (value_or_false changed) want s1)
        (apply_same serial want (resume (value_or_false changed) want s1) nothing_sent))

pub control_same :
    (serial : List Request → Request → ℕ) (now : ℕ) (stat : Stat) (loaded : Loaded) (self : Manager)
    → SameFeed self (control_cycle serial now stat loaded self nothing_sent).0
unfolding control_cycle
control_same serial now stat loaded self =
    let s = (should_check_file now self).1 in
    by_test (
      (self.connected && self.session)
      && (self.force_resubscribe || (should_check_file now self).0))
  where
    by_test :
        (t : Bool)
        → SameFeed self
            (if t
              then attempt serial self.force_resubscribe stat loaded
                  (should_check_file now self).1
                  nothing_sent
              else ((should_check_file now self).1, nothing_sent)).0
    by_test true =
        same_trans (poll_same now self)
          (attempt_same serial self.force_resubscribe stat loaded (should_check_file now self).1)
    by_test false = poll_same now self

-- The inbox is nothing to the control plane's beliefs.
pub IsSettled-inbox :
    {self : Manager} {v : Subscribed} {r : Ring Envelope}
    → IsSettled self v
    → IsSettled (record self { inbox = r }) v
IsSettled-inbox st = record { tracks = Tracks-same refl refl refl st.tracks; idle = st.idle }

pub connected-IsSettled :
    (success : Bool) (self : Manager) (v : Subscribed)
    → IsSettled self v
    → IsSettled (on_connected success self) (Run.renewed success v)
unfolding on_connected
connected-IsSettled true self v st = on_connected-IsSettled self v st
connected-IsSettled false self v st = record {
  tracks = Tracks-same refl refl refl st.tracks;
  idle = st.idle;
}
