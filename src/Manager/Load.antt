-- ===== src/Manager/Load.antt =====
-- What `load_if_changed` makes of the file, on every branch.
use momo_hdb.Base.{
  Text, bytes, if◌then◌else◌, ℕ, ◌≡◌, refl, Bool, true, false, not, ◌&&◌, ◌⊎◌, inl, inr, arith,
  ◌==◌,
}
use momo_hdb.Subscription.{SubscribeConfig, canonicalize, st_equal}
use momo_hdb.Subscription.Canon.{canonicalize_shape, IsSmall}
use momo_hdb.Manager.{
  Manager, Result, ok, err, Stat, Loaded, load_if_changed, load_stat, load_file, take_config,
  value_or_false,
}
use momo_hdb.Manager.Refine.{IsProper}

pub canonicalize-IsProper : (cfg : SubscribeConfig) → IsProper (canonicalize cfg)
unfolding IsSmall
canonicalize-IsProper cfg =
    let (one, small) = canonicalize_shape cfg in
    record { one_each = one; wide = λ id. omega (arith, small id) }

-- What a load leaves alone, and what it puts in place.
pub record LoadFacts (self : Manager) (res : Result Bool × Manager) : Type 0 where
  pub session : res.1.session ≡ self.session
  pub current : res.1.current_state ≡ self.current_state
  pub had : res.1.has_current ≡ self.has_current
  pub forced : res.1.force_resubscribe ≡ self.force_resubscribe
  pub outcome :
      ((value_or_false res.0 ≡ true)
        × (res.1.has_pending ≡ true)
        × (cfg : SubscribeConfig) × (res.1.pending_state ≡ canonicalize cfg))
      ⊎ ((value_or_false res.0 ≡ false)
          × (res.1.has_pending ≡ self.has_pending)
          × (res.1.pending_state ≡ self.pending_state))

take_config-LoadFacts :
    (mtime : ℕ) (cfg : SubscribeConfig) (self : Manager)
    → LoadFacts self (take_config mtime cfg self)
unfolding take_config value_or_false
take_config-LoadFacts mtime cfg self =
    by_test (self.has_current && st_equal self.current_state (canonicalize cfg))
  where
    by_test :
        (same : Bool)
        → LoadFacts self (
            if same then (ok false, record self { last_mtime = mtime }) else (
              ok true,
              record self {
                pending_state = canonicalize cfg;
                has_pending = true;
                last_mtime = mtime;
              },
            ))
    by_test true = record {
      session = refl;
      current = refl;
      had = refl;
      forced = refl;
      outcome = inr (refl, refl, refl);
    }
    by_test false = record {
      session = refl;
      current = refl;
      had = refl;
      forced = refl;
      outcome = inl (refl, refl, cfg, refl);
    }

kept : (self : Manager) (r : Result Bool) → value_or_false r ≡ false → LoadFacts self (r, self)
kept self r e = record {
  session = refl;
  current = refl;
  had = refl;
  forced = refl;
  outcome = inr (e, refl, refl);
}

load_stat-LoadFacts :
    (stat : Stat) (loaded : Loaded) (self : Manager) → LoadFacts self (load_stat stat loaded self)
unfolding load_stat value_or_false
load_stat-LoadFacts (err e) loaded self = kept self _ refl
load_stat-LoadFacts (ok m) loaded self = by_test (self.has_current && (m == self.last_mtime)) loaded
  where
    by_test :
        (b : Bool) (l : Loaded)
        → LoadFacts self (if b then (ok false, self) else load_file m l self)
    by_test true l = kept self _ refl
    by_test false (err e) = kept self _ refl
    by_test false (ok cfg) = take_config-LoadFacts m cfg self

pub load_if_changed-LoadFacts :
    (stat : Stat) (loaded : Loaded) (self : Manager)
    → LoadFacts self (load_if_changed stat loaded self)
unfolding load_if_changed value_or_false
load_if_changed-LoadFacts stat loaded self = by_test self.has_loader
  where
    by_test :
        (b : Bool)
        → LoadFacts self (
            if not b
            then (err (bytes "no config loader set"), self)
            else load_stat stat loaded self)
    by_test true = load_stat-LoadFacts stat loaded self
    by_test false = kept self _ refl

-- A load that fails, of the write time or of the file, changes nothing at all, so that the next check
-- of the file tries again.
pub load_if_changed_err :
    (stat : Stat) (loaded : Loaded) (self : Manager) {e : Text}
    → (load_if_changed stat loaded self).0 ≡ err e
    → (load_if_changed stat loaded self).1 ≡ self
unfolding load_if_changed load_stat load_file take_config
load_if_changed_err (err e) loaded self h = ground arith
load_if_changed_err (ok m) (err e) self h = ground arith
load_if_changed_err (ok m) (ok cfg) self h = ground arith
