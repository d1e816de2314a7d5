-- ===== src/Tests/Subscriptions.antt =====
-- The theorems on subscriptions and on the manager's control plane, on a file of one security.
use momo_hdb.Base.{ℕ, ◌≡◌, ◌↔◌, refl, true, false, not, ◌&&◌, ◌||◌, none}
use momo_hdb.Base.{List, [], ◌∷◌, bytes, arith}
use momo_hdb.Base.Int.{pos}
use momo_hdb.Base.Maps.{find}
use momo_hdb.Downstream.{Envelope}
use momo_hdb.Subscription.{Market, SubType, SecurityId, SubscribeConfig, security_eq}
use momo_hdb.Subscription.{canonicalize, st_equal, diff_state, mask_at}
use momo_hdb.Subscription.Mask.{is_named}
use momo_hdb.Subscription.Canon.{view, listed, canonicalize_shape}
use momo_hdb.Subscription.Same.{st_equal_iff}
use momo_hdb.Subscription.Diff.{hit, diff_state_lem}
use momo_hdb.Manager.{OverflowPolicy, Manager, Request, nothing_sent, ok}
use momo_hdb.Manager.{apply_pending, control_cycle}
use momo_hdb.Manager.Requests.{Subscribed, obey_all}
use momo_hdb.Manager.Refine.{IsProper, Tracks, apply_pending_lem}
use momo_hdb.Manager.Load.{canonicalize-IsProper}
use momo_hdb.Manager.Settled.{IsSettled}
use momo_hdb.Manager.Converge.{control_cycle_converges}

abbrev pub tencent : SecurityId
tencent = record { market = Market.hk_security; code = bytes "00700" }

abbrev pub two_types : SubscribeConfig
two_types = record {
  version = pos 1;
  default_subtypes = [];
  securities =
      record {
        market = Market.hk_security;
        code = bytes "00700";
        subtypes = SubType.basic ∷ SubType.ticker ∷ [];
      }
      ∷ [];
}

abbrev one_type : SubscribeConfig
one_type = record {
  version = pos 2;
  default_subtypes = [];
  securities =
      record { market = Market.hk_security; code = bytes "00700"; subtypes = SubType.ticker ∷ [] }
      ∷ [];
}

st_equal_iff_example :
    (st_equal (canonicalize two_types) (canonicalize one_type) ≡ true)
    ↔ ((id : SecurityId) → find id (canonicalize two_types) ≡ find id (canonicalize one_type))
st_equal_iff_example =
    st_equal_iff (canonicalize two_types) (canonicalize one_type) (canonicalize_shape two_types).0
      (canonicalize_shape one_type).0

diff_state_lem_example :
    let d = diff_state (canonicalize two_types) (canonicalize one_type) in
    (hit d.remove_security tencent SubType.basic || hit d.del_subtypes tencent SubType.basic
      ≡ view (canonicalize two_types) tencent SubType.basic
        && not (view (canonicalize one_type) tencent SubType.basic))
    × (hit d.add_subtypes tencent SubType.basic || hit d.add_security tencent SubType.basic
        ≡ view (canonicalize one_type) tencent SubType.basic
          && not (view (canonicalize two_types) tencent SubType.basic))
diff_state_lem_example =
    diff_state_lem (canonicalize two_types) (canonicalize one_type) tencent SubType.basic
      (canonicalize_shape two_types).0 (canonicalize_shape one_type).0
      (canonicalize-IsProper two_types).wide (canonicalize-IsProper one_type).wide

abbrev pub blank : Envelope
blank = record { topic = []; key = []; payload = []; ts_ns = pos 0 }

-- A manager that has just connected, and has read no file.
abbrev pub connected : Manager
connected = record {
  opts = record {
    refresh_interval = 5000;
    capacity = 1024;
    overflow = OverflowPolicy.drop_oldest;
    first_push = false;
  };
  session = true;
  has_loader = true;
  inbox = record { cap = 2; mask = 1; buf = blank ∷ blank ∷ []; head = 0; tail = 0 };
  connected = true;
  force_resubscribe = true;
  last_check = none;
  last_mtime = 0;
  current_state = [];
  pending_state = [];
  has_current = false;
  has_pending = false;
}

abbrev pub no_subscription : Subscribed
no_subscription id t = false

abbrev pub serial_one : List Request → Request → ℕ
serial_one sent r = 1

empty-IsProper : IsProper []
unfolding mask_at find
empty-IsProper = record { one_each = tt; wide = λ id. omega arith }

pub connected-IsSettled : IsSettled connected no_subscription
connected-IsSettled = record {
  tracks = record {
    within = λ id t e. cc;
    exact = λ calm had. cc;
    current_proper = empty-IsProper;
  };
  idle = refl;
}

abbrev loaded : Manager
loaded = record connected { pending_state = canonicalize two_types; has_pending = true }

loaded-Tracks : Tracks loaded no_subscription
loaded-Tracks = record {
  within = λ id t e. cc;
  exact = λ calm had. cc;
  current_proper = empty-IsProper;
}

apply_pending_lem_example :
    let (self', w) = apply_pending serial_one loaded nothing_sent in
    ((id : SecurityId) (t : SubType)
      → obey_all w.requests no_subscription id t ≡ view loaded.pending_state id t)
    × (self'.current_state ≡ loaded.pending_state)
    × (self'.has_current ≡ true)
    × (self'.has_pending ≡ false)
    × (self'.force_resubscribe ≡ false)
apply_pending_lem_example =
    apply_pending_lem serial_one loaded no_subscription refl refl (canonicalize-IsProper two_types)
      loaded-Tracks

control_cycle_converges_example :
    obey_all
      (control_cycle serial_one 0 (ok 9) (ok two_types) connected nothing_sent).1.requests
      no_subscription
      tencent
      SubType.ticker
    ≡ is_named SubType.ticker && listed two_types.securities tencent SubType.ticker
control_cycle_converges_example =
    control_cycle_converges serial_one 0 9 two_types connected no_subscription connected-IsSettled
      refl refl refl refl tencent SubType.ticker
