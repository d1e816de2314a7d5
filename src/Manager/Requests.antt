-- ===== src/Manager/Requests.antt =====
-- What the session ends up subscribed to when it obeys the requests that the manager sends.
use momo_hdb.Base.{ℕ, ◌≡◌, refl, ap, ◌∙◌, Bool, true, false, not, ◌&&◌, ◌||◌, arith}
use momo_hdb.Base.{List, [], ◌∷◌, ◌++◌, if◌then◌else◌, some, none}
use momo_hdb.Subscription.{
  SubType, SecurityId, SubMask, SubState, DiffItem, same_security, security_eq, mask_to_vec,
}
use momo_hdb.Base.Maps.{any_at}
use momo_hdb.Subscription.Mask.{contains, wants, contains-mask_to_vec}
use momo_hdb.Subscription.Diff.{hit}
use momo_hdb.Manager.{
  Manager, Request, Sent, Result, ok, err, send, subscribe_api, unsubscribe_api, call_subscribe,
  call_unsubscribe, report, subscribe_all, unsubscribe_all, subscribe_items, unsubscribe_items,
}

-- A set of subscriptions, and a session that does what each request asks for.
abbrev pub Subscribed : Type 0
Subscribed = SecurityId → SubType → Bool

unfoldable pub obey : Request → Subscribed → Subscribed
obey r v id t =
    let named = same_security r.security id && contains t r.subtypes in
    if r.is_sub_or_un_sub then v id t || named else v id t && not named

unfoldable pub obey_all : List Request → Subscribed → Subscribed
obey_all [] v = v
obey_all (r ∷ rs) v = obey_all rs (obey r v)

obey_all-append :
    (rs qs : List Request) (v : Subscribed) → obey_all (rs ++ qs) v ≡ obey_all qs (obey_all rs v)
unfolding obey_all
obey_all-append [] qs v = refl
obey_all-append (r ∷ rs) qs v = obey_all-append rs qs (obey r v)

module _ (serial : List Request → Request → ℕ) (self : Manager) (bound : self.session ≡ true) where
  -- With a session bound, a call sends one request, whatever it returns.
  pub asks : Bool → SecurityId → SubMask → Request
  asks true id m = record {
    security = id;
    subtypes = mask_to_vec m;
    is_sub_or_un_sub = true;
    is_reg_or_un_reg_push = true;
    is_first_push = some self.opts.first_push;
  }
  asks false id m = record {
    security = id;
    subtypes = mask_to_vec m;
    is_sub_or_un_sub = false;
    is_reg_or_un_reg_push = false;
    is_first_push = none;
  }

  report-requests :
      (id : SecurityId) (p : Result (Unit {0}) × Sent)
      → (report serial id p).requests ≡ p.1.requests
  unfolding report
  report-requests id (ok u, w) = refl
  report-requests id (err e, w) = refl

  call_subscribe-requests :
      (id : SecurityId) (m : SubMask) (w : Sent)
      → (call_subscribe serial self id m w).1.requests ≡ w.requests ++ (asks true id m ∷ [])
  unfolding call_subscribe subscribe_api send asks
  call_subscribe-requests id m w = ground arith

  call_unsubscribe-requests :
      (id : SecurityId) (m : SubMask) (w : Sent)
      → (call_unsubscribe serial self id m w).1.requests ≡ w.requests ++ (asks false id m ∷ [])
  unfolding call_unsubscribe unsubscribe_api send asks
  call_unsubscribe-requests id m w = ground arith

  -- The subscriptions after obeying one more request of this kind.
  obey-asks :
      (b : Bool) (id i : SecurityId) (m : SubMask) (t : SubType) (v : Subscribed)
      → obey (asks b i m) v id t ≡ (
          if b
          then v id t || (same_security i id && wants t m)
          else v id t && not (same_security i id && wants t m))
  unfolding obey asks
  obey-asks true id i m t v = ground (arith, contains-mask_to_vec t m)
  obey-asks false id i m t v = ground (arith, contains-mask_to_vec t m)

  -- What has been subscribed to once the requests sent so far are obeyed.
  unfoldable pub outcome : Sent → Subscribed → Subscribed
  outcome w = obey_all w.requests

  outcome-sent :
      (b : Bool) (i id : SecurityId) (m : SubMask) (w : Sent) (p : Result (Unit {0}) × Sent)
      (v : Subscribed) (t : SubType)
      → p.1.requests ≡ w.requests ++ (asks b i m ∷ [])
      → outcome (report serial i p) v id t ≡ (
          if b
          then outcome w v id t || (same_security i id && wants t m)
          else outcome w v id t && not (same_security i id && wants t m))
  unfolding outcome
  outcome-sent b i id m w p v t e =
      ap (λ rs. obey_all rs v id t) (report-requests i p ∙ e)
      ∙ ap (λ f. f id t) (obey_all-append w.requests (asks b i m ∷ []) v)
      ∙ one (obey_all w.requests v)
    where
      one :
          (u : Subscribed)
          → obey_all (asks b i m ∷ []) u id t ≡ (
              if b
              then u id t || (same_security i id && wants t m)
              else u id t && not (same_security i id && wants t m))
      one u = unfold obey_all in obey-asks b id i m t u

  -- Subscribing to all of a state adds its subscriptions, and nothing else.
  pub outcome-subscribe_all :
      (st : SubState) (w : Sent) (v : Subscribed) (id : SecurityId) (t : SubType)
      → outcome (subscribe_all serial self st w) v id t ≡ outcome w v id t || any_at id (wants t) st
  unfolding subscribe_all any_at
  outcome-subscribe_all [] w v id t = ground arith
  outcome-subscribe_all ((i, m) ∷ st) w v id t =
      let p = call_subscribe serial self i m w in
      ground (
        arith,
        outcome-subscribe_all st (report serial i p) v id t,
        outcome-sent true i id m w p v t (call_subscribe-requests i m w),
      )

  -- Unsubscribing from all of a state takes its subscriptions away, and nothing else.
  pub outcome-unsubscribe_all :
      (st : SubState) (w : Sent) (v : Subscribed) (id : SecurityId) (t : SubType)
      → outcome (unsubscribe_all serial self st w) v id t
        ≡ outcome w v id t && not (any_at id (wants t) st)
  unfolding unsubscribe_all any_at
  outcome-unsubscribe_all [] w v id t = ground arith
  outcome-unsubscribe_all ((i, m) ∷ st) w v id t =
      let p = call_unsubscribe serial self i m w in
      ground (
        arith,
        outcome-unsubscribe_all st (report serial i p) v id t,
        outcome-sent false i id m w p v t (call_unsubscribe-requests i m w),
      )

  pub outcome-subscribe_items :
      (is : List DiffItem) (w : Sent) (v : Subscribed) (id : SecurityId) (t : SubType)
      → outcome (subscribe_items serial self is w) v id t ≡ outcome w v id t || hit is id t
  unfolding subscribe_items hit
  outcome-subscribe_items [] w v id t = ground arith
  outcome-subscribe_items (i ∷ is) w v id t =
      let p = call_subscribe serial self i.id i.mask w in
      ground (
        arith,
        outcome-subscribe_items is (report serial i.id p) v id t,
        outcome-sent true i.id id i.mask w p v t (call_subscribe-requests i.id i.mask w),
      )

  pub outcome-unsubscribe_items :
      (is : List DiffItem) (w : Sent) (v : Subscribed) (id : SecurityId) (t : SubType)
      → outcome (unsubscribe_items serial self is w) v id t ≡ outcome w v id t && not (hit is id t)
  unfolding unsubscribe_items hit
  outcome-unsubscribe_items [] w v id t = ground arith
  outcome-unsubscribe_items (i ∷ is) w v id t =
      let p = call_unsubscribe serial self i.id i.mask w in
      ground (
        arith,
        outcome-unsubscribe_items is (report serial i.id p) v id t,
        outcome-sent false i.id id i.mask w p v t (call_unsubscribe-requests i.id i.mask w),
      )
