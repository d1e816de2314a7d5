-- ===== src/Kfkpb/Consumer/Applied.antt =====
-- Which subscriptions reach Kafka.
use momo_hdb.Base.{
  ℕ, ◌≡◌, refl, Bool, true, false, ==_iff, ◌==◌, Bool-cases, inl, inr, some, List, ◌∷◌, map, Text,
}
use momo_hdb.Base.Int.{ℤ}
use momo_hdb.Kfkpb.{Client, MsgType}
use momo_hdb.Kfkpb
use momo_hdb.Kfkpb.Consumer.{Kafka, Resp}
use momo_hdb.Kfkpb.Consumer

==_self : (n : ℕ) → (n == n) ≡ true
==_self n = (==_iff n n).1 refl

module _ {R : Type 0} (kafka : Kafka R) (hash : Text → ℕ) (stopped : ℕ → Bool) where
  applied_already :
      (later : Client → Client) (s : Consumer.Consumer R)
      → Consumer.is_applied s.applied_epoch s.client.cfg_epoch ≡ true
      → Consumer.apply_subscription kafka hash stopped later s ≡ s
  unfolding Consumer.apply_subscription
  applied_already later s e = rw e refl

  apply_subscription-is_applied :
      (meanwhile : Client → Client) (s : Consumer.Consumer R)
      → let s' = Consumer.apply_subscription kafka hash stopped meanwhile s in
        Consumer.is_applied s'.applied_epoch s'.client.cfg_epoch ≡ true
  unfolding Consumer.apply_subscription
  apply_subscription-is_applied meanwhile s =
      elim (Bool-cases (Consumer.is_applied s.applied_epoch s.client.cfg_epoch)) [
        | inl e ↦ rw e e
        | inr e ↦ rw e (==_self _)
      ]

  -- Once applied, a subscription is not applied again, whatever other threads did to the client while the
  -- lock was given up: the epoch that is taken for applied is the one found afterwards.
  pub apply_subscription_once :
      (meanwhile later : Client → Client) (s : Consumer.Consumer R)
      → let s' = Consumer.apply_subscription kafka hash stopped meanwhile s in
        Consumer.apply_subscription kafka hash stopped later s' ≡ s'
  apply_subscription_once meanwhile later s =
      applied_already later (Consumer.apply_subscription kafka hash stopped meanwhile s)
        (apply_subscription-is_applied meanwhile s)

  -- A subscription that is made while an assignment is awaited is lost: for a client that subscribes from
  -- a time, and that Kafka accepts, Kafka ends in the state in which it would be without the second
  -- subscription; the client holds the second subscription's topics; and applying the subscription
  -- again does nothing.
  pub lost_subscription :
      (topics : List (Text × MsgType)) (later : Client → Client) (s : Consumer.Consumer R)
      {name : Text} {names : List Text} {ts : ℤ}
      → Consumer.is_applied s.applied_epoch s.client.cfg_epoch ≡ false
      → s.client.seek_from_ms ≡ some ts
      → map (λ p. p.0) s.client.topic_types ≡ name ∷ names
      → (kafka.subscribe (name ∷ names) s.rk).0 ≡ Resp.no_error
      → let s' = Consumer.apply_subscription kafka hash stopped (Kfkpb.subscribe topics) s in
        (s'.rk ≡ (Consumer.apply_subscription kafka hash stopped (λ c. c) s).rk)
        × (s'.client.topic_types ≡ topics)
        × (Consumer.apply_subscription kafka hash stopped later s' ≡ s')
  unfolding Consumer.apply_subscription Consumer.subscribe_to Kfkpb.subscribe
  lost_subscription topics later s fresh from eq accepted =
      let again = apply_subscription_once (Kfkpb.subscribe topics) later s in
      (rw (fresh, eq, accepted, from) refl, rw (fresh, eq, accepted, from) refl, again)
