-- ===== src/Kfkpb/Consumer/Path.antt =====
-- A message from Kafka to the events.
use momo_hdb.Base.{
  ℕ, ◌%◌, ◌<◌, ◌≡◌, refl, sym, subst, Bool, true, false, Option, some, List, [], ◌∷◌, Text, length,
  arith,
}
use momo_hdb.Ring.Overflow.{offer}
use momo_hdb.Decoders.{Decoded}
use momo_hdb.Kfkpb.{Client, RawMsg, MsgType, Event}
use momo_hdb.Kfkpb
use momo_hdb.Kfkpb.Flow.{HoldsAt, push_raw_keyed, worker_of_key, decode_round_lem}
use momo_hdb.Kfkpb.Consumer.{Kafka, Message}
use momo_hdb.Kfkpb.Consumer

-- What `pushRaw` of a message with a key leaves alone.
push_raw_rest :
    (hash : Text → ℕ) (m : RawMsg) (c : Client)
    → 0 < length m.key
    → 0 < length c.raw_qs
    → ((Kfkpb.push_raw hash m c).evt_qs ≡ c.evt_qs)
      × ((Kfkpb.push_raw hash m c).topic_types ≡ c.topic_types)
unfolding Kfkpb.push_raw
push_raw_rest hash m c keyed some_worker =
    rw (worker_of_key hash m c keyed some_worker, Kfkpb.push_raw) (refl, refl)

offer_nil : {A : Type 0} (size : ℕ) (v : A) → offer size v [] ≡ v ∷ []
unfolding offer
offer_nil size v = ground arith

module _ {R : Type 0} (kafka : Kafka R) (hash : Text → ℕ) (stopped : ℕ → Bool)
    (meanwhile : Client → Client) where
  round_lem :
      (s : Consumer.Consumer R) (msg : Message)
      → Consumer.is_applied s.applied_epoch s.client.cfg_epoch ≡ true
      → (kafka.consumer_poll s.rk).0 ≡ some msg
      → msg.err ≡ false
      → (Consumer.consumer_round kafka hash stopped meanwhile s).client
        ≡ Kfkpb.push_raw hash (Consumer.raw_of msg) s.client
  unfolding Consumer.consumer_round Consumer.apply_subscription
  round_lem s msg applied polled good = rw (applied, polled, good) refl

  -- A message that Kafka gives, with a key and without an error, while the subscription is applied and its
  -- worker's queue is empty: after the consumer's round and a round of the worker that its key picks,
  -- the worker's queue is empty again, and its event queue was offered one event, the one that the
  -- message's topic, key, time and payload decode to under the client's topics.
  pub message_to_event :
      (decode : MsgType → RawMsg → Decoded) (s : Consumer.Consumer R) (msg : Message)
      (raw_cap evt_cap : ℕ) (evs : List (Option Event))
      → Consumer.is_applied s.applied_epoch s.client.cfg_epoch ≡ true
      → (kafka.consumer_poll s.rk).0 ≡ some msg
      → msg.err ≡ false
      → 0 < length msg.key
      → 0 < length s.client.raw_qs
      → let w = hash msg.key % length s.client.raw_qs in
        HoldsAt raw_cap [] s.client.raw_qs w
        → HoldsAt evt_cap evs s.client.evt_qs w
        → let c' =
            Kfkpb.decode_round decode w
              (Consumer.consumer_round kafka hash stopped meanwhile s).client in
          HoldsAt raw_cap [] c'.raw_qs w
          × HoldsAt evt_cap
              (offer evt_cap
                (some (Kfkpb.decoded_event decode s.client.topic_types (Consumer.raw_of msg)))
                evs)
              c'.evt_qs
              w
  unfolding Consumer.raw_of
  message_to_event decode s msg raw_cap evt_cap evs applied polled good keyed some_worker raw evt =
      let m = Consumer.raw_of msg in
      let c = s.client in
      let w = hash msg.key % length c.raw_qs in
      let c1 = Kfkpb.push_raw hash m c in
      let (same_qs, same_types) = push_raw_rest hash m c keyed some_worker in
      let pushed : HoldsAt raw_cap (some m ∷ []) c1.raw_qs w =
        subst (λ q. HoldsAt raw_cap q c1.raw_qs w) (offer_nil raw_cap (some m))
          (push_raw_keyed hash m c raw_cap [] keyed some_worker raw) in
      let kept : HoldsAt evt_cap evs c1.evt_qs w =
        subst (λ qs. HoldsAt evt_cap evs qs w) (sym same_qs) evt in
      subst
        (λ (before : Client).
          let c' = Kfkpb.decode_round decode w before in
          HoldsAt raw_cap [] c'.raw_qs w
          × HoldsAt evt_cap (offer evt_cap (some (Kfkpb.decoded_event decode c.topic_types m)) evs)
              c'.evt_qs w)
        (sym (round_lem s msg applied polled good))
        (subst
          (λ types.
            let c' = Kfkpb.decode_round decode w c1 in
            HoldsAt raw_cap [] c'.raw_qs w
            × HoldsAt evt_cap (offer evt_cap (some (Kfkpb.decoded_event decode types m)) evs)
                c'.evt_qs w)
          same_types (decode_round_lem decode w c1 m raw_cap evt_cap [] evs pushed kept))
