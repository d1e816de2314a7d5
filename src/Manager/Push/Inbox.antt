-- ===== src/Manager/Push/Inbox.antt =====
-- What the push handlers leave in the inbox, and what the data plane takes from it.
use momo_hdb.Base.{ℕ, subst, ◌+◌, ◌<◌, ◌≡◌, refl, sym, ap, ◌∙◌, ◌⊎◌, inl, inr, Bool, true, false}
use momo_hdb.Base.{Option, none, some, List, [], ◌∷◌, ◌++◌, Text, bytes, length, take, drop, arith}
use momo_hdb.Base.Int.{ℤ}
use momo_hdb.Ring.{Ring, try_push, try_pop}
use momo_hdb.Ring.Refine.{Holds, try_push_room, try_push_full, try_pop_cons}
use momo_hdb.Ring.Overflow.{offer, offer_room, offer_full, cap-try_push, cap-try_pop}
use momo_hdb.Ring.Batch.{pop_many_lem}
use momo_hdb.Downstream.{Envelope}
use momo_hdb.Subscription.{Market, SecurityId}
use momo_hdb.Manager.{OverflowPolicy, Options, Manager}
use momo_hdb.Manager.Push

-- A state of the manager with the queue `q` in an inbox of `cap` slots.
pub record Inbox (opts : Options) (cap : ℕ) (q : List Envelope) (self : Manager) : Type 0 where
  pub same_opts : self.opts ≡ opts
  pub same_cap : self.inbox.cap ≡ cap
  pub queued : Holds self.inbox q

room_or_full :
    {r : Ring Envelope} (q : List Envelope)
    → Holds r q
    → (length q + 1 < r.cap) ⊎ (length q + 1 ≡ r.cap)
room_or_full q h = omega (arith, h.filled)

module _ (moved : Envelope → Envelope) (blank : Envelope) where
  enqueue_room :
      (e : Envelope) (self : Manager) (q : List Envelope)
      → Holds self.inbox q
      → length q + 1 < self.inbox.cap
      → Push.enqueue moved blank e self
        ≡ Push.returned true (record self { inbox = (try_push e self.inbox).1 })
  unfolding Push.enqueue
  enqueue_room e self q h room = rw (try_push_room e q h room).0 refl

  enqueue_full :
      (e : Envelope) (self : Manager) (q : List Envelope)
      → Holds self.inbox q
      → length q + 1 ≡ self.inbox.cap
      → Push.enqueue moved blank e self ≡ Push.refused moved blank self.opts.overflow e self
  unfolding Push.enqueue
  enqueue_full e self q h full = rw (try_push_full e q h full) refl

  -- What a full inbox does with the policy `drop_oldest`.
  refused_drop :
      (e x : Envelope) (self : Manager) (q : List Envelope)
      → Holds self.inbox (x ∷ q)
      → length (x ∷ q) + 1 ≡ self.inbox.cap
      → (r : Ring Envelope) × (Push.refused moved blank OverflowPolicy.drop_oldest e self
          ≡ Push.returned true (record self { inbox = r }))
        × (r.cap ≡ self.inbox.cap)
        × Holds r (offer self.inbox.cap e (x ∷ q))
  unfolding Push.refused
  refused_drop e x self q h full =
      let r1 = (try_pop moved blank self.inbox).2 in
      let caps = cap-try_pop moved blank self.inbox in
      let (got, eq, h1) = try_pop_cons moved blank x q h in
      let (done, h2) = try_push_room e q h1 (omega (arith, caps)) in
      (
        (try_push e r1).1,
        ap (λ b. Push.returned b (record self { inbox = (try_push e r1).1 })) done,
        cap-try_push e r1 ∙ caps,
        subst (Holds (try_push e r1).1) (sym (offer_full self.inbox.cap e x q full)) h2,
      )

  -- With the policy `drop_oldest`, `enqueue` returns true and the inbox holds what `offer` makes of it.
  pub enqueue_drop :
      (e : Envelope) (self : Manager) (q : List Envelope)
      → self.opts.overflow ≡ OverflowPolicy.drop_oldest
      → Holds self.inbox q
      → (r : Ring Envelope) × (Push.enqueue moved blank e self
          ≡ Push.returned true (record self { inbox = r }))
        × (r.cap ≡ self.inbox.cap)
        × Holds r (offer self.inbox.cap e q)
  enqueue_drop e self q policy h = elim (room_or_full q h) [
    | inl room ↦ (
      (try_push e self.inbox).1,
      enqueue_room e self q h room,
      cap-try_push e self.inbox,
      subst (Holds (try_push e self.inbox).1) (sym (offer_room self.inbox.cap e q room))
          (try_push_room e q h room).1,
    )
    | inr full ↦ at_full q h full
  ]
    where
      at_full :
          (q : List Envelope)
          → Holds self.inbox q
          → length q + 1 ≡ self.inbox.cap
          → (r : Ring Envelope) × (Push.enqueue moved blank e self
              ≡ Push.returned true (record self { inbox = r }))
            × (r.cap ≡ self.inbox.cap)
            × Holds r (offer self.inbox.cap e q)
      at_full [] h full = absurd (omega (arith, h.valid.two))
      at_full (x ∷ q) h full =
          let (r, eq, caps, h') = refused_drop e x self q h full in
          let by_policy = ap (λ p. Push.refused moved blank p e self) policy in
          (r, enqueue_full e self (x ∷ q) h full ∙ (by_policy ∙ eq), caps, h')

  pub enqueue-Inbox :
      (e : Envelope) {opts : Options} {cap : ℕ} {q : List Envelope} {self : Manager}
      → opts.overflow ≡ OverflowPolicy.drop_oldest
      → Inbox opts cap q self
      → (self' : Manager) × (Push.enqueue moved blank e self ≡ Push.returned true self')
        × Inbox opts cap (offer cap e q) self'
  enqueue-Inbox e {opts} {cap} {q} {self} policy i =
      let (r, eq, caps, h) =
        enqueue_drop e self q (ap (λ o. o.overflow) i.same_opts ∙ policy) i.queued in
      (
        record self { inbox = r },
        eq,
        record {
          same_opts = i.same_opts;
          same_cap = caps ∙ i.same_cap;
          queued = subst (λ c. Holds r (offer c e q)) i.same_cap h;
        },
      )

  -- With the policy `block`, `enqueue` queues the envelope when there is room, and spins otherwise, with
  -- nothing changed.
  pub enqueue_block :
      (e : Envelope) (self : Manager) (q : List Envelope)
      → self.opts.overflow ≡ OverflowPolicy.block
      → Holds self.inbox q
      → ((r : Ring Envelope) × (Push.enqueue moved blank e self
            ≡ Push.returned true (record self { inbox = r }))
          × Holds r (q ++ (e ∷ [])))
        ⊎ ((length q + 1 ≡ self.inbox.cap) × (Push.enqueue moved blank e self ≡ Push.spinning self))
  unfolding Push.refused
  enqueue_block e self q policy h = elim (room_or_full q h) [
    | inl room ↦
        inl ((try_push e self.inbox).1, enqueue_room e self q h room, (try_push_room e q h room).1)
    | inr full ↦
        inr
          (full, enqueue_full e self q h full ∙ ap (λ p. Push.refused moved blank p e self) policy)
  ]

-- The envelope that a message becomes, where its serialization succeeds.
abbrev pub envelope : Text → Option Text → Text → ℤ → List Envelope
envelope topic none key now = []
envelope topic (some payload) key now =
    record { topic = topic; key = key; payload = payload; ts_ns = now } ∷ []

abbrev pub offer_all : ℕ → List Envelope → List Envelope → List Envelope
offer_all cap [] q = q
offer_all cap (e ∷ es) q = offer_all cap es (offer cap e q)

offer_all-append :
    (cap : ℕ) (es fs q : List Envelope)
    → offer_all cap (es ++ fs) q ≡ offer_all cap fs (offer_all cap es q)
offer_all-append cap [] fs q = refl
offer_all-append cap (e ∷ es) fs q = offer_all-append cap es fs (offer cap e q)

post-Inbox :
    (moved : Envelope → Envelope) (blank : Envelope) (topic : Text) (payload : Option Text)
    (key : Text) (now : ℤ) {opts : Options} {cap : ℕ} {q : List Envelope} {self : Manager}
    → opts.overflow ≡ OverflowPolicy.drop_oldest
    → Inbox opts cap q self
    → (done : Bool) × (self' : Manager) × (Push.post moved blank topic payload key now self
        ≡ Push.returned done self')
      × Inbox opts cap (offer_all cap (envelope topic payload key now) q) self'
unfolding Push.post
post-Inbox moved blank topic none key now {self} policy i = (false, self, refl, i)
post-Inbox moved blank topic (some payload) key now policy i =
    let (self', eq, i') = enqueue-Inbox moved blank _ policy i in (true, self', eq, i')

module _ (market_name : Market → Text) {M I : Type 0} (item_security : I → SecurityId)
    (single : M → I → Option Text) where
  -- The envelopes of a `Qot_UpdateBasicQot` message: one for each item that serializes.
  abbrev pub basicqot_envelopes : M → List (ℤ × I) → List Envelope
  basicqot_envelopes rsp [] = []
  basicqot_envelopes rsp ((now, item) ∷ items) =
      envelope (bytes "futu.basicqot.pb") (single rsp item)
        (Push.make_key market_name (item_security item)) now
      ++ basicqot_envelopes rsp items

  push_items-Inbox :
      (moved : Envelope → Envelope) (blank : Envelope) (rsp : M) (items : List (ℤ × I))
      {opts : Options} {cap : ℕ} {q : List Envelope} {self : Manager}
      → opts.overflow ≡ OverflowPolicy.drop_oldest
      → Inbox opts cap q self
      → (self' : Manager) × (Push.push_items moved blank market_name item_security single rsp items
            self
          ≡ Push.returned true self')
        × Inbox opts cap (offer_all cap (basicqot_envelopes rsp items) q) self'
  unfolding Push.push_items
  push_items-Inbox moved blank rsp [] policy i = (_, refl, i)
  push_items-Inbox moved blank rsp ((now, item) ∷ items) {opts} {cap} {q} policy i =
      let key = Push.make_key market_name (item_security item) in
      let (done, self', eq, i') =
        post-Inbox moved blank (bytes "futu.basicqot.pb") (single rsp item) key now policy i in
      let (end, eq', i'') = push_items-Inbox moved blank rsp items policy i' in
      let first = envelope (bytes "futu.basicqot.pb") (single rsp item) key now in
      let rest = Push.push_items moved blank market_name item_security single rsp items in
      (
        end,
        ap (λ p. Push.and_then p rest) eq ∙ eq',
        subst (λ es. Inbox opts cap es end)
            (sym (offer_all-append cap first (basicqot_envelopes rsp items) q)) i'',
      )

  -- With the policy `drop_oldest`, the handler of a quote message returns, and has offered the inbox one
  -- envelope for each item that serializes, in the message's order; the items that fail are skipped.
  pub on_push_basicqot_lem :
      (moved : Envelope → Envelope) (blank : Envelope) (rsp : M) (items : List (ℤ × I))
      {opts : Options} {cap : ℕ} {q : List Envelope} {self : Manager}
      → opts.overflow ≡ OverflowPolicy.drop_oldest
      → Inbox opts cap q self
      → (self' : Manager) × (Push.on_push_basicqot moved blank market_name item_security single rsp
            items self
          ≡ Push.returned true self')
        × Inbox opts cap (offer_all cap (basicqot_envelopes rsp items) q) self'
  unfolding Push.on_push_basicqot
  on_push_basicqot_lem moved blank rsp items policy i =
      push_items-Inbox moved blank rsp items policy i

-- One round of the data plane hands the sink the oldest envelopes, in order and at most `batch_max` of
-- them, and leaves the others in the inbox.
pub data_plane_lem :
    {S : Type 0} (moved : Envelope → Envelope) (blank : Envelope) (sink : Push.Sink S)
    (self : Manager) (s : S) (q : List Envelope)
    → Holds self.inbox q
    → let (self', s') = Push.data_plane moved blank sink self s in
      (s' ≡ Push.submit_batch sink.submit (take Push.batch_max q) s)
      × Holds self'.inbox (drop Push.batch_max q)
unfolding Push.data_plane
data_plane_lem moved blank sink self s q h =
    let (count, batch, rest) = pop_many_lem moved blank [] Push.batch_max q h in
    (ap (λ b. Push.submit_batch sink.submit b s) batch, rest)
