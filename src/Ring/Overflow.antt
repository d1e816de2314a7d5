-- ===== src/Ring/Overflow.antt =====
-- What the callers of SPSCQueue.hpp do at a full queue: pop the oldest element and push again
-- (`QueuedDownstream::submit`, `SubscriptionManager::enqueue`, `KfkpbClient::pushRaw` and `pushEvent`).
use momo_hdb.Base.{ℕ, zero, suc, refl, ◌+◌, ◌<◌, ◌≡◌, ◌⊎◌, inl, inr, arith}
use momo_hdb.Base.{List, [], ◌∷◌, ◌++◌, length, drop, ltb, lt→ltb, if◌then◌else◌}
use momo_hdb.Ring.{Ring, try_push, try_pop, pop_many_loop, pop_many}
use momo_hdb.Ring.Refine.{Holds, try_push_room, try_push_full, try_pop_cons}

module _ {ℓ} {T : Type ℓ} (moved : T → T) where
  -- `blank` is the local that takes the dropped element.
  unfoldable pub push_or_drop : T → T → Ring T → Ring T
  push_or_drop blank v r =
      let (done, r1) = try_push v r in
      if done then r1 else (try_push v (try_pop moved blank r1).2).1

module _ {ℓ} {T : Type ℓ} where
  -- A queue of fewer than `size` elements that makes room by forgetting its oldest.
  unfoldable pub offer : ℕ → T → List T → List T
  offer size v q = (if ltb (length q + 1) size then q else drop 1 q) ++ (v ∷ [])

  pub offer_room :
      (size : ℕ) (v : T) (q : List T) → length q + 1 < size → offer size v q ≡ q ++ (v ∷ [])
  unfolding offer
  offer_room size v q h = rw (lt→ltb (length q + 1) size h)

  pub offer_full :
      (size : ℕ) (v x : T) (q : List T)
      → length (x ∷ q) + 1 ≡ size
      → offer size v (x ∷ q) ≡ q ++ (v ∷ [])
  unfolding offer
  offer_full size v x q h = ground arith

  pub cap-try_push : (v : T) (r : Ring T) → (try_push v r).1.cap ≡ r.cap
  unfolding try_push
  cap-try_push v r = ground arith

  pub cap-try_pop : (moved : T → T) (out : T) (r : Ring T) → (try_pop moved out r).2.cap ≡ r.cap
  unfolding try_pop
  cap-try_pop moved out r = ground arith

  pub cap-push_or_drop :
      (moved : T → T) (blank v : T) (r : Ring T) → (push_or_drop moved blank v r).cap ≡ r.cap
  unfolding push_or_drop
  cap-push_or_drop moved blank v r = ground (
    arith,
    cap-try_push v r,
    cap-try_pop moved blank (try_push v r).1,
    cap-try_push v (try_pop moved blank (try_push v r).1).2,
  )

  drop_oldest :
      (moved : T → T) (blank v x : T) {r : Ring T} (q : List T)
      → Holds r (x ∷ q)
      → length (x ∷ q) + 1 ≡ r.cap
      → Holds (try_push v (try_pop moved blank r).2).1 (q ++ (v ∷ []))
  drop_oldest moved blank v x {r} q h full =
      let (got, eq, h') = try_pop_cons moved blank x q h in
      (try_push_room v q h' (omega (arith, cap-try_pop moved blank r))).1

  full_or_room :
      (r : Ring T) (q : List T) → Holds r q → (length q + 1 < r.cap) ⊎ (length q + 1 ≡ r.cap)
  full_or_room r q h = omega (arith, h.filled)

  -- Pushing with the drop of the oldest element is `offer`: the new element is always queued, last; the
  -- others keep their order, and only a full queue loses one, its oldest.
  pub push_or_drop_lem :
      (moved : T → T) (blank v : T) {r : Ring T} (q : List T)
      → Holds r q
      → Holds (push_or_drop moved blank v r) (offer r.cap v q)
  unfolding push_or_drop
  push_or_drop_lem moved blank v {r} q h = elim (full_or_room r q h) [
    | inl room ↦
        let (done, h') = try_push_room v q h room in rw (done, offer_room r.cap v q room) h'
    | inr full ↦ rw (try_push_full v q h full) (refused q h full)
  ]
    where
      refused :
          (q : List T)
          → Holds r q
          → length q + 1 ≡ r.cap
          → Holds (try_push v (try_pop moved blank r).2).1 (offer r.cap v q)
      refused [] h full = absurd (omega (arith, h.valid.two))
      refused (x ∷ q) h full =
          rw (offer_full r.cap v x q full) (drop_oldest moved blank v x q h full)

  cap-pop_many_loop :
      (moved : T → T) (k n : ℕ) (tmp : T) (out : List T) (r : Ring T)
      → (pop_many_loop moved k n tmp out r).2.cap ≡ r.cap
  unfolding pop_many_loop
  cap-pop_many_loop moved zero n tmp out r = refl
  cap-pop_many_loop moved (suc k) n tmp out r =
      let (got, x, r') = try_pop moved tmp r in
      ground (
        arith,
        cap-try_pop moved tmp r,
        cap-pop_many_loop moved k (n + 1) (moved x) (out ++ (x ∷ [])) r',
      )

  pub cap-pop_many :
      (moved : T → T) (blank : T) (out : List T) (n : ℕ) (r : Ring T)
      → (pop_many moved blank out n r).2.cap ≡ r.cap
  unfolding pop_many
  cap-pop_many moved blank out n r = cap-pop_many_loop moved n 0 blank out r
