-- ===== src/Ring/Race.antt =====
-- Two threads in `try_pop` of SPSCQueue.hpp at once, as where momo_feed/src/runtime/Dispatcher.cpp pops a full
-- queue on the producer's thread while the worker pops. The steps are those of Ring.Threads.
use momo_hdb.Base.{ℕ, ◌≡◌, ◌≢◌, refl, sym, ◌∙◌, arith}
use momo_hdb.Base.{List, [], ◌∷◌, ◌++◌, length, some, set, get_elem?, get_elem?-set_self}
use momo_hdb.Ring.{Ring, next_index}
use momo_hdb.Ring.Inv.{ahead-ne}
use momo_hdb.Ring.Refine.{Holds}
use momo_hdb.Ring.Threads.{Consumer}

-- The ring, where each of the two threads stands, and what each has popped.
pub record Duel {ℓ} (T : Type ℓ) : Type ℓ where
  pub ring : Ring T
  pub left : Consumer T
  pub right : Consumer T
  pub got_left : List T
  pub got_right : List T

module _ {ℓ} {T : Type ℓ} (moved : T → T) where
  pub data Move : Duel T → Duel T → Type ℓ where
    left_check :
        (s : Duel T)
        → s.left ≡ Consumer.outside
        → s.ring.tail ≢ s.ring.head
        → Move s (record s { left = Consumer.seen s.ring.tail })
    left_take :
        (s : Duel T) (tail : ℕ) (x : T)
        → s.left ≡ Consumer.seen tail
        → get_elem? s.ring.buf tail ≡ some x
        → Move s (record s {
          ring = record (s.ring) { buf = set s.ring.buf tail (moved x) };
          left = Consumer.taken tail x;
        })
    left_store :
        (s : Duel T) (tail : ℕ) (x : T)
        → s.left ≡ Consumer.taken tail x
        → Move s (record s {
          ring = record (s.ring) { tail = next_index s.ring tail };
          left = Consumer.outside;
          got_left = s.got_left ++ (x ∷ []);
        })
    right_check :
        (s : Duel T)
        → s.right ≡ Consumer.outside
        → s.ring.tail ≢ s.ring.head
        → Move s (record s { right = Consumer.seen s.ring.tail })
    right_take :
        (s : Duel T) (tail : ℕ) (x : T)
        → s.right ≡ Consumer.seen tail
        → get_elem? s.ring.buf tail ≡ some x
        → Move s (record s {
          ring = record (s.ring) { buf = set s.ring.buf tail (moved x) };
          right = Consumer.taken tail x;
        })
    right_store :
        (s : Duel T) (tail : ℕ) (x : T)
        → s.right ≡ Consumer.taken tail x
        → Move s (record s {
          ring = record (s.ring) { tail = next_index s.ring tail };
          right = Consumer.outside;
          got_right = s.got_right ++ (x ∷ []);
        })

  pub data Moves (s : Duel T) : Duel T → Type ℓ where
    here : Moves s s
    next : {t u : Duel T} → Moves s t → Move t u → Moves s u

abbrev pub idle {ℓ} : {T : Type ℓ} → Ring T → Duel T
idle r = record {
  ring = r;
  left = Consumer.outside;
  right = Consumer.outside;
  got_left = [];
  got_right = [];
}

module _ {ℓ} {T : Type ℓ} (moved : T → T) where
  -- A ring that holds an element is not empty to the test of `try_pop`.
  tail-ne-head : {r : Ring T} (x : T) (q : List T) → Holds r (x ∷ q) → r.tail ≢ r.head
  tail-ne-head {r} x q h e =
      ahead-ne r.cap r.tail (length q) h.valid.tail_in (omega (arith, h.filled))
        (sym h.ends ∙ sym e)

  -- From any ring that holds an element, two threads that are both let in to `try_pop` can both pop the
  -- oldest one: one gets it, the other what the first one's move left of it, and the ring moves on by
  -- one slot.
  pub popped_twice :
      {r : Ring T} (x : T) (q : List T)
      → Holds r (x ∷ q)
      → (s : Duel T) × Moves moved (idle r) s
        × (s.got_left ≡ x ∷ [])
        × (s.got_right ≡ moved x ∷ [])
        × (s.ring.tail ≡ next_index r r.tail)
  unfolding next_index
  popped_twice {r} x q h =
      let t = r.tail in
      let room = tail-ne-head x q h in
      let s0 = idle r in
      let s1 = record s0 { left = Consumer.seen t } in
      let s2 = record s1 { right = Consumer.seen t } in
      let r3 = record r { buf = set r.buf t (moved x) } in
      let s3 = record s2 { ring = r3; left = Consumer.taken t x } in
      let r4 = record r3 { buf = set r3.buf t (moved (moved x)) } in
      let s4 = record s3 { ring = r4; right = Consumer.taken t (moved x) } in
      let s5 = record s4 {
        ring = record r4 { tail = next_index r4 t };
        left = Consumer.outside;
        got_left = x ∷ [];
      } in
      let s6 = record s5 {
        ring = record (s5.ring) { tail = next_index s5.ring t };
        right = Consumer.outside;
        got_right = moved x ∷ [];
      } in
      let left_behind : get_elem? r3.buf t ≡ some (moved x) =
        get_elem?-set_self r.buf t (moved x) (omega (arith, h.valid.slots, h.valid.tail_in)) in
      let moves : Moves moved s0 s6 =
        next
          (next
            (next
              (next (next (next here (left_check s0 refl room)) (right_check s1 refl room))
                (left_take s2 t x refl h.stored.0))
              (right_take s3 t (moved x) refl left_behind))
            (left_store s4 t x refl))
          (right_store s5 t (moved x) refl) in
      (s6, moves, refl, refl, refl)
