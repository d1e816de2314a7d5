-- ===== src/Ring/Threads/Slots.antt =====
-- The slots of SPSCQueue.hpp under its two threads: what one access to the ring does to what each
-- thread relies on.
use momo_hdb.Base.{ℕ, suc, ◌<◌, ◌≡◌, ◌≢◌, refl, sym, ap, subst, ◌∙◌, ◌⊎◌, inl, inr, arith}
use momo_hdb.Base.{List, [], ◌∷◌, ◌++◌, length, some, set, get_elem?}
use momo_hdb.Base.{length-set, get_elem?-set_ne}
use momo_hdb.Ring.{Ring, next_index}
use momo_hdb.Ring.Inv.{
  IsValid, ahead, ahead-lt, ahead-ne, ahead-suc, ahead_next, ahead_round, ahead_zero,
}
use momo_hdb.Ring.Inv.{next_index_lem}
use momo_hdb.Ring.Refine.{Stored, Stored-set}
use momo_hdb.Ring.Threads.{Producer, Consumer, ProducerInv, ConsumerInv}

module _ {ℓ} {T : Type ℓ} where
  Stored-extend :
      (size : ℕ) (buf : List T) (s : ℕ) (v : T) (q : List T)
      → s < size
      → length q < size
      → get_elem? buf (ahead size s (length q)) ≡ some v
      → Stored size buf s q
      → Stored size buf s (q ++ (v ∷ []))
  Stored-extend size buf s v [] hs hq e st = (rw (ahead_zero size s hs) at e, tt)
  Stored-extend size buf s v (x ∷ q) hs hq e st = (
    st.0,
    Stored-extend size buf (ahead size s 1) v q (ahead-lt size s 1 hs (omega arith)) (omega arith)
        (rw (ahead-suc size s (length q) hs (omega arith)) at e) st.1,
  )

  Stored-write :
      (r : Ring T) (q : List T) (v : T)
      → IsValid r
      → length q < r.cap
      → r.head ≡ ahead r.cap r.tail (length q)
      → Stored r.cap r.buf r.tail q
      → Stored r.cap (set r.buf r.head v) r.tail q
  Stored-write r q v w lt e st =
      subst (λ i. Stored r.cap (set r.buf i v) r.tail q) (sym e)
        (Stored-set r.cap r.buf r.tail (length q) v q w.tail_in (omega arith) lt st)

  snoc-ne-nil : (q : List T) (v : T) → q ++ (v ∷ []) ≢ []
  snoc-ne-nil [] v e = cc
  snoc-ne-nil (x ∷ q) v e = cc

  -- The producer's write falls behind what the consumer has to read.
  pub ConsumerInv-write :
      (c : Consumer T) (r : Ring T) (q : List T) (v : T)
      → IsValid r
      → length q < r.cap
      → r.head ≡ ahead r.cap r.tail (length q)
      → ConsumerInv c r q
      → ConsumerInv c (record r { buf = set r.buf r.head v }) q
  ConsumerInv-write Consumer.outside r q v w lt e st = Stored-write r q v w lt e st
  ConsumerInv-write (Consumer.seen t) r q v w lt e (et, ne, st) =
      (et, ne, Stored-write r q v w lt e st)
  ConsumerInv-write (Consumer.taken t x) r q v w lt e (et, rest, eq, st) =
      let n : length q ≡ suc (length rest) = ap length eq in
      let place : r.head ≡ ahead r.cap (ahead r.cap r.tail 1) (length rest) =
        e
        ∙ ap (ahead r.cap r.tail) n
        ∙ ahead-suc r.cap r.tail (length rest) w.tail_in (omega arith) in
      (
        et,
        rest,
        eq,
        subst (λ i. Stored r.cap (set r.buf i v) (ahead r.cap r.tail 1) rest) (sym place)
            (Stored-set r.cap r.buf (ahead r.cap r.tail 1) (length rest) v rest
              (ahead-lt r.cap r.tail 1 w.tail_in w.two) (omega arith) (omega arith) st),
      )

  -- Storing `head_` publishes the slot that was written.
  pub ConsumerInv-publish :
      (c : Consumer T) (r : Ring T) (q : List T) (v : T) (head' : ℕ)
      → IsValid r
      → length q < r.cap
      → r.head ≡ ahead r.cap r.tail (length q)
      → get_elem? r.buf r.head ≡ some v
      → ConsumerInv c r q
      → ConsumerInv c (record r { head = head' }) (q ++ (v ∷ []))
  ConsumerInv-publish Consumer.outside r q v h' w lt e slot st =
      Stored-extend r.cap r.buf r.tail v q w.tail_in lt (rw e at slot) st
  ConsumerInv-publish (Consumer.seen t) r q v h' w lt e slot (et, ne, st) =
      (et, snoc-ne-nil q v, Stored-extend r.cap r.buf r.tail v q w.tail_in lt (rw e at slot) st)
  ConsumerInv-publish (Consumer.taken t x) r q v h' w lt e slot (et, rest, eq, st) =
      let n : length q ≡ suc (length rest) = ap length eq in
      let place : r.head ≡ ahead r.cap (ahead r.cap r.tail 1) (length rest) =
        e
        ∙ ap (ahead r.cap r.tail) n
        ∙ ahead-suc r.cap r.tail (length rest) w.tail_in (omega arith) in
      (
        et,
        rest ++ (v ∷ []),
        ap (λ l. l ++ (v ∷ [])) eq,
        Stored-extend r.cap r.buf (ahead r.cap r.tail 1) v rest
            (ahead-lt r.cap r.tail 1 w.tail_in w.two) (omega arith) (rw place at slot) st,
      )

  -- The consumer's steps leave the producer's slot and room alone.
  pub ProducerInv-take :
      (p : Producer T) (r : Ring T) (q : List T) (y : T)
      → r.tail ≢ r.head
      → ProducerInv p r q
      → ProducerInv p (record r { buf = set r.buf r.tail y }) q
  unfolding next_index
  ProducerInv-take Producer.outside r q y ne i = i
  ProducerInv-take (Producer.checked v h n) r q y ne i = i
  ProducerInv-take (Producer.written v h n) r q y ne i =
      (i.0, i.1, i.2, get_elem?-set_ne r.buf y ne ∙ i.3)

  pub ProducerInv-release :
      (p : Producer T) (r : Ring T) (x : T) (q : List T) (tail' : ℕ)
      → ProducerInv p r (x ∷ q)
      → ProducerInv p (record r { tail = tail' }) q
  unfolding next_index
  ProducerInv-release Producer.outside r x q t' i = i
  ProducerInv-release (Producer.checked v h n) r x q t' i = (i.0, i.1, omega (arith, i.2), tt)
  ProducerInv-release (Producer.written v h n) r x q t' i = (i.0, i.1, omega (arith, i.2), i.3)

  nonempty : (q : List T) → q ≢ [] → (x : T) × (rest : List T) × (q ≡ x ∷ rest)
  nonempty [] h = absurd (h refl)
  nonempty (x ∷ rest) h = (x, rest, refl)

  -- While an element is queued the two threads never touch one slot.
  pub tail-ne-head :
      (r : Ring T) (q : List T)
      → IsValid r
      → length q < r.cap
      → r.head ≡ ahead r.cap r.tail (length q)
      → q ≢ []
      → r.tail ≢ r.head
  tail-ne-head r q w lt e ne eq =
      let (x, rest, shape) = nonempty q ne in
      let n : length q ≡ suc (length rest) = ap length shape in
      ahead-ne r.cap r.tail (length rest) w.tail_in (omega arith)
        (sym (ap (ahead r.cap r.tail) n) ∙ sym e ∙ sym eq)

  pub head-ne-tail :
      (r : Ring T) (q : List T)
      → r.head ≡ ahead r.cap r.tail (length q)
      → IsValid r
      → r.tail ≢ r.head
      → q ≢ []
  head-ne-tail r q e w ne eq =
      ne (sym (e ∙ ap (λ l. ahead r.cap r.tail (length l)) eq ∙ ahead_zero r.cap r.tail w.tail_in))

  pub with_buf :
      {r : Ring T} → IsValid r → (i : ℕ) (v : T) → IsValid (record r { buf = set r.buf i v })
  with_buf {r} w i v = record {
    two = w.two;
    word = w.word;
    masked = w.masked;
    slots = length-set r.buf i v ∙ w.slots;
    head_in = w.head_in;
    tail_in = w.tail_in;
  }

  pub next_place :
      (r : Ring T) (q : List T)
      → IsValid r
      → length q < r.cap
      → r.head ≡ ahead r.cap r.tail (length q)
      → next_index r r.head ≡ ahead r.cap r.tail (suc (length q))
  next_place r q w lt e =
      next_index_lem r.head w w.head_in ∙ rw e (ahead_next r.cap r.tail (length q) w.tail_in lt)

  -- Room, as the producer's test finds it.
  pub has_room :
      (r : Ring T) (q : List T)
      → IsValid r
      → length q < r.cap
      → r.head ≡ ahead r.cap r.tail (length q)
      → next_index r r.head ≢ r.tail
      → suc (length q) < r.cap
  has_room r q w lt e ne = elim (full r.cap (length q) lt) [
    | inl room ↦ room
    | inr eq ↦
        absurd (ne (next_place r q w lt e ∙ ahead_round r.cap r.tail (length q) w.tail_in eq))
  ]
    where
      full : (c n : ℕ) → n < c → (suc n < c) ⊎ (suc n ≡ c)
      full c n h = omega arith
