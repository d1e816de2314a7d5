-- ===== src/Ring/Threads/Fifo.antt =====
-- What is received is what was sent, in order, under every interleaving of SPSCQueue.hpp's threads.
use momo_hdb.Base.{ℕ, suc, ◌<◌, ◌≡◌, ◌≢◌, refl, sym, ap, subst, ◌∙◌, ◌-◌, arith}
use momo_hdb.Base.{List, [], ◌∷◌, ◌++◌, length, some, set, get_elem?}
use momo_hdb.Base.{length-append, get_elem?-set_self, append_assoc}
use momo_hdb.Ring.{Ring, next_index}
use momo_hdb.Ring.Inv.{IsValid, ahead, ahead-lt, ahead-suc}
use momo_hdb.Ring.Inv.{next_index_lem}
use momo_hdb.Ring.Refine.{go_round, Stored, Stored-set}
use momo_hdb.Ring.Threads.{
  Producer, Consumer, System, Step, Reach, here, next, push_refused, push_check, push_write,
  push_store, pop_refused, pop_check, pop_take, pop_store, ProducerInv, ConsumerInv, Carries,
}
use momo_hdb.Ring.Threads.Slots.{
  ConsumerInv-write, ConsumerInv-publish, ProducerInv-take, ProducerInv-release, tail-ne-head,
  head-ne-tail, with_buf, next_place, has_room,
}

module _ {ℓ} {T : Type ℓ} where
  check_keeps :
      (s : System T) (v : T) (q : List T)
      → next_index s.ring s.ring.head ≢ s.ring.tail
      → Carries s q
      → Carries
          (record s { producer = Producer.checked v s.ring.head (next_index s.ring s.ring.head) })
          q
  check_keeps s v q room c = record {
    valid = c.valid;
    filled = c.filled;
    ends = c.ends;
    history = c.history;
    pushing = (refl, refl, has_room s.ring q c.valid c.filled c.ends room, tt);
    popping = c.popping;
  }

  write_keeps :
      (s : System T) (v : T) (h n : ℕ) (q : List T)
      → s.producer ≡ Producer.checked v h n
      → Carries s q
      → Carries
          (record s {
            ring = record (s.ring) { buf = set s.ring.buf h v };
            producer = Producer.written v h n;
          })
          q
  unfolding next_index
  write_keeps s v h n q place c =
      let i = subst (λ p. ProducerInv p s.ring q) place c.pushing in
      let w = c.valid in
      let slot : get_elem? (set s.ring.buf s.ring.head v) s.ring.head ≡ some v =
        get_elem?-set_self s.ring.buf s.ring.head v (omega (arith, w.slots, w.head_in)) in
      record {
        valid = with_buf w h v;
        filled = c.filled;
        ends = c.ends;
        history = c.history;
        pushing = (
          i.0,
          i.1,
          i.2,
          subst (λ k. get_elem? (set s.ring.buf k v) s.ring.head ≡ some v) (sym i.0) slot,
        );
        popping =
            subst (λ k. ConsumerInv s.consumer (record (s.ring) { buf = set s.ring.buf k v }) q)
              (sym i.0) (ConsumerInv-write s.consumer s.ring q v w c.filled c.ends c.popping);
      }

  store_keeps :
      (s : System T) (v : T) (h n : ℕ) (q : List T)
      → s.producer ≡ Producer.written v h n
      → Carries s q
      → Carries
          (record s {
            ring = record (s.ring) { head = n };
            producer = Producer.outside;
            sent = s.sent ++ (v ∷ []);
          })
          (q ++ (v ∷ []))
  store_keeps s v h n q place c =
      let i = subst (λ p. ProducerInv p s.ring q) place c.pushing in
      let w = c.valid in
      let grown : length (q ++ (v ∷ [])) ≡ suc (length q) =
        omega (arith, length-append q (v ∷ [])) in
      let on : n ≡ ahead s.ring.cap s.ring.tail (suc (length q)) =
        i.1 ∙ next_place s.ring q w c.filled c.ends in
      record {
        valid = record {
          two = w.two;
          word = w.word;
          masked = w.masked;
          slots = w.slots;
          head_in = rw on (ahead-lt s.ring.cap s.ring.tail (suc (length q)) w.tail_in i.2);
          tail_in = w.tail_in;
        };
        filled = omega (arith, grown, i.2);
        ends = on ∙ ap (ahead s.ring.cap s.ring.tail) (sym grown);
        history = ap (λ l. l ++ (v ∷ [])) c.history ∙ append_assoc s.received q (v ∷ []);
        pushing = tt;
        popping = ConsumerInv-publish s.consumer s.ring q v n w c.filled c.ends i.3 c.popping;
      }

  pop_check_keeps :
      (s : System T) (q : List T)
      → s.consumer ≡ Consumer.outside
      → s.ring.tail ≢ s.ring.head
      → Carries s q
      → Carries (record s { consumer = Consumer.seen s.ring.tail }) q
  pop_check_keeps s q place ne c = record {
    valid = c.valid;
    filled = c.filled;
    ends = c.ends;
    history = c.history;
    pushing = c.pushing;
    popping = (
      refl,
      head-ne-tail s.ring q c.ends c.valid ne,
      subst (λ k. ConsumerInv k s.ring q) place c.popping,
    );
  }

  -- What lies in the oldest slot is the oldest element, and taking it leaves the others.
  taken_keeps :
      (r : Ring T) (t : ℕ) (x y : T) (q : List T)
      → IsValid r
      → length q < r.cap
      → get_elem? r.buf t ≡ some x
      → (t ≡ r.tail) × (q ≢ []) × Stored r.cap r.buf r.tail q
      → ConsumerInv (Consumer.taken t x) (record r { buf = set r.buf r.tail y }) q
  taken_keeps r t x y [] w lt slot (e, ne, st) = absurd (ne refl)
  taken_keeps r t x y (z ∷ rest) w lt slot (e, ne, st) =
      let found : some z ≡ some x = sym st.0 ∙ ap (get_elem? r.buf) (sym e) ∙ slot in
      let same : z ≡ x = cc found in
      (
        e,
        rest,
        ap (λ k. k ∷ rest) same,
        subst (λ i. Stored r.cap (set r.buf i y) (ahead r.cap r.tail 1) rest)
            (go_round r.cap r.tail w.two w.tail_in)
            (Stored-set r.cap r.buf (ahead r.cap r.tail 1) (r.cap - 1) y rest
              (ahead-lt r.cap r.tail 1 w.tail_in w.two) (omega arith) (omega (arith, w.two)) st.1),
      )

  take_keeps :
      (moved : T → T) (s : System T) (t : ℕ) (x : T) (q : List T)
      → s.consumer ≡ Consumer.seen t
      → get_elem? s.ring.buf t ≡ some x
      → Carries s q
      → Carries
          (record s {
            ring = record (s.ring) { buf = set s.ring.buf t (moved x) };
            consumer = Consumer.taken t x;
          })
          q
  take_keeps moved s t x q place slot c =
      let i = subst (λ k. ConsumerInv k s.ring q) place c.popping in
      let w = c.valid in
      record {
        valid = with_buf w t (moved x);
        filled = c.filled;
        ends = c.ends;
        history = c.history;
        pushing =
            subst
              (λ k. ProducerInv s.producer (record (s.ring) { buf = set s.ring.buf k (moved x) }) q)
              (sym i.0)
              (ProducerInv-take s.producer s.ring q (moved x)
                (tail-ne-head s.ring q w c.filled c.ends i.1) c.pushing);
        popping =
            subst
              (λ k.
                ConsumerInv (Consumer.taken t x)
                  (record (s.ring) { buf = set s.ring.buf k (moved x) }) q)
              (sym i.0) (taken_keeps s.ring t x (moved x) q w c.filled slot i);
      }

  release_keeps :
      (s : System T) (t : ℕ) (x : T) (q : List T)
      → s.consumer ≡ Consumer.taken t x
      → Carries s q
      → (q' : List T) × Carries
          (record s {
            ring = record (s.ring) { tail = next_index s.ring t };
            consumer = Consumer.outside;
            received = s.received ++ (x ∷ []);
          })
          q'
  release_keeps s t x q place c =
      let (e, rest, shape, st) = subst (λ k. ConsumerInv k s.ring q) place c.popping in
      let w = c.valid in
      let n : length q ≡ suc (length rest) = ap length shape in
      let on : next_index s.ring t ≡ ahead s.ring.cap s.ring.tail 1 =
        ap (next_index s.ring) e ∙ next_index_lem s.ring.tail w w.tail_in in
      (
        rest,
        record {
          valid = record {
            two = w.two;
            word = w.word;
            masked = w.masked;
            slots = w.slots;
            head_in = w.head_in;
            tail_in = rw on (ahead-lt s.ring.cap s.ring.tail 1 w.tail_in w.two);
          };
          filled = omega (arith, c.filled, n);
          ends =
              c.ends
              ∙ ap (ahead s.ring.cap s.ring.tail) n
              ∙ rw on (
                  ahead-suc s.ring.cap s.ring.tail (length rest) w.tail_in
                    (omega (arith, c.filled, n)));
          history =
              c.history
              ∙ ap (λ l. s.received ++ l) shape
              ∙ sym (append_assoc s.received (x ∷ []) rest);
          pushing =
              ProducerInv-release s.producer s.ring x rest (next_index s.ring t)
                (subst (ProducerInv s.producer s.ring) shape c.pushing);
          popping = subst (λ i. Stored s.ring.cap s.ring.buf i rest) (sym on) st;
        },
      )

module _ {ℓ} {T : Type ℓ} (moved : T → T) where
  -- Every step of either thread keeps the system consistent.
  pub Step-Carries :
      {s t : System T} (q : List T) → Step moved s t → Carries s q → (q' : List T) × Carries t q'
  Step-Carries q (push_refused s idle full) c = (q, c)
  Step-Carries q (push_check s v idle room) c = (q, check_keeps s v q room c)
  Step-Carries q (push_write s v h n place) c = (q, write_keeps s v h n q place c)
  Step-Carries q (push_store s v h n place) c = (q ++ (v ∷ []), store_keeps s v h n q place c)
  Step-Carries q (pop_refused s idle empty) c = (q, c)
  Step-Carries q (pop_check s idle ne) c = (q, pop_check_keeps s q idle ne c)
  Step-Carries q (pop_take s t x place slot) c = (q, take_keeps moved s t x q place slot c)
  Step-Carries q (pop_store s t x place) c = release_keeps s t x q place c

  -- From a consistent system, every interleaving of the two threads leads to one: the values
  -- received, followed by those still queued, are the values sent, in the order of sending, and
  -- fewer are queued than the ring has slots.
  pub Reach-Carries :
      {s t : System T} (q : List T) → Carries s q → Reach moved s t → (q' : List T) × Carries t q'
  Reach-Carries q c here = (q, c)
  Reach-Carries q c (next r st) = let (q', c') = Reach-Carries q c r in Step-Carries q' st c'
