-- ===== src/Ring/Threads.antt =====
-- The queue of SPSCQueue.hpp under the interleavings of its two threads. A step is one access to
-- shared memory with the local work up to it: `try_push` loads `tail_`, writes its slot, stores
-- `head_`; `try_pop` loads `head_`, moves out of its slot, stores `tail_`. Each thread loads its own
-- index relaxed, which nobody else writes, and keeps it in a local variable. The release stores and
-- acquire loads make every such history equal to one interleaving of these steps.
pub mod Fifo
pub mod Slots
use momo_hdb.Base.{ℕ, zero, suc, ◌+◌, ◌<◌, ◌≡◌, ◌≢◌, refl, sym, ap, subst, ◌∙◌, arith}
use momo_hdb.Base.{List, [], ◌∷◌, ◌++◌, length, some, set, get_elem?}
use momo_hdb.Base.{length-set, length-append, get_elem?-set_self, get_elem?-set_ne, append_assoc}
use momo_hdb.Ring.{Ring, next_index}
use momo_hdb.Ring.Inv.{IsValid, ahead, ahead-lt, ahead-ne, ahead-suc, ahead_next, ahead_zero}
use momo_hdb.Ring.Inv.{next_index_lem}
use momo_hdb.Ring.Refine.{go_round, Stored, Stored-set, Stored-snoc}

-- Where the producer stands in `try_push(v)`, with its locals `head` and `next`.
pub data Producer {ℓ} (T : Type ℓ) : Type ℓ where
  outside : Producer T
  checked : T → ℕ → ℕ → Producer T
  written : T → ℕ → ℕ → Producer T

-- Where the consumer stands in `try_pop`, with its local `tail` and what it took.
pub data Consumer {ℓ} (T : Type ℓ) : Type ℓ where
  outside : Consumer T
  seen : ℕ → Consumer T
  taken : ℕ → T → Consumer T

-- Both threads over one ring, with the values pushed and popped so far.
pub record System {ℓ} (T : Type ℓ) : Type ℓ where
  pub ring : Ring T
  pub producer : Producer T
  pub consumer : Consumer T
  pub sent : List T
  pub received : List T

module _ {ℓ} {T : Type ℓ} (moved : T → T) where
  -- One step of either thread. A refused push or pop changes nothing.
  pub data Step : System T → System T → Type ℓ where
    push_refused :
        (s : System T)
        → s.producer ≡ Producer.outside
        → next_index s.ring s.ring.head ≡ s.ring.tail
        → Step s s
    push_check :
        (s : System T) (v : T)
        → s.producer ≡ Producer.outside
        → next_index s.ring s.ring.head ≢ s.ring.tail
        → Step s
            (record s { producer = Producer.checked v s.ring.head (next_index s.ring s.ring.head) })
    push_write :
        (s : System T) (v : T) (head next : ℕ)
        → s.producer ≡ Producer.checked v head next
        → Step s (record s {
          ring = record (s.ring) { buf = set s.ring.buf head v };
          producer = Producer.written v head next;
        })
    push_store :
        (s : System T) (v : T) (head next : ℕ)
        → s.producer ≡ Producer.written v head next
        → Step s (record s {
          ring = record (s.ring) { head = next };
          producer = Producer.outside;
          sent = s.sent ++ (v ∷ []);
        })
    pop_refused :
        (s : System T) → s.consumer ≡ Consumer.outside → s.ring.tail ≡ s.ring.head → Step s s
    pop_check :
        (s : System T)
        → s.consumer ≡ Consumer.outside
        → s.ring.tail ≢ s.ring.head
        → Step s (record s { consumer = Consumer.seen s.ring.tail })
    pop_take :
        (s : System T) (tail : ℕ) (x : T)
        → s.consumer ≡ Consumer.seen tail
        → get_elem? s.ring.buf tail ≡ some x
        → Step s (record s {
          ring = record (s.ring) { buf = set s.ring.buf tail (moved x) };
          consumer = Consumer.taken tail x;
        })
    pop_store :
        (s : System T) (tail : ℕ) (x : T)
        → s.consumer ≡ Consumer.taken tail x
        → Step s (record s {
          ring = record (s.ring) { tail = next_index s.ring tail };
          consumer = Consumer.outside;
          received = s.received ++ (x ∷ []);
        })

  pub data Reach (s : System T) : System T → Type ℓ where
    here : Reach s s
    next : {t u : System T} → Reach s t → Step t u → Reach s u

module _ {ℓ} {T : Type ℓ} where
  -- What the producer's place says of the ring that holds `q`.
  abbrev pub ProducerInv : Producer T → Ring T → List T → Type ℓ
  ProducerInv Producer.outside r q = Unit {ℓ}
  ProducerInv (Producer.checked v h n) r q =
      (h ≡ r.head) × (n ≡ next_index r r.head) × (suc (length q) < r.cap) × Unit {ℓ}
  ProducerInv (Producer.written v h n) r q =
      (h ≡ r.head)
      × (n ≡ next_index r r.head)
      × (suc (length q) < r.cap)
      × (get_elem? r.buf r.head ≡ some v)

  -- The same of the consumer: once it took the oldest element, only the others are in their slots.
  abbrev pub ConsumerInv : Consumer T → Ring T → List T → Type ℓ
  ConsumerInv Consumer.outside r q = Stored r.cap r.buf r.tail q
  ConsumerInv (Consumer.seen t) r q = (t ≡ r.tail) × (q ≢ []) × Stored r.cap r.buf r.tail q
  ConsumerInv (Consumer.taken t x) r q =
      (t ≡ r.tail)
      × (rest : List T) × (q ≡ x ∷ rest)
      × Stored r.cap r.buf (ahead r.cap r.tail 1) rest

  -- The system holds `q`: it was sent and is not yet received.
  pub record Carries (s : System T) (q : List T) : Type ℓ where
    pub valid : IsValid s.ring
    pub filled : length q < s.ring.cap
    pub ends : s.ring.head ≡ ahead s.ring.cap s.ring.tail (length q)
    pub history : s.sent ≡ s.received ++ q
    pub pushing : ProducerInv s.producer s.ring q
    pub popping : ConsumerInv s.consumer s.ring q
