-- ===== src/Tests/Rings.antt =====
-- The queue's theorems on small rings of numbers.
use momo_hdb.Base.{ℕ, ◌≡◌, refl, some, List, [], ◌∷◌, arith}
use momo_hdb.Ring.{Ring, make, try_push, next_index}
use momo_hdb.Ring.Refine.{Holds, try_push_room}
use momo_hdb.Ring.Batch.{make-Holds}
use momo_hdb.Ring.Threads.{Producer, Consumer, System, Reach, here, next, push_check, Carries}
use momo_hdb.Ring.Threads.Fifo.{Reach-Carries}
use momo_hdb.Ring.Race.{Duel, Moves, idle, popped_twice}

abbrev two_slots : Ring ℕ
two_slots = record { cap = 2; mask = 1; buf = 0 ∷ 0 ∷ []; head = 0; tail = 0 }

abbrev clear : ℕ → ℕ
clear n = 0

made : make 0 2 ≡ some two_slots
unfolding make
made = refl

empty : Holds two_slots []
empty = make-Holds 0 2 (omega arith) made

one_in : Holds (try_push 7 two_slots).1 (7 ∷ [])
one_in = (try_push_room 7 [] empty (omega arith)).1

abbrev at_rest : System ℕ
at_rest = record {
  ring = two_slots;
  producer = Producer.outside;
  consumer = Consumer.outside;
  sent = [];
  received = [];
}

at_rest-Carries : Carries at_rest []
at_rest-Carries = record {
  valid = empty.valid;
  filled = omega arith;
  ends = empty.ends;
  history = refl;
  pushing = tt;
  popping = tt;
}

abbrev checking : System ℕ
checking = record at_rest { producer = Producer.checked 7 0 (next_index two_slots 0) }

room_left : next_index two_slots 0 ≡ 0 → ⊥
unfolding next_index
room_left e = omega arith

checked_one : Reach clear at_rest checking
checked_one = next here (push_check at_rest 7 refl room_left)

Reach-Carries_example : (q' : List ℕ) × Carries checking q'
Reach-Carries_example = Reach-Carries clear [] at_rest-Carries checked_one

popped_twice_example :
    (s : Duel ℕ) × Moves clear (idle (try_push 7 two_slots).1) s
    × (s.got_left ≡ 7 ∷ [])
    × (s.got_right ≡ clear 7 ∷ [])
    × (s.ring.tail ≡ next_index (try_push 7 two_slots).1 (try_push 7 two_slots).1.tail)
popped_twice_example = popped_twice clear 7 [] one_in
