-- ===== src/Kfkpb/Drain/Sweep.antt =====
-- What one queue gives when it is drained, and a run of the rounds over several queues.
use momo_hdb.Base.{
  ℕ, zero, suc, ◌+◌, ◌%◌, ◌<◌, ◌≤◌, ◌≡◌, refl, sym, ap, ◌∙◌, Option, none, some, List, [], ◌∷◌,
  ◌++◌, map, length, get_elem?, set, arith, append_assoc, append-nil, length-append, length-map,
}
use momo_hdb.Ring.{try_pop}
use momo_hdb.Ring.Refine.{Holds, try_pop_cons, try_pop_empty}
use momo_hdb.Kfkpb.{Event, moved_ptr}
use momo_hdb.Kfkpb.Drain

-- The queues hold these events, oldest first.
pub data AllHold : List Drain.EventQueue → List (List Event) → Type 0 where
  none_left : AllHold [] []
  one_more :
      {q : Drain.EventQueue} {qs : List Drain.EventQueue} {evs : List Event}
      {rest : List (List Event)}
      → Holds q (map some evs)
      → AllHold qs rest
      → AllHold (q ∷ qs) (evs ∷ rest)

abbrev pub concat : List (List Event) → List Event
concat [] = []
concat (evs ∷ rest) = evs ++ concat rest

record Emptied (drained : ℕ) (out evs : List Event) (r : ℕ × List Event × Drain.EventQueue)
    : Type 0 where
  count : r.0 ≡ drained + length evs
  taken : r.1 ≡ out ++ evs
  pub empty : Holds r.2 []

drain_queue_lem :
    (fuel : ℕ) (ev : Option Event) (drained : ℕ) (out evs : List Event) (q : Drain.EventQueue)
    → length evs < fuel
    → Holds q (map some evs)
    → Emptied drained out evs (Drain.drain_queue fuel ev drained out q)
unfolding Drain.drain_queue
drain_queue_lem zero ev drained out evs q le h = absurd (omega arith)
drain_queue_lem (suc fuel) ev drained out [] q le h =
    rw (try_pop_empty moved_ptr ev h)
      (record { count = omega arith; taken = sym (append-nil out); empty = h })
drain_queue_lem (suc fuel) ev drained out (x ∷ evs) q le h =
    let (got, eq, rest) = try_pop_cons moved_ptr ev (some x) (map some evs) h in
    let ih =
      drain_queue_lem fuel (some x) (drained + 1) (out ++ (x ∷ [])) evs (try_pop moved_ptr ev q).2
        (omega arith) rest in
    rw (got, eq)
      (record {
        count = omega (arith, ih.count);
        taken = ih.taken ∙ append_assoc out (x ∷ []) evs;
        empty = ih.empty;
      })

get_elem?-middle :
    (pre suf : List Drain.EventQueue) (q : Drain.EventQueue)
    → get_elem? (pre ++ (q ∷ suf)) (length pre) ≡ some q
get_elem?-middle [] suf q = refl
get_elem?-middle (x ∷ pre) suf q = get_elem?-middle pre suf q

set-middle :
    (pre suf : List Drain.EventQueue) (q q' : Drain.EventQueue)
    → set (pre ++ (q ∷ suf)) (length pre) q' ≡ (pre ++ (q' ∷ [])) ++ suf
set-middle [] suf q q' = refl
set-middle (x ∷ pre) suf q q' = ap (◌∷◌ x) (set-middle pre suf q q')

-- What the rounds over the queues between `pre` and `post` do: they go on with those queues empty.
pub record Swept (pre post : List Drain.EventQueue) (evss : List (List Event))
    (more i start drained : ℕ) (out : List Event) (run : ℕ × List Event × List Drain.EventQueue)
    : Type 0 where
  pub after : List Drain.EventQueue
  pub empty : AllHold after (map (λ evs. []) evss)
  pub goes_on :
      run
      ≡ Drain.drain_rounds more i start
          (drained + length (concat evss))
          (out ++ concat evss)
          (pre ++ (after ++ post))

drain_rounds_step :
    (pre suf : List Drain.EventQueue) (q : Drain.EventQueue) (left i start drained : ℕ)
    (out evs : List Event)
    → (start + i) % length (pre ++ (q ∷ suf)) ≡ length pre
    → Holds q (map some evs)
    → (q' : Drain.EventQueue) × Holds q' []
      × (Drain.drain_rounds (suc left) i start drained out (pre ++ (q ∷ suf))
          ≡ Drain.drain_rounds left
              (i + 1)
              start
              (drained + length evs)
              (out ++ evs)
              ((pre ++ (q' ∷ [])) ++ suf))
unfolding Drain.drain_rounds
drain_rounds_step pre suf q left i start drained out evs at h =
    let r = Drain.drain_queue q.cap none drained out q in
    let e : Emptied drained out evs r =
      drain_queue_lem q.cap none drained out evs q
        (omega (arith, h.filled, length-map evs (λ (ev : Event). some ev))) h in
    (
      r.2,
      e.empty,
      rw (at, get_elem?-middle pre suf q, set-middle pre suf q r.2, e.count, e.taken) refl,
    )

pub rounds_eq :
    {m m' i i' drained drained' : ℕ} {out out' : List Event} {qs qs' : List Drain.EventQueue}
    (start : ℕ)
    → m ≡ m'
    → i ≡ i'
    → drained ≡ drained'
    → out ≡ out'
    → qs ≡ qs'
    → Drain.drain_rounds m i start drained out qs ≡ Drain.drain_rounds m' i' start drained' out' qs'
rounds_eq start em ei ed eo eq = cc

pub sweep :
    (pre suf post : List Drain.EventQueue) (evss : List (List Event)) (n m more i start drained : ℕ)
    (out : List Event)
    → AllHold suf evss
    → m ≡ length suf + more
    → n ≡ length pre + (length suf + length post)
    → ((j : ℕ) → i ≤ j → j < i + length suf → (start + j) % n + i ≡ length pre + j)
    → Swept pre post evss more
        (i + length suf)
        start
        drained
        out
        (Drain.drain_rounds m i start drained out (pre ++ (suf ++ post)))
sweep pre [] post [] n m more i start drained out none_left e total at = record {
  after = [];
  empty = none_left;
  goes_on = rounds_eq start (omega arith) (omega arith) (omega arith) (sym (append-nil out)) refl;
}
sweep pre [] post (evs ∷ evss) n m more i start drained out h e total at = elim h [ ]
sweep pre (q ∷ suf) post [] n m more i start drained out h e total at = elim h [ ]
sweep pre (q ∷ suf) post (evs ∷ evss) n zero more i start drained out (one_more h hs) e total at =
    absurd (omega arith)
sweep pre (q ∷ suf) post (evs ∷ evss) n (suc m) more i start drained out (one_more h hs) e total
      at =
    let whole : length (pre ++ (q ∷ (suf ++ post))) ≡ n =
      omega (arith, length-append pre (q ∷ (suf ++ post)), length-append suf post) in
    let here : (start + i) % length (pre ++ (q ∷ (suf ++ post))) ≡ length pre =
      rw whole (omega (arith, at i (omega arith) (omega arith))) in
    let (q', none_in, step) =
      drain_rounds_step pre (suf ++ post) q m i start drained out evs here h in
    let next : Swept (pre ++ (q' ∷ [])) post evss more (i + 1 + length suf) start
        (drained + length evs) (out ++ evs)
        (Drain.drain_rounds m (i + 1) start (drained + length evs) (out ++ evs)
          ((pre ++ (q' ∷ [])) ++ (suf ++ post))) =
      sweep (pre ++ (q' ∷ [])) suf post evss n m more (i + 1) start (drained + length evs)
        (out ++ evs) hs (omega arith) (omega (arith, length-append pre (q' ∷ [])))
        (λ j lo hi. omega (arith, length-append pre (q' ∷ []), at j (omega arith) (omega arith))) in
    record {
      after = q' ∷ next.after;
      empty = one_more none_in next.empty;
      goes_on =
          step
          ∙ next.goes_on
          ∙ rounds_eq start refl (omega arith) (omega (arith, length-append evs (concat evss)))
              (append_assoc out evs (concat evss))
              (append_assoc pre (q' ∷ []) (next.after ++ post));
    }
