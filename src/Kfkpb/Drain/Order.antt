-- ===== src/Kfkpb/Drain/Order.antt =====
-- That draining takes every queued event, queue by queue.
use momo_hdb.Base.{
  ℕ, zero, suc, ◌+◌, ◌-◌, ◌%◌, ◌<◌, ◌≤◌, ◌≡◌, refl, sym, ap, subst, ◌∙◌, ◌==◌, Option, none, some,
  List, [], ◌∷◌, ◌++◌, map, take, drop, length, get_elem?, arith, append_assoc, append-nil,
  length-append, length-map, Bool-cases, inl, inr, ==_iff,
}
use native.Mathlib.Nat.{mod-eq-sub-mod, mod-eq_of_lt, mod-lt}
use momo_hdb.Ring.Refine.{Holds, try_pop_empty}
use momo_hdb.Kfkpb.{Event, Client, moved_ptr}
use momo_hdb.Kfkpb.Drain
use momo_hdb.Kfkpb.Drain.Sweep.{AllHold, none_left, one_more, concat, Swept, sweep}

AllHold-take :
    (n : ℕ) {qs : List Drain.EventQueue} {evss : List (List Event)}
    → AllHold qs evss
    → AllHold (take n qs) (take n evss)
AllHold-take zero h = none_left
AllHold-take (suc n) none_left = none_left
AllHold-take (suc n) (one_more h hs) = one_more h (AllHold-take n hs)

AllHold-drop :
    (n : ℕ) {qs : List Drain.EventQueue} {evss : List (List Event)}
    → AllHold qs evss
    → AllHold (drop n qs) (drop n evss)
AllHold-drop zero h = h
AllHold-drop (suc n) none_left = none_left
AllHold-drop (suc n) (one_more h hs) = AllHold-drop n hs

AllHold-append :
    {qs qs' : List Drain.EventQueue} {evss evss' : List (List Event)}
    → AllHold qs evss
    → AllHold qs' evss'
    → AllHold (qs ++ qs') (evss ++ evss')
AllHold-append none_left k = k
AllHold-append (one_more h hs) k = one_more h (AllHold-append hs k)

take-drop : {A : Type 0} (n : ℕ) (xs : List A) → take n xs ++ drop n xs ≡ xs
take-drop zero xs = refl
take-drop (suc n) [] = refl
take-drop (suc n) (x ∷ xs) = ap (◌∷◌ x) (take-drop n xs)

length-take_le : {A : Type 0} (n : ℕ) (xs : List A) → n ≤ length xs → length (take n xs) ≡ n
length-take_le zero xs le = refl
length-take_le (suc n) [] le = absurd (omega arith)
length-take_le (suc n) (x ∷ xs) le = ap suc (length-take_le n xs (omega arith))

-- No events at all, in as many queues.
abbrev pub all_empty : List (List Event) → List (List Event)
all_empty = map (λ evs. [])

all_empty-take-drop :
    (s : ℕ) (evss : List (List Event))
    → all_empty (take s evss) ++ all_empty (drop s evss) ≡ all_empty evss
all_empty-take-drop zero evss = refl
all_empty-take-drop (suc s) [] = refl
all_empty-take-drop (suc s) (evs ∷ evss) = ap (◌∷◌ []) (all_empty-take-drop s evss)

some_inj : {A : Type 0} {x y : A} → some x ≡ some y → x ≡ y
some_inj e = cc

Holds-all_empty :
    {qs : List Drain.EventQueue} {q : Drain.EventQueue} (evss : List (List Event)) (i : ℕ)
    → AllHold qs (all_empty evss)
    → get_elem? qs i ≡ some q
    → Holds q []
Holds-all_empty [] i none_left at = cc
Holds-all_empty (evs ∷ evss) zero (one_more {q = first} h hs) at =
    subst (λ r. Holds r []) (some_inj at) h
Holds-all_empty (evs ∷ evss) (suc i) (one_more h hs) at = Holds-all_empty evss i hs at

take_first_empty :
    (evss : List (List Event)) (left i start : ℕ) (out : List Event) (qs : List Drain.EventQueue)
    → AllHold qs (all_empty evss)
    → Drain.take_first left i start out qs ≡ (out, qs)
unfolding Drain.take_first
take_first_empty evss zero i start out qs h = refl
take_first_empty evss (suc left) i start out qs h =
    at (take_first_empty evss left (i + 1) start out qs h) (get_elem? qs ((start + i) % length qs))
      refl
  where
    at :
        Drain.take_first left (i + 1) start out qs ≡ (out, qs)
        → (o : Option Drain.EventQueue) → get_elem? qs ((start + i) % length qs) ≡ o
        → Drain.take_first (suc left) i start out qs ≡ (out, qs)
    at ih none e = rw e ih
    at ih (some q) e =
        rw (e, try_pop_empty moved_ptr none (Holds-all_empty evss ((start + i) % length qs) h e)) ih

turn : (s n j : ℕ) → n ≤ s + j → s + j < n + n → (s + j) % n ≡ s + j - n
turn s n j lo hi = mod-eq-sub-mod lo ∙ mod-eq_of_lt (omega arith)

concat-append : (a b : List (List Event)) → concat (a ++ b) ≡ concat a ++ concat b
concat-append [] b = refl
concat-append (x ∷ a) b =
    ap (◌++◌ x) (concat-append a b) ∙ sym (append_assoc x (concat a) (concat b))

AllHold-length :
    {qs : List Drain.EventQueue} {evss : List (List Event)}
    → AllHold qs evss
    → length qs ≡ length evss
AllHold-length none_left = refl
AllHold-length (one_more h hs) = ap suc (AllHold-length hs)

run_eq :
    {a a' : ℕ} {b b' : List Event} (c : List Drain.EventQueue)
    → a ≡ a'
    → b ≡ b'
    → ◌≡◌ {A = ℕ × List Event × List Drain.EventQueue} (a, b, c) (a', b', c)
run_eq c e f = cc

length-take-drop :
    (s : ℕ) (qs : List Drain.EventQueue) → length qs ≡ length (take s qs) + length (drop s qs)
length-take-drop s qs =
    omega (arith, length-append (take s qs) (drop s qs), ap length (take-drop s qs))

-- From the start to the end of the queues.
sweep_there :
    (s : ℕ) (out : List Event) (qs : List Drain.EventQueue) (evss : List (List Event))
    → AllHold qs evss
    → s < length qs
    → Swept
        (take s qs)
        []
        (drop s evss)
        s
        (length (drop s qs))
        s
        0
        out
        (Drain.drain_rounds (length qs) 0 s 0 out qs)
sweep_there s out qs evss h le =
    let short : length (take s qs) ≡ s = length-take_le s qs (omega arith) in
    subst
      (λ i.
        Swept (take s qs) [] (drop s evss) s i s 0 out
          (Drain.drain_rounds (length qs) 0 s 0 out qs))
      (zero_add (length (drop s qs)))
      (subst
        (λ all.
          Swept (take s qs) [] (drop s evss) s (0 + length (drop s qs)) s 0 out
            (Drain.drain_rounds (length qs) 0 s 0 out all))
        (ap (◌++◌ (take s qs)) (append-nil (drop s qs)) ∙ take-drop s qs)
        (sweep (take s qs) (drop s qs) [] (drop s evss) (length qs) (length qs) s 0 s 0 out
          (AllHold-drop s h) (omega (arith, length-take-drop s qs))
          (omega (arith, length-take-drop s qs))
          (λ j lo hi. omega (
            arith,
            mod-eq_of_lt {n = s + j} {m = length qs} (omega (arith, length-take-drop s qs)),
          ))))
  where
    zero_add : (n : ℕ) → 0 + n ≡ n
    zero_add n = omega arith

-- From the first queue to the start, `post` being the queues from there on.
sweep_back :
    (s drained : ℕ) (out : List Event) (qs post : List Drain.EventQueue) (evss : List (List Event))
    → AllHold qs evss
    → s < length qs
    → length post ≡ length (drop s qs)
    → Swept [] post
        (take s evss)
        0
        (length (drop s qs) + length (take s qs))
        s
        drained
        out
        (Drain.drain_rounds s (length (drop s qs)) s drained out (take s qs ++ post))
sweep_back s drained out qs post evss h le same =
    let short : length (take s qs) ≡ s = length-take_le s qs (omega arith) in
    sweep [] (take s qs) post (take s evss) (length qs) s 0 (length (drop s qs)) s drained out
      (AllHold-take s h) (omega arith) (omega (arith, length-take-drop s qs))
      (λ j lo hi. omega (
        arith,
        length-take-drop s qs,
        turn s (length qs) j (omega (arith, length-take-drop s qs))
            (omega (arith, length-take-drop s qs)),
      ))

drain_rounds_lem :
    (s : ℕ) (out : List Event) (qs : List Drain.EventQueue) (evss : List (List Event))
    → AllHold qs evss
    → s < length qs
    → (after : List Drain.EventQueue) × AllHold after (all_empty evss)
      × (Drain.drain_rounds (length qs) 0 s 0 out qs ≡ (
        length (concat (drop s evss ++ take s evss)),
        out ++ concat (drop s evss ++ take s evss),
        after,
      ))
unfolding Drain.drain_rounds
drain_rounds_lem s out qs evss h le =
    let there = concat (drop s evss) in
    let back = concat (take s evss) in
    let first = sweep_there s out qs evss h le in
    let kept : length (first.after ++ []) ≡ length (drop s qs) =
      ap length (append-nil first.after)
      ∙ AllHold-length first.empty
      ∙ length-map (drop s evss) (λ evs. [])
      ∙ sym (AllHold-length (AllHold-drop s h)) in
    let second =
      sweep_back s (0 + length there) (out ++ there) qs (first.after ++ []) evss h le kept in
    (
      second.after ++ (first.after ++ []),
      subst (AllHold (second.after ++ (first.after ++ [])))
          (ap (◌++◌ (all_empty (take s evss))) (append-nil (all_empty (drop s evss)))
            ∙ all_empty-take-drop s evss)
          (AllHold-append second.empty (AllHold-append first.empty none_left)),
      first.goes_on
          ∙ second.goes_on
          ∙ run_eq (second.after ++ (first.after ++ []))
              (rw (concat-append (drop s evss) (take s evss))
                (omega (arith, length-append there back)))
              (append_assoc out there back
                ∙ ap (◌++◌ out) (sym (concat-append (drop s evss) (take s evss)))),
    )

no_queues :
    (s : ℕ) {qs : List Drain.EventQueue} {evss : List (List Event)}
    → AllHold qs evss
    → length qs ≡ 0
    → ([] ≡ concat (drop s evss ++ take s evss)) × AllHold qs (all_empty evss)
no_queues zero none_left e = (refl, none_left)
no_queues (suc s) none_left e = (refl, none_left)
no_queues s (one_more h hs) e = absurd (omega arith)

-- For queues that hold events, and none queued meanwhile: `drainTo` appends every queued event to
-- `out`, one queue after the other, each in its order, beginning with the queue at the counter's turn
-- and going round; it leaves every queue empty.
pub drain_to_lem :
    (out : List Event) (c : Client) (evss : List (List Event))
    → AllHold c.evt_qs evss
    → let (out', c') = Drain.drain_to out c in
      let s = c.drain_rr % length c.evt_qs in
      (out' ≡ out ++ concat (drop s evss ++ take s evss)) × AllHold c'.evt_qs (all_empty evss)
unfolding Drain.drain_to
drain_to_lem out c evss h = elim (Bool-cases (length c.evt_qs == 0)) [
  | inl none_at_all ↦
      let (nothing, empty) =
        no_queues (c.drain_rr % length c.evt_qs) h ((==_iff (length c.evt_qs) 0).0 none_at_all) in
      rw none_at_all (sym (append-nil out) ∙ ap (◌++◌ out) nothing, empty)
  | inr some_queue ↦
      let n = length c.evt_qs in
      let s = c.drain_rr % n in
      let (after, empty, run) =
        drain_rounds_lem s out c.evt_qs evss h
          (mod-lt c.drain_rr {m = n} (ground (arith, some_queue))) in
      let all = concat (drop s evss ++ take s evss) in
      elim (Bool-cases (length all == 0)) [
        | inl none_drained ↦
            rw (some_queue, run, none_drained, take_first_empty evss n 0 s (out ++ all) after empty)
              (refl, empty)
        | inr drained ↦ rw (some_queue, run, drained) (refl, empty)
      ]
]
