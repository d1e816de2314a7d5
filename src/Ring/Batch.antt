-- ===== src/Ring/Batch.antt =====
-- `pop_many`, and a ring fresh from the constructor.
use momo_hdb.Base.{ℕ, zero, suc, ◌+◌, ◌<◌, ◌≡◌, ap, ◌∙◌, min, arith}
use momo_hdb.Base.{List, [], ◌∷◌, ◌++◌, length, some, take, drop, append-nil, append_assoc}
use momo_hdb.Ring.{Ring, size_mod, make, try_pop, pop_many_loop, pop_many}
use momo_hdb.Ring.Inv.{IsValid, ahead_zero, make-IsValid}
use momo_hdb.Ring.Refine.{Holds, try_pop_empty, try_pop_cons}

module _ {ℓ} {T : Type ℓ} where
  make_starts :
      (blank : T) (capacity : ℕ) {r : Ring T}
      → make blank capacity ≡ some r
      → (r.head ≡ 0) × (r.tail ≡ 0)
  unfolding make
  make_starts blank capacity e = ground arith

  -- A ring that the constructor makes holds nothing.
  pub make-Holds :
      (blank : T) (capacity : ℕ) {r : Ring T}
      → capacity < size_mod
      → make blank capacity ≡ some r
      → Holds r []
  make-Holds blank capacity {r} word e =
      let v : IsValid r = make-IsValid blank capacity word e in
      let (h, t) = make_starts blank capacity e in
      record {
        valid = v;
        stored = tt;
        filled = omega (arith, v.two);
        ends = h ∙ rw (ahead_zero r.cap r.tail v.tail_in) (omega (arith, t));
      }

  pub make-cap :
      (blank : T) (capacity : ℕ) {r : Ring T} → make blank capacity ≡ some r → r.cap ≡ capacity
  unfolding make
  make-cap blank capacity e = ground arith

  -- What a batch of at most `k` pops leaves and hands out.
  record Popped (k n : ℕ) (out q : List T) (res : ℕ × List T × Ring T) : Type ℓ where
    pub count : res.0 ≡ n + min k (length q)
    pub batch : res.1 ≡ out ++ take k q
    pub rest : Holds res.2 (drop k q)

  module _ (moved : T → T) where
    pop_many_loop-Popped :
        (k n : ℕ) (tmp : T) (out : List T) {r : Ring T} (q : List T)
        → Holds r q
        → Popped k n out q (pop_many_loop moved k n tmp out r)
    unfolding pop_many_loop
    pop_many_loop-Popped zero n tmp out q h = record {
      count = omega arith;
      batch = rw append-nil;
      rest = h;
    }
    pop_many_loop-Popped (suc k) n tmp out [] h =
        rw (try_pop_empty moved tmp h)
          (record { count = omega arith; batch = rw append-nil; rest = h })
    pop_many_loop-Popped (suc k) n tmp out {r} (x ∷ q) h =
        let (got, eq, next) = try_pop_cons moved tmp x q h in
        let ih =
          pop_many_loop-Popped k (n + 1) (moved (try_pop moved tmp r).1)
            (out ++ ((try_pop moved tmp r).1 ∷ [])) q next in
        rw got (record {
          count = omega (arith, ih.count);
          batch =
              ih.batch
              ∙ append_assoc out ((try_pop moved tmp r).1 ∷ []) (take k q)
              ∙ ap (λ y. out ++ (y ∷ take k q)) eq;
          rest = ih.rest;
        })

    -- `pop_many(out, n)` appends the oldest elements to `out`, in order and `n` at most, says how many,
    -- and leaves the others queued.
    pub pop_many_lem :
        (blank : T) (out : List T) (n : ℕ) {r : Ring T} (q : List T)
        → Holds r q
        → let (count, out', r') = pop_many moved blank out n r in
          (count ≡ min n (length q)) × (out' ≡ out ++ take n q) × Holds r' (drop n q)
    unfolding pop_many
    pop_many_lem blank out n q h =
        let p = pop_many_loop-Popped n 0 blank out q h in (omega (arith, p.count), p.batch, p.rest)
