-- ===== src/Ring/Refine.antt =====
-- A valid ring behaves as a queue that holds at most one element less than it has slots.
use momo_hdb.Base.{
  ℕ, zero, suc, ◌+◌, ◌-◌, ◌≤◌, ◌<◌, ◌≡◌, ◌≢◌, refl, sym, ap, subst, ◌∙◌, true, false, arith,
}
use momo_hdb.Base.{List, [], ◌∷◌, ◌++◌, length, some, set, get_elem?, get_or}
use momo_hdb.Base.{
  length-set, length-append, get_elem?-set_self, get_elem?-set_ne, get_elem?→get_or,
}
use momo_hdb.Ring.{Ring, next_index, try_push, try_pop}
use momo_hdb.Ring.Inv.{
  IsValid, ahead, ahead-lt, ahead-ne, ahead_zero, ahead-suc, ahead_next, ahead_round,
  next_index_lem,
}

pub go_round : (c i : ℕ) → 2 ≤ c → i < c → ahead c (ahead c i 1) (c - 1) ≡ i
go_round c i two lt =
    sym (ahead-suc c i (c - 1) lt (omega arith)) ∙ ahead_round c i (c - 1) lt (omega arith)

module _ {ℓ} {T : Type ℓ} where
  -- The elements of `q` lie in the slots from `s` on, going round at `cap`.
  abbrev pub Stored : ℕ → List T → ℕ → List T → Type ℓ
  Stored cap buf s [] = Unit
  Stored cap buf s (x ∷ q) = (get_elem? buf s ≡ some x) × Stored cap buf (ahead cap s 1) q

  -- The ring `r` holds exactly `q`, oldest first.
  pub record Holds (r : Ring T) (q : List T) : Type ℓ where
    pub valid : IsValid r
    pub stored : Stored r.cap r.buf r.tail q
    pub filled : length q < r.cap
    pub ends : r.head ≡ ahead r.cap r.tail (length q)

  -- A write `d` places on, behind the elements, leaves them.
  pub Stored-set :
      (cap : ℕ) (buf : List T) (s d : ℕ) (x : T) (q : List T)
      → s < cap
      → length q ≤ d
      → d < cap
      → Stored cap buf s q
      → Stored cap (set buf (ahead cap s d) x) s q
  Stored-set size buf s d x [] hs hq hd st = tt
  Stored-set size buf s zero x (y ∷ q) hs hq hd st = absurd (omega arith)
  Stored-set size buf s (suc d) x (y ∷ q) hs hq hd st =
      let rest =
        Stored-set size buf (ahead size s 1) d x q (ahead-lt size s 1 hs (omega arith))
          (omega arith) (omega arith) st.1 in
      (
        get_elem?-set_ne buf x (ahead-ne size s d hs hd) ∙ st.0,
        subst (λ i. Stored size (set buf i x) (ahead size s 1) q)
            (sym (ahead-suc size s d hs (omega arith))) rest,
      )

  -- And a write just behind them adds one.
  pub Stored-snoc :
      (cap : ℕ) (buf : List T) (s : ℕ) (x : T) (q : List T)
      → s < cap
      → length q < cap
      → length buf ≡ cap
      → Stored cap buf s q
      → Stored cap (set buf (ahead cap s (length q)) x) s (q ++ (x ∷ []))
  Stored-snoc size buf s x [] hs hq hb st =
      (rw (ahead_zero size s hs) (get_elem?-set_self buf s x (omega arith)), tt)
  Stored-snoc size buf s x (y ∷ q) hs hq hb st =
      let rest =
        Stored-snoc size buf (ahead size s 1) x q (ahead-lt size s 1 hs (omega arith)) (omega arith)
          hb st.1 in
      (
        get_elem?-set_ne buf x (ahead-ne size s (length q) hs hq) ∙ st.0,
        subst (λ i. Stored size (set buf i x) (ahead size s 1) (q ++ (x ∷ [])))
            (sym (ahead-suc size s (length q) hs (omega arith))) rest,
      )

  pushed : T → Ring T → Ring T
  pushed v r = record r { buf = set r.buf r.head v; head = next_index r r.head }

  try_push-eq :
      (v : T) (r : Ring T) → next_index r r.head ≢ r.tail → try_push v r ≡ (true, pushed v r)
  unfolding try_push pushed
  try_push-eq v r ne = ground arith

  next_head :
      {r : Ring T} (q : List T)
      → Holds r q
      → next_index r r.head ≡ ahead r.cap r.tail (suc (length q))
  next_head {r} q h =
      next_index_lem r.head h.valid h.valid.head_in
      ∙ rw h.ends (ahead_next r.cap r.tail (length q) h.valid.tail_in h.filled)

  pushed-Holds :
      (v : T) {r : Ring T} (q : List T)
      → Holds r q
      → length q + 1 < r.cap
      → Holds (pushed v r) (q ++ (v ∷ []))
  unfolding pushed
  pushed-Holds v {r} q h room =
      let w = h.valid in
      let grown : length (q ++ (v ∷ [])) ≡ suc (length q) =
        omega (arith, length-append q (v ∷ [])) in
      let inside : ahead r.cap r.tail (suc (length q)) < r.cap =
        ahead-lt r.cap r.tail (suc (length q)) w.tail_in (omega arith) in
      record {
        valid = record {
          two = w.two;
          word = w.word;
          masked = w.masked;
          slots = length-set r.buf r.head v ∙ w.slots;
          head_in = rw (next_head q h) inside;
          tail_in = w.tail_in;
        };
        stored = rw h.ends (Stored-snoc r.cap r.buf r.tail v q w.tail_in h.filled w.slots h.stored);
        filled = omega (arith, grown);
        ends = next_head q h ∙ ap (ahead r.cap r.tail) (sym grown);
      }

  -- `try_push` on a ring with room succeeds, and `v` joins the queue at its end.
  pub try_push_room :
      (v : T) {r : Ring T} (q : List T)
      → Holds r q
      → length q + 1 < r.cap
      → ((try_push v r).0 ≡ true) × Holds (try_push v r).1 (q ++ (v ∷ []))
  try_push_room v {r} q h room =
      let ne : next_index r r.head ≢ r.tail =
        rw (next_head q h) (ahead-ne r.cap r.tail (length q) h.valid.tail_in (omega arith)) in
      rw (try_push-eq v r ne) (refl, pushed-Holds v q h room)

  -- On a full ring `try_push` refuses and changes nothing.
  pub try_push_full :
      (v : T) {r : Ring T} (q : List T)
      → Holds r q
      → length q + 1 ≡ r.cap
      → try_push v r ≡ (false, r)
  unfolding try_push
  try_push_full v {r} q h full =
      let meet : next_index r r.head ≡ r.tail =
        next_head q h ∙ ahead_round r.cap r.tail (length q) h.valid.tail_in (omega arith) in
      ground arith

  -- On an empty ring `try_pop` refuses and changes nothing.
  pub try_pop_empty :
      (moved : T → T) (out : T) {r : Ring T} → Holds r [] → try_pop moved out r ≡ (false, out, r)
  unfolding try_pop
  try_pop_empty moved out {r} h =
      let meet : r.head ≡ r.tail = h.ends ∙ ahead_zero r.cap r.tail h.valid.tail_in in ground arith

  popped : (T → T) → T → Ring T → Ring T
  popped moved x r = record r { buf = set r.buf r.tail (moved x); tail = next_index r r.tail }

  try_pop-eq :
      (moved : T → T) (out x : T) (r : Ring T)
      → r.tail ≢ r.head
      → get_or r.buf r.tail out ≡ x
      → try_pop moved out r ≡ (true, x, popped moved x r)
  unfolding try_pop popped
  try_pop-eq moved out x r ne e = ground arith

  popped-Holds :
      (moved : T → T) (x : T) {r : Ring T} (q : List T)
      → Holds r (x ∷ q)
      → Holds (popped moved x r) q
  unfolding popped
  popped-Holds moved x {r} q h =
      let w = h.valid in
      let next : next_index r r.tail ≡ ahead r.cap r.tail 1 = next_index_lem r.tail w w.tail_in in
      let inside : ahead r.cap r.tail 1 < r.cap = ahead-lt r.cap r.tail 1 w.tail_in w.two in
      let round : ahead r.cap (ahead r.cap r.tail 1) (r.cap - 1) ≡ r.tail =
        go_round r.cap r.tail w.two w.tail_in in
      record {
        valid = record {
          two = w.two;
          word = w.word;
          masked = w.masked;
          slots = length-set r.buf r.tail (moved x) ∙ w.slots;
          head_in = w.head_in;
          tail_in = rw next inside;
        };
        stored =
            subst (λ s. Stored r.cap (set r.buf r.tail (moved x)) s q) (sym next)
              (subst (λ i. Stored r.cap (set r.buf i (moved x)) (ahead r.cap r.tail 1) q) round
                (Stored-set r.cap r.buf (ahead r.cap r.tail 1) (r.cap - 1) (moved x) q inside
                  (omega (arith, h.filled)) (omega (arith, w.two)) h.stored.1));
        filled = omega (arith, h.filled);
        ends =
            rw next
              (h.ends ∙ ahead-suc r.cap r.tail (length q) w.tail_in (omega (arith, h.filled)));
      }

  -- On a ring with elements `try_pop` hands out the oldest, and the rest stays queued, whatever the
  -- move leaves in the slot.
  pub try_pop_cons :
      (moved : T → T) (out x : T) {r : Ring T} (q : List T)
      → Holds r (x ∷ q)
      → let (got, y, r') = try_pop moved out r in (got ≡ true) × (y ≡ x) × Holds r' q
  try_pop_cons moved out x {r} q h =
      let ne : r.tail ≢ r.head =
        λ e. ahead-ne r.cap r.tail (length q) h.valid.tail_in h.filled (sym h.ends ∙ sym e) in
      rw (try_pop-eq moved out x r ne (get_elem?→get_or r.buf r.tail out h.stored.0))
        (refl, refl, popped-Holds moved x q h)
