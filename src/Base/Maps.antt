-- ===== src/Base/Maps.antt =====
-- Association lists for `std::unordered_map`: the list stands for the order in which the table
-- iterates, and its keys are distinct (`IsMap`).
use Prim.Native.Nat.{suc}
use mathlib.Core.Path.{◌≡◌, refl, sym, ◌∙◌}
use mathlib.Core.Logic.{inl, inr}
use mathlib.Core.Bool.{Bool, false, ◌&&◌, ◌||◌}
use mathlib.Core.Option.{Option, none, some}
use mathlib.Core.List.{List, [], ◌∷◌}
use native.Mathlib.Omega.{arith}
use momo_hdb.Base.Tests.{Eq, if◌then◌else◌, Bool-cases}
use momo_hdb.Base.Lists.{length}

unfoldable pub passes {κ} : {V : Type κ} → (V → Bool) → Option V → Bool
passes p none = false
passes p (some v) = p v

module _ {ℓ κ} {K : Type ℓ} {V : Type κ} ⦃e : Eq K⦄ where
  -- `find`
  unfoldable pub find : K → List (K × V) → Option V
  find k [] = none
  find k ((j, v) ∷ m) = if e.beq j k then some v else find k m

  -- `m[k] = v`: a key that is new comes in at the end.
  unfoldable pub insert : K → V → List (K × V) → List (K × V)
  insert k v [] = (k, v) ∷ []
  insert k v ((j, w) ∷ m) = if e.beq j k then (j, v) ∷ m else (j, w) ∷ insert k v m

  -- The keys are distinct.
  abbrev pub IsMap : List (K × V) → Type κ
  IsMap [] = Unit
  IsMap ((k, v) ∷ m) = (find k m ≡ none) × IsMap m

  pub find-insert :
      (k j : K) (v : V) (m : List (K × V))
      → find j (insert k v m) ≡ (if e.beq k j then some v else find j m)
  unfolding find insert
  find-insert k j v [] = refl
  find-insert k j v ((i, w) ∷ m) =
      ground (arith, e.beq_iff k j, e.beq_iff i k, e.beq_iff i j, find-insert k j v m)

  find-insert_ne :
      (k j : K) (v : V) (m : List (K × V))
      → e.beq j k ≡ false
      → find j m ≡ none
      → find j (insert k v m) ≡ none
  find-insert_ne k j v m other h = ground (arith, find-insert k j v m, e.beq_iff j k, e.beq_iff k j)

  pub insert-IsMap : (k : K) (v : V) (m : List (K × V)) → IsMap m → IsMap (insert k v m)
  unfolding insert find
  insert-IsMap k v [] h = (refl, tt)
  insert-IsMap k v ((j, w) ∷ m) (new, h) = elim (Bool-cases (e.beq j k)) [
    | inl same ↦ rw same (new, h)
    | inr other ↦ rw other (find-insert_ne k j v m other new, insert-IsMap k v m h)
  ]

  -- Whether some entry for `k` passes the test.
  unfoldable pub any_at : K → (V → Bool) → List (K × V) → Bool
  any_at k p [] = false
  any_at k p ((j, v) ∷ m) = (e.beq j k && p v) || any_at k p m

  any_at_missing :
      (k : K) (p : V → Bool) (m : List (K × V)) → find k m ≡ none → any_at k p m ≡ false
  unfolding any_at find
  any_at_missing k p [] h = refl
  any_at_missing k p ((j, v) ∷ m) h = ground (arith, any_at_missing k p m)

  -- In a map the only entry for `k` is the one that `find` gives.
  pub any_at-find :
      (k : K) (p : V → Bool) (m : List (K × V)) → IsMap m → any_at k p m ≡ passes p (find k m)
  unfolding any_at find passes
  any_at-find k p [] h = refl
  any_at-find k p ((j, v) ∷ m) (new, h) =
      ground (arith, e.beq_iff j k, any_at-find k p m h, any_at_missing k p m)

  -- `erase`
  unfoldable pub erase : K → List (K × V) → List (K × V)
  erase k [] = []
  erase k ((j, v) ∷ m) = if e.beq j k then m else (j, v) ∷ erase k m

  length-erase :
      (k : K) (v : V) (m : List (K × V)) → find k m ≡ some v → suc (length (erase k m)) ≡ length m
  unfolding find erase
  length-erase k v [] h = cc
  length-erase k v ((j, w) ∷ m) h = ground (arith, length-erase k v m)

  find-erase :
      (k j : K) (m : List (K × V))
      → IsMap m
      → find j (erase k m) ≡ (if e.beq k j then none else find j m)
  unfolding find erase
  find-erase k j [] h = ground arith
  find-erase k j ((i, w) ∷ m) (new, h) =
      ground (arith, e.beq_iff k j, e.beq_iff i k, e.beq_iff i j, find-erase k j m h)

  erase-IsMap : (k : K) (m : List (K × V)) → IsMap m → IsMap (erase k m)
  unfolding erase
  erase-IsMap k [] h = tt
  erase-IsMap k ((j, v) ∷ m) (new, h) = elim (Bool-cases (e.beq j k)) [
    | inl same ↦ rw same h
    | inr other ↦ rw other (still_new, erase-IsMap k m h)
  ]
    where
      still_new : find j (erase k m) ≡ none
      still_new = ground (arith, find-erase k j m h, new)

  find_head : (k : K) (v : V) (m : List (K × V)) → find k ((k, v) ∷ m) ≡ some v
  unfolding find
  find_head k v m = ground (arith, e.beq_iff k k)

  find_tail :
      (i k : K) (v w : V) (m : List (K × V))
      → find i m ≡ none
      → find k m ≡ some w
      → find k ((i, v) ∷ m) ≡ some w
  unfolding find
  find_tail i k v w m new h = ground (arith, e.beq_iff i k)

  find_erased :
      (i k : K) (w : V) (a b : List (K × V))
      → IsMap b
      → find i a ≡ none
      → find k a ≡ some w
      → find k b ≡ some w
      → find k (erase i b) ≡ some w
  find_erased i k w a b hb new ha h = ground (arith, e.beq_iff i k, find-erase i k b hb)

  find_split :
      (i k : K) (v : V) (a b : List (K × V))
      → IsMap b
      → find i b ≡ some v
      → find k a ≡ find k (erase i b)
      → find k ((i, v) ∷ a) ≡ find k b
  unfolding find
  find_split i k v a b hb here rest = ground (arith, e.beq_iff i k, find-erase i k b hb)

  -- A map whose entries are all in another of the same size is that map, as far as `find` sees.
  pub find_eq_of_sub :
      (a b : List (K × V))
      → IsMap a
      → IsMap b
      → length a ≡ length b
      → ((k : K) (v : V) → find k a ≡ some v → find k b ≡ some v)
      → (k : K) → find k a ≡ find k b
  find_eq_of_sub [] [] ha hb len sub k = refl
  find_eq_of_sub [] (x ∷ b) ha hb len sub k = absurd (omega arith)
  find_eq_of_sub ((i, v) ∷ a) b (new, ha) hb len sub k =
      let here : find i b ≡ some v = sub i v (find_head i v a) in
      find_split i k v a b hb here (
        find_eq_of_sub a (erase i b) ha (erase-IsMap i b hb)
          (omega (arith, length-erase i v b here, len))
          (λ j w h. find_erased i j w a b hb new h (sub j w (find_tail i j v w a new h))) k)

  -- Maps in which `find` sees the same have the same size.
  pub length_eq_of_find :
      (a b : List (K × V))
      → IsMap a
      → IsMap b
      → ((k : K) → find k a ≡ find k b)
      → length a ≡ length b
  length_eq_of_find [] [] ha hb same = refl
  length_eq_of_find [] ((j, w) ∷ b) ha hb same = absurd (none_some (same j ∙ find_head j w b))
    where
      none_some : find j [] ≡ some w → ⊥
      none_some p = unfold find in cc p
  length_eq_of_find ((i, v) ∷ a) b (new, ha) hb same =
      let here : find i b ≡ some v = sym (same i) ∙ find_head i v a in
      omega (
        arith,
        length-erase i v b here,
        length_eq_of_find a (erase i b) ha (erase-IsMap i b hb)
            (λ k. find_rest i k v a b hb new (same k)),
      )
    where
      find_rest :
          (i k : K) (v : V) (a b : List (K × V))
          → IsMap b
          → find i a ≡ none
          → find k ((i, v) ∷ a) ≡ find k b
          → find k a ≡ find k (erase i b)
      find_rest i k v a b hb new h =
          unfold find in ground (arith, e.beq_iff i k, find-erase i k b hb, h)
