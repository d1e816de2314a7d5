-- ===== src/Logger/Fields.antt =====
-- What a line shows of numbers that one call passes.
use momo_hdb.Base.{
  ℕ, zero, suc, ◌≡◌, refl, Bool, true, false, some, [], ◌∷◌, ◌++◌, Text, length, take, arith, ap,
  ap₂, sym, subst, ◌∙◌, Bool-cases, inl, inr, ◌≤◌, if◌then◌else◌,
}
use momo_hdb.Base.Int.{ℤ}
use momo_hdb.Logger.{Level, NumType, Field, Scratch, type_eq, store, view_text, View, of_scratch}
use momo_hdb.Logger
use momo_hdb.Logger.Record.{bare, IsBare, read_record, read-log_record, head_members}

type_eq_refl : (t : NumType) → type_eq t t ≡ true
type_eq_refl NumType.int_type = refl
type_eq_refl NumType.size_type = refl
type_eq_refl NumType.i64_type = refl
type_eq_refl NumType.other_type = refl

-- The line of a call with two numbers, built one after the other.
unfoldable pub two_numbers :
    ℤ → Level → Text → Text → NumType → NumType → Text → Text → Text → Text → Scratch → Text
two_numbers ts lv component event t t' k k' v v' s =
    let (f, s1) = Logger.num t k v s in
    let (f', s2) = Logger.num t' k' v' s1 in
    Logger.log_record ts lv component event (f ∷ f' ∷ []) s2

take-append : (v w x : Text) → length v ≤ length w → take (length v) (w ++ x) ≡ take (length v) w
take-append [] w x h = refl
take-append (c ∷ v) [] x h = absurd (omega arith)
take-append (c ∷ v) (d ∷ w) x h = ap (◌∷◌ d) (take-append v w x (omega arith))

take-length : (v : Text) → take (length v) v ≡ v
take-length [] = refl
take-length (c ∷ v) = ap (◌∷◌ c) (take-length v)

pub take-append_self : (v x : Text) → take (length v) (v ++ x) ≡ v
take-append_self v x = take-append v v x (omega arith) ∙ take-length v

take-IsBare : (n : ℕ) (v : Text) → IsBare v → IsBare (take n v)
take-IsBare zero v h = tt
take-IsBare (suc n) [] h = tt
take-IsBare (suc n) (c ∷ v) (p, h) = (p, take-IsBare n v h)

-- What the first view shows once the second number is stored.
first_shown :
    (t t' : NumType) (v v' : Text) (s : Scratch)
    → length v ≤ length v'
    → view_text (store t' v' (store t v s)) (of_scratch t (length v))
      ≡ (if type_eq t' t then take (length v) v' else v)
first_shown t t' v v' s h = elim (Bool-cases (type_eq t' t)) [
  | inl e ↦ rw e (take-append v v' _ h)
  | inr e ↦ rw e (rw (type_eq_refl t) (take-append_self v _))
]

second_shown :
    (t t' : NumType) (v v' : Text) (s : Scratch)
    → view_text (store t' v' (store t v s)) (of_scratch t' (length v')) ≡ v'
second_shown t t' v v' s = rw (type_eq_refl t') (take-append_self v' _)

-- Of two numbers that one call passes, both short enough for a string's own buffer and the second with at
-- least as many digits: the line shows the second under its key, and under the first's key the first number only if the two have different types;
-- for numbers of one type, the first key shows the second number's first digits instead.
pub read-two_numbers :
    (ts : ℤ) (lv : Level) (component event : Text) (t t' : NumType) (k k' v v' : Text) (s : Scratch)
    → IsBare v
    → IsBare v'
    → length v ≤ length v'
    → length v' ≤ Logger.own_buffer
    → read_record 6 (two_numbers ts lv component event t t' k k' v v' s)
      ≡ some (
          head_members ts lv component event
            ((k, bare (if type_eq t' t then take (length v) v' else v)) ∷ (k', bare v') ∷ []))
unfolding two_numbers Logger.num Logger.raw
read-two_numbers ts lv component event t t' k k' v v' s h h' le own =
    let s2 = store t' v' (store t v s) in
    let first = first_shown t t' v v' s le in
    let second = second_shown t t' v v' s in
    read-log_record ts lv component event
      (Logger.raw k (of_scratch t (length v)) ∷ Logger.raw k' (of_scratch t' (length v')) ∷ []) s2
      (subst IsBare (sym first) (ends (type_eq t' t)), (subst IsBare (sym second) h', tt))
    ∙ ap₂
        (λ (x y : Text).
          some (head_members ts lv component event ((k, bare x) ∷ (k', bare y) ∷ [])))
        first second
  where
    ends : (same : Bool) → IsBare (if same then take (length v) v' else v)
    ends true = take-IsBare (length v) v' h'
    ends false = h
