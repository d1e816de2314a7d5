-- ===== src/Yaml.antt =====
-- What the two YAML loaders use of yaml-cpp, which is outside the repository: an interface over its
-- type of nodes. An exception is a value here, with the text of its `what()`.
use momo_hdb.Base.{ℕ, Bool, true, false, List, Text, if◌then◌else◌, ◌≡◌, refl, subst}
use momo_hdb.Base.Int.{ℤ}

-- A call that returns or throws.
pub data Call (A : Type 0) : Type 0 where
  returned : A → Call A
  raised : Text → Call A

-- `operator[]` on a key, which gives an undefined node for a missing key; `operator bool`; the kinds
-- of nodes; the elements of a sequence; and `as<T>()`.
pub record Yaml (N : Type 0) : Type 0 where
  pub at_key : N → Text → Call N
  pub is_defined : N → Bool
  pub is_scalar : N → Bool
  pub is_map : N → Bool
  pub is_sequence : N → Bool
  pub elements : N → List N
  pub as_text : N → Call Text
  pub as_int : N → Call ℤ
  pub as_size : N → Call ℕ
  pub as_bool : N → Call Bool

-- What a loader ends with: a value, an error of its own (`std::unexpected`), or an exception that it
-- lets pass.
pub data Attempt (E A : Type 0) : Type 0 where
  done : A → Attempt E A
  failed : E → Attempt E A
  threw : Text → Attempt E A

infixl 5 ◌>>=◌ ◌>>◌
abbrev pub ◌>>=◌ : {E A B : Type 0} → Attempt E A → (A → Attempt E B) → Attempt E B
done a >>= f = f a
failed e >>= f = failed e
threw what >>= f = threw what

abbrev pub ◌>>◌ : {E B : Type 0} → Attempt E (Unit {0}) → Attempt E B → Attempt E B
m >> k = m >>= λ _. k

-- `if (!test) return std::unexpected(e);`
abbrev pub guard : {E : Type 0} → Bool → E → Attempt E (Unit {0})
guard true e = done tt
guard false e = failed e

-- A call outside of any `try`.
abbrev pub let_pass : {E A : Type 0} → Call A → Attempt E A
let_pass (returned a) = done a
let_pass (raised what) = threw what

-- A call in a `try` whose handler returns an error.
abbrev pub handled : {E A : Type 0} → (Text → E) → Call A → Attempt E A
handled on_error (returned a) = done a
handled on_error (raised what) = failed (on_error what)

-- What holds of the value of a run that ends with one.
abbrev pub Ends : {E A : Type 0} → (A → Type 0) → Attempt E A → Type 0
Ends P (done a) = P a
Ends P (failed e) = Unit {0}
Ends P (threw what) = Unit {0}

module _ {E A : Type 0} where
  -- The rule for a chain, the one for a branch, and the one for a call of which nothing is known.
  pub Ends-bind :
      {B : Type 0} (P : A → Type 0) (Q : B → Type 0) (m : Attempt E A) (f : A → Attempt E B)
      → Ends P m
      → ((a : A) → P a → Ends Q (f a))
      → Ends Q (m >>= f)
  Ends-bind P Q (done a) f h k = k a h
  Ends-bind P Q (failed e) f h k = tt
  Ends-bind P Q (threw what) f h k = tt

  pub Ends-after :
      {B : Type 0} (Q : B → Type 0) (m : Attempt E A) (f : A → Attempt E B)
      → ((a : A) → Ends Q (f a))
      → Ends Q (m >>= f)
  Ends-after Q (done a) f k = k a
  Ends-after Q (failed e) f k = tt
  Ends-after Q (threw what) f k = tt

  pub Ends-if :
      (P : A → Type 0) (test : Bool) (m k : Attempt E A)
      → Ends P m
      → Ends P k
      → Ends P (if test then m else k)
  Ends-if P true m k hm hk = hm
  Ends-if P false m k hm hk = hk

  pub Ends→ : (P : A → Type 0) (m : Attempt E A) {a : A} → Ends P m → m ≡ done a → P a
  Ends→ P (done b) h e = subst P (cc) h
  Ends→ P (failed x) h e = cc
  Ends→ P (threw what) h e = cc

  pub Ends-of_eq : (P : A → Type 0) (m : Attempt E A) → ((a : A) → m ≡ done a → P a) → Ends P m
  Ends-of_eq P (done a) k = k a refl
  Ends-of_eq P (failed e) k = tt
  Ends-of_eq P (threw what) k = tt

pub Ends-guard :
    {E B : Type 0} (Q : B → Type 0) (test : Bool) (e : E) (k : Attempt E B)
    → (test ≡ true → Ends Q k)
    → Ends Q (guard test e >> k)
Ends-guard Q true e k h = h refl
Ends-guard Q false e k h = tt
