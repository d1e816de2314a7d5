-- ===== src/Decoders/Accept.antt =====
-- What the decoders give for an accepted response.
use momo_hdb.Base.{
  ℕ, ◌<◌, ◌≡◌, refl, subst, ◌∙◌, false, ◌==◌, Option, none, some, List, [], ◌∷◌, All, Text, length,
  arith, if◌then◌else◌,
}
use momo_hdb.Decoders
use momo_hdb.Decoders.Sound.{IsAccepted, bind_source}

module _ {S : Type 0} (decode : S → Decoders.Decoded) (cap : ℕ) where
  ret_type_accepted :
      (ret : Option _) (rsp : Decoders.Response S) {s2c : S}
      → IsAccepted ret
      → rsp.s2c ≡ some s2c
      → Decoders.with_ret_type decode cap ret rsp ≡ decode s2c
  unfolding Decoders.with_ret_type Decoders.with_s2c
  ret_type_accepted none rsp ok has = rw has refl
  ret_type_accepted (some n) rsp ok has = rw (ok, has) refl

  -- A response whose `retType` is unset or 0 decodes to what its `s2c` does.
  pub with_response_accepted :
      (name : Text) (rsp : Decoders.Response S) {s2c : S}
      → IsAccepted rsp.ret_type
      → rsp.s2c ≡ some s2c
      → Decoders.with_response decode cap name (some rsp) ≡ decode s2c
  unfolding Decoders.with_response
  with_response_accepted name rsp ok has = ret_type_accepted rsp.ret_type rsp ok has

-- A nonempty list of items whose rows can all be made is serialized.
pub table_accepted :
    {S I R : Type 0} (items : S → List I) (row : S → I → Option R) (serialize : List R → List ℕ)
    (cap : ℕ) (name empty : Text) (rsp : Decoders.Response S) {s2c : S} {rows : List R}
    → IsAccepted rsp.ret_type
    → rsp.s2c ≡ some s2c
    → 0 < length (items s2c)
    → Decoders.rows_of (row s2c) (items s2c) ≡ some rows
    → Decoders.with_response
        (λ s2c.
          if length (items s2c) == 0
          then Decoders.failed empty
          else Decoders.serialized serialize (Decoders.rows_of (row s2c) (items s2c)))
        cap
        name
        (some rsp)
      ≡ Decoders.kbytes (serialize rows)
table_accepted items row serialize cap name empty rsp {s2c} ok has some_item each =
    let nonempty : (length (items s2c) == 0) ≡ false = ground arith in
    with_response_accepted _ cap name rsp ok has ∙ rw (nonempty, each) refl

-- A property of every row that the rows' function makes.
pub All-rows_of :
    {A B : Type 0} (P : B → Type 0) (row : A → Option B)
    → ((a : A) (b : B) → row a ≡ some b → P b)
    → (xs : List A) (rows : List B) → Decoders.rows_of row xs ≡ some rows
    → All P rows
All-rows_of P row each [] rows e = let nil : [] ≡ rows = cc in subst (All P) nil tt
All-rows_of P row each (x ∷ xs) rows e =
    let (r, made, e1) = bind_source (row x) _ e in
    let (rs, rest, e2) = bind_source (Decoders.rows_of row xs) _ e1 in
    let whole : r ∷ rs ≡ rows = cc in
    subst (All P) whole (each x r made, All-rows_of P row each xs rs rest)
