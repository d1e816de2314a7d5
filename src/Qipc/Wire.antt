-- ===== src/Qipc/Wire.antt =====
-- The header of a finished message, and the words read back.
use momo_hdb.Base.{
  ℕ, zero, suc, ◌+◌, ◌-◌, ◌*◌, ◌/◌, ◌%◌, ◌^◌, ◌≤◌, ◌<◌, ◌≡◌, refl, sym, ap, ◌∙◌, arith,
}
use momo_hdb.Base.{Option, none, some, List, [], ◌∷◌, ◌++◌, length, take, drop}
use native.Mathlib.Nat.{pow-suc}
use momo_hdb.Qipc

-- A reader of four bytes, the lowest first.
abbrev pub read_u32 : List ℕ → Option ℕ
read_u32 (a ∷ b ∷ c ∷ d ∷ rest) = some (a + 256 * b + 65536 * c + 16777216 * d)
read_u32 _ = none

of_bytes :
    (v : ℕ)
    → v < 2 ^ 32
    → v % 256 + 256 * (v / 256 % 256) + 65536 * (v / 65536 % 256) + 16777216 * (v / 16777216 % 256)
      ≡ v
of_bytes v h = omega arith

length-drop {ℓ} : {A : Type ℓ} (n : ℕ) (xs : List A) → length (drop n xs) ≡ length xs - n
length-drop zero xs = omega arith
length-drop (suc n) [] = omega arith
length-drop (suc n) (x ∷ xs) = omega (arith, length-drop n xs)

-- A finished message is as long as the buffer and says so in its header, behind the marks of a
-- little-endian, uncompressed message; what follows the header is what the buffer had there.
pub finish_ipc_lem :
    (buf : List ℕ)
    → 8 ≤ length buf
    → length buf < 2 ^ 32
    → let m = Qipc.finish_ipc buf in
      (take 4 m ≡ 1 ∷ 0 ∷ 0 ∷ 0 ∷ [])
      × (read_u32 (drop 4 m) ≡ some (length m))
      × (length m ≡ length buf)
      × (drop 8 m ≡ drop 8 buf)
unfolding Qipc.finish_ipc Qipc.put_u32_le Qipc.size_u32
finish_ipc_lem buf room word =
    let n : length buf % 2 ^ 32 ≡ length buf = omega arith in
    let long = length-drop 8 buf in
    let total : 8 + length (drop 8 buf) ≡ length buf = omega (arith, long) in
    rw n
      (refl, ap some (of_bytes (length buf) word ∙ omega (arith, long)), omega (arith, long), refl)

-- A reader of `k` bytes as a number, with what follows them.
abbrev pub read_word : ℕ → List ℕ → Option (ℕ × List ℕ)
read_word zero bs = some (0, bs)
read_word (suc k) [] = none
read_word (suc k) (b ∷ bs) = elim (read_word k bs) [
  | none ↦ none
  | some (v, rest) ↦ some (b + 256 * v, rest)
]

pub read_word-le_bytes :
    (k v : ℕ) (rest : List ℕ)
    → v < 256 ^ k
    → read_word k (Qipc.le_bytes k v ++ rest) ≡ some (v, rest)
unfolding Qipc.le_bytes
read_word-le_bytes zero v rest h =
    let none_left : v ≡ 0 = omega arith in ap (λ n. some (n, rest)) (sym none_left)
read_word-le_bytes (suc k) v rest h =
    let ih = read_word-le_bytes k (v / 256) rest (omega (arith, pow-suc 256 k)) in
    let digits : v % 256 + 256 * (v / 256) ≡ v = omega arith in
    rw ih (ap (λ n. some (n, rest)) digits)
