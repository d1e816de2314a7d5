-- ===== src/Ring.antt =====
-- momo_common/include/SPSCQueue.hpp: the ring buffer between one producer and one consumer thread.
-- `buf_` is a list of `cap_` slots and a `std::size_t` is a number below 2 ^ 64. `moved` is what
-- `std::move` leaves behind in a slot (a null pointer, an empty string), which the type decides.
-- The operations here run to their end; `Ring.Threads` interleaves their atomic steps.
pub mod Inv
pub mod Refine
pub mod Batch
pub mod Overflow
pub mod Threads
pub mod Race
use Prim.Native.Nat.{bit_and}
use momo_hdb.Base.{
  ℕ, zero, suc, ◌+◌, ◌-◌, ◌%◌, ◌^◌, Bool, true, false, not, ◌||◌, Option, none, some,
}
use momo_hdb.Base.{List, [], ◌∷◌, ◌++◌, ltb, ◌==◌, if◌then◌else◌, set, get_elem?, replicate, get_or}

abbrev pub size_mod : ℕ
size_mod = 2 ^ 64

-- `SPSCQueue<T>`: its fields, without the trailing underscores.
pub record Ring {ℓ} (T : Type ℓ) : Type ℓ where
  pub cap : ℕ
  pub mask : ℕ
  pub buf : List T
  pub head : ℕ
  pub tail : ℕ

-- `(i + 1) & mask_`
unfoldable pub next_index {ℓ} : {T : Type ℓ} → Ring T → ℕ → ℕ
next_index r i = bit_and ((i + 1) % size_mod) r.mask

-- The constructor, over the value that `T()` makes; `none` is the exception that it throws.
unfoldable pub make {ℓ} : {T : Type ℓ} → T → ℕ → Option (Ring T)
make {T} blank capacity =
    let mask_ = (capacity + size_mod - 1) % size_mod in
    if ltb capacity 2 || not (bit_and capacity mask_ == 0)
    then none
    else some (record {
      cap = capacity;
      mask = mask_;
      buf = replicate capacity blank;
      head = 0;
      tail = 0;
    })

-- Both overloads of `try_push`: a refused push leaves `v` with the caller.
unfoldable pub try_push {ℓ} : {T : Type ℓ} → T → Ring T → Bool × Ring T
try_push v r =
    let next = next_index r r.head in
    if next == r.tail
    then (false, r)
    else (true, record r { buf = set r.buf r.head v; head = next })

module _ {ℓ} {T : Type ℓ} (moved : T → T) where
  -- `try_pop(out)`, with the value of `out` before and after.
  unfoldable pub try_pop : T → Ring T → Bool × T × Ring T
  try_pop out r = if r.tail == r.head then (false, out, r) else (
    true,
    get_or r.buf r.tail out,
    record r {
      buf = set r.buf r.tail (moved (get_or r.buf r.tail out));
      tail = next_index r r.tail;
    },
  )

  -- The loop of `pop_many` with `k` rounds left before `n` reaches `max_n`.
  unfoldable pub pop_many_loop : ℕ → ℕ → T → List T → Ring T → ℕ × List T × Ring T
  pop_many_loop zero n tmp out r = (n, out, r)
  pop_many_loop (suc k) n tmp out r =
      let (got, x, r') = try_pop tmp r in
      let rest = pop_many_loop k (n + 1) (moved x) (out ++ (x ∷ [])) r' in
      if got then rest else (n, out, r')

  -- `pop_many(out, max_n)`: the count, `out` and the queue afterwards.
  unfoldable pub pop_many : T → List T → ℕ → Ring T → ℕ × List T × Ring T
  unfolding pop_many_loop
  pop_many blank out max_n r = pop_many_loop max_n 0 blank out r
