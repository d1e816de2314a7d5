-- ===== src/Kfkpb/Drain.antt =====
-- `KfkpbClient::drainTo` of momo_subpb/src/kfkpb_core.cpp, run with no event queued meanwhile.
pub mod Sweep
pub mod Order
use momo_hdb.Base.{
  ℕ, zero, suc, ◌+◌, ◌%◌, ◌^◌, Bool, true, false, ◌==◌, Option, none, some, List, [], ◌∷◌, ◌++◌,
  length, get_elem?, set, if◌then◌else◌,
}
use momo_hdb.Ring.{Ring, try_pop}
use momo_hdb.Kfkpb.{Event, Client, moved_ptr}

abbrev pub EventQueue : Type 0
EventQueue = Ring (Option Event)

-- `*ev`; the queues hold no null pointer.
abbrev pub pointed : Option Event → List Event
pointed none = []
pointed (some ev) = ev ∷ []

-- The loop that empties one queue, with the rounds it may still take: `drained`, `out` and the queue.
unfoldable pub drain_queue :
    ℕ → Option Event → ℕ → List Event → EventQueue → ℕ × List Event × EventQueue
drain_queue zero ev drained out q = (drained, out, q)
drain_queue (suc fuel) ev drained out q =
    let (got, ev', q') = try_pop moved_ptr ev q in
    let rest = drain_queue fuel ev' (drained + 1) (out ++ pointed ev') q' in
    if got then rest else (drained, out, q)

abbrev pub drain_at :
    ℕ → ℕ → List Event → List EventQueue → Option EventQueue → ℕ × List Event × List EventQueue
drain_at idx drained out qs none = (drained, out, qs)
drain_at idx drained out qs (some q) =
    let (drained', out', q') = drain_queue q.cap none drained out q in
    (drained', out', set qs idx q')

-- The rounds that are left of the loop over the queues, `i` being next.
unfoldable pub drain_rounds :
    ℕ → ℕ → ℕ → ℕ → List Event → List EventQueue → ℕ × List Event × List EventQueue
drain_rounds zero i start drained out qs = (drained, out, qs)
drain_rounds (suc left) i start drained out qs =
    let idx = (start + i) % length qs in
    let (drained', out', qs') = drain_at idx drained out qs (get_elem? qs idx) in
    drain_rounds left (i + 1) start drained' out' qs'

abbrev pub pop_at :
    ℕ → List Event → List EventQueue → Option EventQueue → Bool × List Event × List EventQueue
pop_at idx out qs none = (false, out, qs)
pop_at idx out qs (some q) =
    let (got, ev, q') = try_pop moved_ptr none q in
    if got then (true, out ++ pointed ev, set qs idx q') else (false, out, qs)

-- The second loop, which takes one event.
unfoldable pub take_first : ℕ → ℕ → ℕ → List Event → List EventQueue → List Event × List EventQueue
take_first zero i start out qs = (out, qs)
take_first (suc left) i start out qs =
    let idx = (start + i) % length qs in
    let (got, out', qs') = pop_at idx out qs (get_elem? qs idx) in
    let rest = take_first left (i + 1) start out qs in if got then (out', qs') else rest

unfoldable pub drain_to : List Event → Client → List Event × Client
drain_to out c =
    let qn = length c.evt_qs in
    let start = c.drain_rr % qn in
    let (drained, out', qs') = drain_rounds qn 0 start 0 out c.evt_qs in
    let (out'', qs'') = if drained == 0 then take_first qn 0 start out' qs' else (out', qs') in
    if qn == 0
    then (out, c)
    else (out'', record c { evt_qs = qs''; drain_rr = (c.drain_rr + 1) % 2 ^ 64 })
