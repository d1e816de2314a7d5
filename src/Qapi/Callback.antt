-- ===== src/Qapi/Callback.antt =====
-- What the callback hands to q.
use momo_hdb.Base.{◌%◌, ◌≡◌, refl, ap, some, List, [], ◌++◌, map, take, drop, length}
use momo_hdb.Kfkpb.{Client, Event}
use momo_hdb.Kfkpb.Drain.{drain_to}
use momo_hdb.Kfkpb.Drain.Sweep.{AllHold, concat}
use momo_hdb.Kfkpb.Drain.Order.{drain_to_lem, all_empty}
use momo_hdb.Qapi.{K, Api}
use momo_hdb.Qapi

-- With a client whose queues hold events, the callback calls q once for each queued event, data or
-- error, with the event's payload, one queue after the other from the counter's turn on, each in its
-- order; and every queue is empty afterwards.
pub callback_lem :
    (self : Api) {c : Client} (evss : List (List Event))
    → self.client ≡ some c
    → AllHold c.evt_qs evss
    → let s = c.drain_rr % length c.evt_qs in
      ((Qapi.callback self).0
        ≡ map (λ ev. K.byte_list ev.payload) (concat (drop s evss ++ take s evss)))
      × (c' : Client) × ((Qapi.callback self).1.client ≡ some c')
      × AllHold c'.evt_qs (all_empty evss)
unfolding Qapi.callback Qapi.callback_on Qapi.make_kbytes
callback_lem self {c} evss e h =
    let (all, empty) = drain_to_lem [] c evss h in
    rw e (ap (map (λ (ev : Event). K.byte_list ev.payload)) all, (drain_to [] c).1, refl, empty)
