-- ===== src/Qapi/Handles.antt =====
-- The handles that the functions give out and those that they take.
use momo_hdb.Base.{◌≡◌, refl, Bool, true, false, bytes, arith}
use momo_hdb.Yaml.{Call, returned, raised}
use momo_hdb.Kfkpb.{Client}
use momo_hdb.Qapi.{K, Api}
use momo_hdb.Qapi

init_consumer_handle :
    (built : Call Client) (conf : K) (self : Api)
    → Qapi.is_long_handle (Qapi.init_consumer built conf self).0 ≡ false
unfolding Qapi.init_consumer Qapi.make_client
init_consumer_handle (returned c) conf self = ground arith
init_consumer_handle (raised what) conf self = ground arith

-- Every value that `kfkpb_init` or `kfkpb_initConsumer` returns, error or handle, is refused by
-- `kfkpb_subscribeFromTime`, in any state and whatever else it is given; `kfkpb_subscribe` takes the
-- handle that `kfkpb_init` returns when its socket pair is made.
pub given_handle_refused :
    (ok : Bool) (built : Call Client) (conf topics ts : K) (self s : Api)
    → (Qapi.subscribe_from_time (Qapi.init ok self).0 topics ts s ≡ (K.error (bytes "handle"), s))
      × (Qapi.subscribe_from_time (Qapi.init_consumer built conf self).0 topics ts s
          ≡ (K.error (bytes "handle"), s))
      × (Qapi.is_int_handle (Qapi.init true self).0 ≡ true)
unfolding Qapi.init Qapi.subscribe_from_time
given_handle_refused ok built conf topics ts self s = (by_init, by_consumer, taken)
  where
    refused :
        (h : K)
        → Qapi.is_long_handle h ≡ false
        → Qapi.subscribe_from_time h topics ts s ≡ (K.error (bytes "handle"), s)
    refused h e = rw e refl

    by_init :
        Qapi.subscribe_from_time (Qapi.init ok self).0 topics ts s ≡ (K.error (bytes "handle"), s)
    by_init = refused (Qapi.init ok self).0 (ground arith)

    by_consumer :
        Qapi.subscribe_from_time (Qapi.init_consumer built conf self).0 topics ts s
        ≡ (K.error (bytes "handle"), s)
    by_consumer =
        refused (Qapi.init_consumer built conf self).0 (init_consumer_handle built conf self)

    taken : Qapi.is_int_handle (Qapi.init true self).0 ≡ true
    taken = ground arith
