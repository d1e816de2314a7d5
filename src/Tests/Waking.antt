-- ===== src/Tests/Waking.antt =====
-- The threads of the Kafka client on a queue of two slots.
use momo_hdb.Base.{◌≤◌, ◌≡◌, ◌≢◌, refl, ◌⊎◌, true, false, none, some, [], ◌∷◌, arith}
use momo_hdb.Ring.Refine.{Holds}
use momo_hdb.Kfkpb.Wake.{
  Threads, Worker, Feeder, Closer, WorkerStep, AnyStep, Reach, started, next_epoch, here, next,
  by_worker, by_feeder, by_closer, loop_off, leave, set_stop, announce, join_consumer,
}
use momo_hdb.Kfkpb.Wake.Asleep.{sleeps_on_message, destructor_hangs}
use momo_hdb.Kfkpb.Wake.Quits.{join_lem, steps, will_close}
use momo_hdb.Tests.Kafka.{raw, small, small-Holds}

sleeps_on_message_example :
    (s : Threads) × Reach (started (small (none ∷ none ∷ []) 0) 0) s
    × Holds s.queue (some raw ∷ [])
    × (s.feeder ≡ Feeder.polling)
    × (s.stop ≡ false)
    × ((t : Threads) → ¬ WorkerStep s t)
sleeps_on_message_example = sleeps_on_message raw 0 small-Holds (omega arith)

destructor_hangs_example :
    (s : Threads) × Reach (started (small (none ∷ none ∷ []) 0) 0) s
    × (s.stop ≡ true)
    × (s.feeder ≡ Feeder.gone)
    × (s.closer ≡ Closer.joining_worker)
    × ((t : Threads) → ¬ AnyStep s t)
destructor_hangs_example = destructor_hangs 0 small-Holds

-- A client that is closed before its worker first tests the flag.
abbrev fresh : Threads
fresh = started (small (none ∷ none ∷ []) 0) 0

abbrev stopped : Threads
stopped = record fresh { stop = true; closer = Closer.announcing }

abbrev counted : Threads
counted = record stopped { epoch = next_epoch 0; closer = Closer.joining_consumer }

abbrev ended : Threads
ended = record counted { feeder = Feeder.gone }

abbrev joining : Threads
joining = record ended { closer = Closer.joining_worker }

abbrev finished : Threads
finished = record joining { worker = Worker.finished }

to_the_join : Reach fresh joining
to_the_join =
    next
      (next (next (next here (by_closer (set_stop fresh refl))) (by_closer (announce stopped refl)))
        (by_feeder (leave counted refl refl)))
      (by_closer (join_consumer ended refl refl))

abbrev last_test : Reach joining finished
last_test = next here (by_worker (loop_off joining refl refl))

join_lem_example :
    (steps last_test ≤ 4)
    × (((will_close joining ≡ true)
          × ((finished.closer ≡ Closer.closed) ⊎ ((u : Threads) × AnyStep finished u)))
        ⊎ ((will_close joining ≡ false) × (finished.closer ≢ Closer.closed)))
join_lem_example = join_lem to_the_join refl last_test
