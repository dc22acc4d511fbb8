-- ===== src/Atomic/Tests.antt =====
-- Two threads that count up at the same time.
use tros.Prelude.{◌≡◌, refl, [], ◌∷◌}
use tros.Atomic.{atomic_inc, reading, Threads, thread_step}
use tros.Atomic.Linear.{Log, logged, Reached, start, next, Linear, Reached-Linear}

-- Both stand before their read.
abbrev both_ready : Threads
both_ready = record { v = record { counter = 7 }; place = λ t. reading atomic_inc }

-- Both read, and thread 1 exchanges first, so that thread 0 does not.
abbrev after_read : Threads
unfolding thread_step
after_read = (thread_step (thread_step both_ready 0).0 1).0

abbrev after_both : Threads
unfolding thread_step after_read
after_both = (thread_step (thread_step after_read 1).0 0).0

abbrev log : Log
unfolding thread_step after_read
log = logged (thread_step (thread_step after_read 1).0 0).1 (
    logged (thread_step after_read 1).1 (
      logged (thread_step (thread_step both_ready 0).0 1).1
        (logged (thread_step both_ready 0).1 [])))

Reached-both : Reached both_ready log after_both
unfolding after_read after_both log
Reached-both = next (next (next (next start 0) 1) 1) 0

one_exchange : (log ≡ (atomic_inc, 8) ∷ []) × (after_both.v.counter ≡ 8)
unfolding thread_step after_read after_both log
one_exchange = (refl, refl)

Reached-Linear_example : Linear 7 log after_both
Reached-Linear_example = Reached-Linear both_ready after_both log Reached-both
