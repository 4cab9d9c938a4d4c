-- ===== src/Broker/Bucket/Acquire/Tests.antt =====
-- The blocking `acquire` on concrete schedules.
use dev_harness.Common.{ℕ, ◌≡◌, refl, none, [], ◌∷◌, arith}
use dev_harness.Broker.Bucket.{TokenBucket, refill}
use dev_harness.Broker.Bucket.Acquire.{Round, acquired, wait_time, acquire_loop}
use dev_harness.Broker.Bucket.Acquire.Laws.{wait_suffices}

abbrev empty : TokenBucket
empty = record { capacity = 10; refill_rate = 2; tokens = 0; last = 0 }

abbrev at : ℕ → Round
at now = record { refill_at = now; check_at = now; meanwhile = λ b. b }

wait_suffices_example :
    (acquire_loop 5 none
      (record { refill_at = 1; check_at = 1; meanwhile = λ x. x }
        ∷ record { refill_at = 3; check_at = 3; meanwhile = λ x. x }
        ∷ [])
      empty).1
    ≡ acquired
unfolding refill wait_time
wait_suffices_example =
    wait_suffices 5 1 1 3 3 2 empty (omega arith) (omega arith) (omega arith) (omega arith) refl
      (omega arith)
