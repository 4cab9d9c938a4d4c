-- ===== src/Broker/Bucket/Tests.antt =====
-- The bucket at concrete readings of the clock.
use dev_harness.Common.{◌+◌, ◌-◌, ◌*◌, ◌≤◌, ◌≡◌, refl, List, [], ◌∷◌}
use dev_harness.Broker.Bucket.{TokenBucket}
use dev_harness.Broker.Bucket.Laws.{
  Call, read, acquire, give_back, call, calls, returned, calls_bounded,
}

abbrev small : TokenBucket
small = record { capacity = 10; refill_rate = 2; tokens = 10; last = 0 }

abbrev burst : List Call
burst = acquire 6 0 ∷ acquire 6 0 ∷ acquire 6 1 ∷ give_back 1 ∷ read 9 ∷ acquire 10 9 ∷ []

burst_total : (calls burst small).1 ≡ 22
unfolding calls call
burst_total = refl

calls_bounded_example :
    let (b', total) = calls burst small in
    total + b'.tokens ≤ small.tokens + (b'.last - small.last) * small.refill_rate + returned burst
calls_bounded_example = calls_bounded burst small
