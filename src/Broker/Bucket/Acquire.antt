-- ===== src/Broker/Bucket/Acquire.antt =====
-- `acquire` of broker/bucket.py, which blocks. Its loop runs over the rounds that the schedule
-- gives it: the clock readings of a round, and what the other threads do to the bucket while this
-- one waits on the condition. A list of rounds that ends leaves the caller waiting.
mod Laws
mod Tests
use dev_harness.Common.{
  ℕ, ◌+◌, ◌-◌, ◌/◌, Bool, false, Option, none, some, List, [], ◌∷◌, leb, ◌==◌, nat_eq,
  if◌then◌else◌,
}
use dev_harness.Broker.Bucket.{TokenBucket, refill}

pub record Round : Type 0 where
  pub refill_at : ℕ
  pub check_at : ℕ
  pub meanwhile : TokenBucket → TokenBucket

pub data Outcome : Type 0 where
  acquired timed_out waiting bad_amount : Outcome

-- `deadline - clock() <= 0`, where there is a deadline
abbrev pub overdue : Option ℕ → ℕ → Bool
overdue none now = false
overdue (some d) now = leb d now

-- How long a round waits if nothing notifies it: until the refill covers what is missing, rounded
-- up to the unit of time. With no refill it waits for a notification alone.
unfoldable pub wait_time : ℕ → TokenBucket → Option ℕ
wait_time t b =
    if b.refill_rate == 0 then none else some ((t - b.tokens + b.refill_rate - 1) / b.refill_rate)

unfoldable pub acquire_loop : ℕ → Option ℕ → List Round → TokenBucket → TokenBucket × Outcome
acquire_loop t deadline [] b = (b, waiting)
acquire_loop t deadline (r ∷ rs) b =
    let b' = refill r.refill_at b in
    let rest = acquire_loop t deadline rs (r.meanwhile b') in
    if leb t b'.tokens
    then (record b' { tokens = b'.tokens - t }, acquired)
    else if overdue deadline r.check_at
    then (b', timed_out)
    else rest

abbrev deadline_of : Option ℕ → ℕ → Option ℕ
deadline_of none now = none
deadline_of (some timeout) now = some (now + timeout)

unfoldable pub acquire : ℕ → Option ℕ → ℕ → List Round → TokenBucket → TokenBucket × Outcome
unfolding acquire_loop
acquire t timeout now rs b =
    if t == 0 then (b, bad_amount) else acquire_loop t (deadline_of timeout now) rs b
