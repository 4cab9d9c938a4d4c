-- ===== src/Broker/Bucket.antt =====
-- broker/bucket.py: the token bucket. A reading of the clock is an argument.
pub mod Acquire
pub mod Laws
mod Tests
use dev_harness.Common.{
  ℕ, ◌+◌, ◌-◌, ◌*◌, min, Bool, true, false, Option, none, some, ltb, leb, ◌==◌, nat_eq,
  if◌then◌else◌,
}

pub record TokenBucket : Type 0 where
  pub capacity : ℕ
  pub refill_rate : ℕ
  pub tokens : ℕ
  pub last : ℕ

-- `none` is the `ValueError`.
unfoldable pub new_bucket : ℕ → ℕ → ℕ → Option TokenBucket
new_bucket capacity rate now =
    if capacity == 0
    then none
    else some (record { capacity = capacity; refill_rate = rate; tokens = capacity; last = now })

-- `_refill`
unfoldable pub refill : ℕ → TokenBucket → TokenBucket
refill now b =
    if ltb b.last now
    then record b {
      tokens = min b.capacity (b.tokens + (now - b.last) * b.refill_rate);
      last = now;
    }
    else b

-- The property `tokens` refills the bucket and reads it.
unfoldable pub read_tokens : ℕ → TokenBucket → TokenBucket × ℕ
unfolding refill
read_tokens now b = let b' = refill now b in (b', b'.tokens)

pub data Attempt : Type 0 where
  granted insufficient value_error : Attempt

take_tokens : ℕ → TokenBucket → TokenBucket × Attempt
take_tokens t b =
    if leb t b.tokens then (record b { tokens = b.tokens - t }, granted) else (b, insufficient)

unfoldable pub try_acquire : ℕ → ℕ → TokenBucket → TokenBucket × Attempt
unfolding refill take_tokens
try_acquire t now b = if t == 0 then (b, value_error) else take_tokens t (refill now b)

-- `release` reads no clock. `false` is the `ValueError`.
unfoldable pub release : ℕ → TokenBucket → TokenBucket × Bool
release t b =
    if t == 0 then (b, false) else (record b { tokens = min b.capacity (b.tokens + t) }, true)
