-- ===== src/Broker/Limiter.antt =====
-- broker/local_limiter.py: a bounded semaphore with counters. `in_flight` is an integer, since
-- `release` lowers it before the semaphore refuses.
pub mod Laws
mod Tests
use dev_harness.Common.{
  ℕ, zero, suc, ◌+◌, ◌-◌, Bool, true, false, Option, none, some, ltb, leb, ◌==◌, nat_eq,
  if◌then◌else◌,
}

-- `negsuc n` is -(n + 1).
pub data ℤ : Type 0 where
  pos negsuc : ℕ → ℤ

abbrev pub add_one : ℤ → ℤ
add_one (pos n) = pos (suc n)
add_one (negsuc zero) = pos zero
add_one (negsuc (suc n)) = negsuc n

abbrev pub sub_one : ℤ → ℤ
sub_one (pos zero) = negsuc zero
sub_one (pos (suc n)) = pos n
sub_one (negsuc n) = negsuc (suc n)

-- `slots` is the semaphore's counter, which starts at `max_concurrency`.
pub record LocalLimiter : Type 0 where
  pub max_concurrency : ℕ
  pub slots : ℕ
  pub in_flight : ℤ
  pub queue_depth : ℕ

-- `none` is the `ValueError`.
unfoldable pub new_limiter : ℕ → Option LocalLimiter
new_limiter n =
    if ltb n 1
    then none
    else some (record { max_concurrency = n; slots = n; in_flight = pos 0; queue_depth = 0 })

-- The steps of `acquire`, between which other threads may run: the caller is counted into the queue; its
-- semaphore is granted, which needs a slot; it is counted from the queue to the running. Or the
-- semaphore times out, and then the caller is counted out of the queue.
unfoldable pub join_queue : LocalLimiter → LocalLimiter
join_queue l = record l { queue_depth = l.queue_depth + 1 }

unfoldable pub take_slot : LocalLimiter → LocalLimiter
take_slot l = record l { slots = l.slots - 1 }

unfoldable pub enter : LocalLimiter → LocalLimiter
enter l = record l { in_flight = add_one l.in_flight; queue_depth = l.queue_depth - 1 }

unfoldable pub give_up : LocalLimiter → LocalLimiter
give_up l = record l { queue_depth = l.queue_depth - 1 }

-- `acquire(timeout=0)` without other threads: the semaphore answers at once.
unfoldable pub acquire_now : LocalLimiter → LocalLimiter × Bool
unfolding join_queue take_slot enter give_up
acquire_now l =
    let waiting = join_queue l in
    if ltb 0 waiting.slots then (enter (take_slot waiting), true) else (give_up waiting, false)

-- The steps of `release`: the caller is counted out of the running, and its slot is given back, where
-- `false` is the `ValueError` of a semaphore that is released once too often.
unfoldable pub lower : LocalLimiter → LocalLimiter
lower l = record l { in_flight = sub_one l.in_flight }

unfoldable pub free_slot : LocalLimiter → LocalLimiter × Bool
free_slot l =
    if leb l.max_concurrency l.slots then (l, false) else (record l { slots = l.slots + 1 }, true)

-- `release` without other threads
unfoldable pub release : LocalLimiter → LocalLimiter × Bool
unfolding lower free_slot
release l = free_slot (lower l)
