-- ===== src/Broker/Limiter/Laws.antt =====
-- The limiter under any interleaving of callers.
use dev_harness.Common.{ℕ, zero, suc, ◌+◌, ◌≤◌, ◌<◌, ◌≡◌, refl, true, false, arith, ltb}
use dev_harness.Broker.Limiter.{
  ℤ, pos, negsuc, add_one, sub_one, LocalLimiter, join_queue, take_slot, enter, give_up,
  acquire_now, lower, free_slot, release,
}

-- How many callers stand at each point of `acquire` and `release`: they wait for the semaphore, were
-- granted it and are not counted as running yet, timed out and are not counted out of the queue yet,
-- run, or were counted out of the running and have not given their slot back yet.
pub record Callers : Type 0 where
  pub waiting : ℕ
  pub granted : ℕ
  pub expired : ℕ
  pub running : ℕ
  pub leaving : ℕ

-- One step of one caller. Only a caller that runs releases its slot.
pub data Step (l : LocalLimiter) (c : Callers) : LocalLimiter → Callers → Type 0 where
  arrive : Step l c (join_queue l) (record c { waiting = suc c.waiting })
  grant :
      (w : ℕ)
      → c.waiting ≡ suc w
      → 0 < l.slots
      → Step l c (take_slot l) (record c { waiting = w; granted = suc c.granted })
  start :
      (g : ℕ)
      → c.granted ≡ suc g
      → Step l c (enter l) (record c { granted = g; running = suc c.running })
  expire :
      (w : ℕ) → c.waiting ≡ suc w → Step l c l (record c { waiting = w; expired = suc c.expired })
  depart : (x : ℕ) → c.expired ≡ suc x → Step l c (give_up l) (record c { expired = x })
  finish :
      (r : ℕ)
      → c.running ≡ suc r
      → Step l c (lower l) (record c { running = r; leaving = suc c.leaving })
  leave : (v : ℕ) → c.leaving ≡ suc v → Step l c (free_slot l).0 (record c { leaving = v })

abbrev pub no_callers : Callers
no_callers = record { waiting = 0; granted = 0; expired = 0; running = 0; leaving = 0 }

abbrev pub idle : ℕ → LocalLimiter
idle n = record { max_concurrency = n; slots = n; in_flight = pos 0; queue_depth = 0 }

pub data Reach (n : ℕ) : LocalLimiter → Callers → Type 0 where
  new : Reach n (idle n) no_callers
  next : {l m : LocalLimiter} {c d : Callers} → Reach n l c → Step l c m d → Reach n m d

pub record IsCounted (n : ℕ) (l : LocalLimiter) (c : Callers) : Type 0 where
  pub ceiling : l.max_concurrency ≡ n
  pub slots : l.slots + (c.granted + c.running + c.leaving) ≡ n
  pub running : l.in_flight ≡ pos c.running
  pub queued : l.queue_depth ≡ c.waiting + c.granted + c.expired

Step-IsCounted :
    {n : ℕ} {l m : LocalLimiter} {c d : Callers} → Step l c m d → IsCounted n l c → IsCounted n m d
unfolding join_queue take_slot enter give_up lower free_slot
Step-IsCounted arrive k = ground arith
Step-IsCounted (grant w e h) k = ground arith
Step-IsCounted (start g e) k = ground arith
Step-IsCounted (expire w e) k = ground arith
Step-IsCounted (depart x e) k = ground arith
Step-IsCounted (finish r e) k = ground arith
Step-IsCounted (leave v e) k = ground arith

Reach-IsCounted : {n : ℕ} {l : LocalLimiter} {c : Callers} → Reach n l c → IsCounted n l c
Reach-IsCounted new = ground arith
Reach-IsCounted (next reach step) = Step-IsCounted step (Reach-IsCounted reach)

sub_one-add_one : (z : ℤ) → sub_one (add_one z) ≡ z
sub_one-add_one (pos n) = refl
sub_one-add_one (negsuc zero) = refl
sub_one-add_one (negsuc (suc n)) = refl

-- Whatever the interleaving of callers, also between the semaphore and the counters: `in_flight` is the
-- number of callers that are counted as running, `queue_depth` is the number that wait, with those that
-- have just been granted or refused the semaphore, the free slots are what the granted, the running and
-- the leaving callers have left of the ceiling, and so these are never more than the ceiling.
pub Reach-counts :
    {n : ℕ} {l : LocalLimiter} {c : Callers}
    → Reach n l c
    → (l.in_flight ≡ pos c.running)
      × (l.queue_depth ≡ c.waiting + c.granted + c.expired)
      × (l.slots + (c.granted + c.running + c.leaving) ≡ n)
      × (c.granted + c.running + c.leaving ≤ n)
Reach-counts reach =
    let k = Reach-IsCounted reach in (k.running, k.queued, k.slots, omega (arith, k.slots))

-- `acquire` with a timeout of 0 succeeds exactly when a slot is free. It leaves the queue as it was,
-- and a release after a success succeeds and restores the limiter.
pub acquire_now-release :
    (l : LocalLimiter)
    → l.slots ≤ l.max_concurrency
    → ((acquire_now l).1 ≡ ltb 0 l.slots)
      × ((acquire_now l).1 ≡ false → (acquire_now l).0 ≡ l)
      × ((acquire_now l).1 ≡ true → release (acquire_now l).0 ≡ (l, true))
unfolding acquire_now release
acquire_now-release l h =
    (ground arith, λ e. ground arith, λ e. ground (arith, sub_one-add_one l.in_flight))

-- With no slot taken a release raises, and leaves `in_flight` one too low.
pub release_idle :
    (l : LocalLimiter)
    → l.slots ≡ l.max_concurrency
    → release l ≡ (record l { in_flight = sub_one l.in_flight }, false)
unfolding release
release_idle l h = ground arith

-- The free slots never pass the ceiling.
abbrev pub IsBounded : LocalLimiter → Type 0
IsBounded l = l.slots ≤ l.max_concurrency

pub acquire_now-IsBounded : (l : LocalLimiter) → IsBounded l → IsBounded (acquire_now l).0
unfolding acquire_now
acquire_now-IsBounded l h = ground arith

pub release-IsBounded : (l : LocalLimiter) → IsBounded l → IsBounded (release l).0
unfolding release
release-IsBounded l h = ground arith
