-- ===== src/Broker/Bucket/Laws.antt =====
-- The bucket limits the rate: what is granted over a run of calls is bounded by the level at its
-- start, the refill over the time passed, and what was returned.
use dev_harness.Common.{
  ℕ, ◌+◌, ◌-◌, ◌*◌, ◌≤◌, ◌<◌, ◌≡◌, refl, some, List, [], ◌∷◌, arith, Bool-cases, ltb→lt, ap, ◌∙◌,
  inl, inr, ◌==◌, nat_eq, ltb,
}
use dev_harness.Broker.Bucket.{
  TokenBucket, new_bucket, refill, read_tokens, Attempt, granted, take_tokens, try_acquire, release,
}

pub record IsValid (b : TokenBucket) : Type 0 where
  pub positive : 0 < b.capacity
  pub within : b.tokens ≤ b.capacity

-- One call on a bucket, with the clock reading that it makes.
pub data Call : Type 0 where
  read : (now : ℕ) → Call
  acquire : (tokens now : ℕ) → Call
  give_back : (tokens : ℕ) → Call

abbrev pub amount_granted : ℕ → Attempt → ℕ
amount_granted t granted = t
amount_granted t _ = 0

-- The bucket after a call, and what the call granted.
unfoldable pub call : Call → TokenBucket → TokenBucket × ℕ
unfolding read_tokens try_acquire release
call (read now) b = ((read_tokens now b).0, 0)
call (acquire t now) b = let (b', a) = try_acquire t now b in (b', amount_granted t a)
call (give_back t) b = ((release t b).0, 0)

unfoldable pub calls : List Call → TokenBucket → TokenBucket × ℕ
calls [] b = (b, 0)
calls (c ∷ cs) b = let (b', n) = call c b in let (b'', m) = calls cs b' in (b'', n + m)

abbrev pub returned_by : Call → ℕ
returned_by (give_back t) = t
returned_by _ = 0

abbrev pub returned : List Call → ℕ
returned [] = 0
returned (c ∷ cs) = returned_by c + returned cs

-- A new bucket is valid and full.
pub new_bucket-IsValid : (c r now : ℕ) {b : TokenBucket} → new_bucket c r now ≡ some b → IsValid b
unfolding new_bucket
new_bucket-IsValid c r now h = ground arith

pub refill-IsValid : (now : ℕ) (b : TokenBucket) → IsValid b → IsValid (refill now b)
unfolding refill
refill-IsValid now b v = ground arith

pub refill-capacity : (now : ℕ) (b : TokenBucket) → (refill now b).capacity ≡ b.capacity
unfolding refill
refill-capacity now b = ground arith

pub call-IsValid : (c : Call) (b : TokenBucket) → IsValid b → IsValid (call c b).0
unfolding call
call-IsValid (read now) b v = refill-IsValid now b v
call-IsValid (acquire t now) b v = ground (arith, refill-IsValid now b v)
call-IsValid (give_back t) b v = ground arith

pub calls-IsValid : (cs : List Call) (b : TokenBucket) → IsValid b → IsValid (calls cs b).0
unfolding calls
calls-IsValid [] b v = v
calls-IsValid (c ∷ cs) b v = calls-IsValid cs (call c b).0 (call-IsValid c b v)

span_cost : (a b r : ℕ) → a ≤ b → b * r ≡ a * r + (b - a) * r
span_cost a b r h = let e : b ≡ a + (b - a) = omega arith in omega (arith, ap (λ n. n * r) e)

-- The refill of a span of time is bounded by the span: no clock reading is counted twice.
refill_paid :
    (now : ℕ) (b : TokenBucket)
    → (refill now b).tokens + b.last * b.refill_rate
      ≤ b.tokens + (refill now b).last * b.refill_rate
unfolding refill
refill_paid now b = elim (Bool-cases (ltb b.last now)) [
  | inl later ↦
      let before = ltb→lt b.last now later in
      rw later (omega (arith, span_cost b.last now b.refill_rate (omega arith)))
  | inr earlier ↦ rw earlier (omega arith)
]

refill-rate : (now : ℕ) (b : TokenBucket) → (refill now b).refill_rate ≡ b.refill_rate
unfolding refill
refill-rate now b = ground arith

refill-last_le : (now : ℕ) (b : TokenBucket) → b.last ≤ (refill now b).last
unfolding refill
refill-last_le now b = ground arith

take_paid :
    (t : ℕ) (b : TokenBucket)
    → (amount_granted t (take_tokens t b).1 + (take_tokens t b).0.tokens ≤ b.tokens)
      × ((take_tokens t b).0.refill_rate ≡ b.refill_rate)
      × ((take_tokens t b).0.last ≡ b.last)
unfolding take_tokens
take_paid t b = ground arith

call_paid :
    (c : Call) (b : TokenBucket)
    → ((call c b).1 + (call c b).0.tokens + b.last * b.refill_rate
        ≤ b.tokens + (call c b).0.last * b.refill_rate + returned_by c)
      × ((call c b).0.refill_rate ≡ b.refill_rate)
      × (b.last ≤ (call c b).0.last)
unfolding call
call_paid (read now) b = (omega (arith, refill_paid now b), refill-rate now b, refill-last_le now b)
call_paid (acquire t now) b = elim (Bool-cases (t == 0)) [
  | inl bad ↦ rw bad (omega arith, refl, omega arith)
  | inr good ↦
      let (less, rate, clock) = take_paid t (refill now b) in
      rw (good, clock)
        (omega (arith, less, refill_paid now b), rate ∙ refill-rate now b, refill-last_le now b)
]
call_paid (give_back t) b = (ground arith, ground arith, ground arith)

calls_paid :
    (cs : List Call) (b : TokenBucket)
    → ((calls cs b).1 + (calls cs b).0.tokens + b.last * b.refill_rate
        ≤ b.tokens + (calls cs b).0.last * b.refill_rate + returned cs)
      × (b.last ≤ (calls cs b).0.last)
unfolding calls
calls_paid [] b = (omega arith, omega arith)
calls_paid (c ∷ cs) b =
    let (paid, rate, clock) = call_paid c b in
    let (later, clock') = calls_paid cs (call c b).0 in
    let rated = rw rate at later in (omega arith, omega arith)

-- Over any run of calls, what is granted and what is left at the end together are at most the level
-- at the start, the refill over the time that the bucket's clock moved, and what was returned. So
-- from a bucket that holds no more than its capacity, a run without returns grants at most the
-- capacity and the refill of the time passed.
pub calls_bounded :
    (cs : List Call) (b : TokenBucket)
    → let (b', total) = calls cs b in
      total + b'.tokens ≤ b.tokens + (b'.last - b.last) * b.refill_rate + returned cs
calls_bounded cs b =
    let (paid, clock) = calls_paid cs b in
    omega (arith, paid, span_cost b.last (calls cs b).0.last b.refill_rate clock)

pub try_acquire-IsValid :
    (t now : ℕ) (b : TokenBucket) → IsValid b → IsValid (try_acquire t now b).0
try_acquire-IsValid t now b v = unfold call in call-IsValid (acquire t now) b v

pub release-IsValid : (t : ℕ) (b : TokenBucket) → IsValid b → IsValid (release t b).0
release-IsValid t b v = unfold call in call-IsValid (give_back t) b v
