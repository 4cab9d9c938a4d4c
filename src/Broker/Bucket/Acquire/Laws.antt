-- ===== src/Broker/Bucket/Acquire/Laws.antt =====
-- The blocking `acquire` against any schedule of wake-ups and of other threads' calls.
use native.Mathlib.Nat.{div-add-mod, mod-lt, mul-le-mul_right}
use dev_harness.Common.{
  ℕ, ◌+◌, ◌-◌, ◌*◌, ◌/◌, ◌≤◌, ◌<◌, ◌≡◌, ◌⊎◌, inl, inr, true, Option, none, some, List, [], ◌∷◌,
  arith, Bool-cases, ltb, leb, le→leb, lt→leb_false, ◌==◌, nat_eq,
}
use dev_harness.Broker.Bucket.{TokenBucket, refill}
use dev_harness.Broker.Bucket.Laws.{IsValid, refill-IsValid, refill-capacity}
use dev_harness.Broker.Bucket.Acquire.{
  Round, acquired, timed_out, overdue, wait_time, acquire_loop, acquire,
}

-- The other threads keep the bucket valid and cannot change its capacity.
abbrev pub Honest : List Round → Type 0
Honest [] = Unit
Honest (r ∷ rs) =
    ((b : TokenBucket) → IsValid b → IsValid (r.meanwhile b))
    × ((b : TokenBucket) → (r.meanwhile b).capacity ≡ b.capacity)
    × Honest rs

-- In some round the deadline had passed.
abbrev pub Overdue : Option ℕ → List Round → Type 0
Overdue d [] = ⊥
Overdue d (r ∷ rs) = (overdue d r.check_at ≡ true) ⊎ Overdue d rs

module _ (t : ℕ) (d : Option ℕ) where
  loop-capacity :
      (rs : List Round) (b : TokenBucket)
      → IsValid b
      → Honest rs
      → IsValid (acquire_loop t d rs b).0 × ((acquire_loop t d rs b).1 ≡ acquired → t ≤ b.capacity)
  unfolding acquire_loop
  loop-capacity [] b v h = (v, λ e. cc)
  loop-capacity (r ∷ rs) b v h =
      let b' : TokenBucket = refill r.refill_at b in
      let v' : IsValid b' = refill-IsValid r.refill_at b v in
      let (keep, same, more) = h in
      let (v'', fits) = loop-capacity rs (r.meanwhile b') (keep b' v') more in
      let cap' = refill-capacity r.refill_at b in let rest = same b' in (ground arith, ground arith)

  -- A call that timed out met its deadline in some round, and left a level below what it asked for.
  pub loop_timed_out :
      (rs : List Round) (b : TokenBucket)
      → (acquire_loop t d rs b).1 ≡ timed_out
      → Overdue d rs × ((acquire_loop t d rs b).0.tokens < t)
  unfolding acquire_loop
  loop_timed_out [] b e = cc
  loop_timed_out (r ∷ rs) b e = elim (Bool-cases (leb t (refill r.refill_at b).tokens)) [
    | inl served ↦ cc (rw served at e)
    | inr short ↦ elim (Bool-cases (overdue d r.check_at)) [
      | inl late ↦ (inl late, ground arith)
      | inr early ↦
          let (o, less) =
            loop_timed_out rs (r.meanwhile (refill r.refill_at b)) (rw (short, early) at e) in
          (inr o, rw (short, early) less)
    ]
  ]

-- With other threads that keep the bucket valid and its capacity, `acquire` keeps it valid, and
-- never grants more than the capacity: such a call waits for ever or times out.
pub acquire_fits :
    (t : ℕ) (timeout : Option ℕ) (now : ℕ) (rs : List Round) (b : TokenBucket)
    → IsValid b
    → Honest rs
    → IsValid (acquire t timeout now rs b).0
      × ((acquire t timeout now rs b).1 ≡ acquired → t ≤ b.capacity)
unfolding acquire
acquire_fits t timeout now rs b v h = elim (Bool-cases (t == 0)) [
  | inl bad ↦ rw bad (v, λ e. cc)
  | inr good ↦ rw good (loop-capacity t _ rs b v h)
]

last-refill : (now : ℕ) (b : TokenBucket) → b.last ≤ now → (refill now b).last ≡ now
unfolding refill
last-refill now b h = ground arith

-- `n` divided by `r` and rounded up, times `r`, is at least `n`.
round_up : (n r : ℕ) → 0 < r → n ≤ (n + r - 1) / r * r
round_up n r h = grind (arith, div-add-mod (n + r - 1) r, mod-lt (n + r - 1) h)

wait_covers :
    (t w : ℕ) (b : TokenBucket) → wait_time t b ≡ some w → t ≤ b.tokens + w * b.refill_rate
unfolding wait_time
wait_covers t w b wait = elim (Bool-cases (b.refill_rate == 0)) [
  | inl stuck ↦ cc (rw stuck at wait)
  | inr moving ↦
      let rounded : (t - b.tokens + b.refill_rate - 1) / b.refill_rate ≡ w = ground arith in
      let enough = round_up (t - b.tokens) b.refill_rate (ground arith) in
      omega (arith, rw rounded at enough)
]

refill_covers :
    (t later w : ℕ) (b : TokenBucket)
    → t ≤ b.capacity
    → b.tokens < t
    → wait_time t b ≡ some w
    → b.last + w ≤ later
    → t ≤ (refill later b).tokens
unfolding refill
refill_covers t later w b fits short wait slept =
    let enough = wait_covers t w b wait in
    let longer : w * b.refill_rate ≤ (later - b.last) * b.refill_rate =
      mul-le-mul_right b.refill_rate (omega arith) in
    elim (Bool-cases (ltb b.last later)) [
      | inl moved ↦ rw moved (omega arith)
      | inr same ↦
          let none_left : later - b.last ≡ 0 = ground arith in
          let nothing : (later - b.last) * b.refill_rate ≡ 0 = rw none_left (omega arith) in
          absurd (omega arith)
    ]

-- Sleeping for the computed time is enough: if a round finds too little, and the next begins no
-- sooner than the waiting time after it while no other thread touches the bucket, it succeeds.
pub wait_suffices :
    (t now check later check' w : ℕ) (b : TokenBucket)
    → IsValid b
    → t ≤ b.capacity
    → b.last ≤ now
    → (refill now b).tokens < t
    → wait_time t (refill now b) ≡ some w
    → now + w ≤ later
    → (acquire_loop t none
        (record { refill_at = now; check_at = check; meanwhile = λ x. x }
          ∷ record { refill_at = later; check_at = check'; meanwhile = λ x. x }
          ∷ [])
        b).1
      ≡ acquired
unfolding acquire_loop wait_time
wait_suffices t now check later check' w b v fits clock short wait slept =
    let level = refill-capacity now b in
    let clock' = last-refill now b clock in
    let covered = refill_covers t later w (refill now b) (omega arith) short wait (omega arith) in
    rw (lt→leb_false t (refill now b).tokens short, le→leb t _ covered)
