-- ===== src/Broker/Backoff/Laws.antt =====
-- The shape of the delays.
use native.Mathlib.Nat.{pow-suc, add-zero, add-suc, one-le-pow, mul-le-mul_right, mul-le-mul_left}
use dev_harness.Common.{
  ℕ, zero, suc, ◌+◌, ◌*◌, ◌^◌, ◌≤◌, ◌<◌, min, ◌≡◌, refl, none, some, arith, nat_eq, string_eq,
}
use dev_harness.Broker.Backoff.{Backoff, random_scale, new_backoff, pre_jitter, delay}

doubled : (a n : ℕ) → a * 2 ^ suc n ≡ 2 * (a * 2 ^ n)
doubled a n = rw (pow-suc 2 n) (omega arith)

grown : (a n : ℕ) → a ≤ a * 2 ^ n
grown a n = omega (arith, mul-le-mul_left a (one-le-pow n 2 (omega arith)))

pre_jitter_step : (b : Backoff) (n : ℕ) → pre_jitter b n ≤ pre_jitter b (suc n)
unfolding pre_jitter
pre_jitter_step b n = omega (arith, doubled b.base n)

pre_jitter_mono : (b : Backoff) (n k : ℕ) → pre_jitter b n ≤ pre_jitter b (n + k)
pre_jitter_mono b n zero = rw add-zero (omega arith)
pre_jitter_mono b n (suc k) =
    rw add-suc (omega (arith, pre_jitter_mono b n k, pre_jitter_step b (n + k)))

abbrev Accepted : ℕ → ℕ → ℕ → Backoff → Type 0
Accepted base max_delay jitter b =
    (base ≤ max_delay) × (b.base ≡ base) × (b.max_delay ≡ max_delay) × (b.jitter ≡ jitter)

new_backoff-Accepted :
    (base max_delay jitter : ℕ) (b : Backoff)
    → new_backoff base max_delay jitter ≡ some b
    → Accepted base max_delay jitter b
unfolding new_backoff
new_backoff-Accepted base max_delay jitter b h = ground arith

-- For every backoff that the constructor accepts: the delay before jitter never falls from one
-- attempt to a later one, lies between the base and the maximum, and doubles with each attempt
-- until it reaches the maximum; with a jitter drawn below 1 the delay lies between it and one jitter
-- more; and a Retry-After replaces all of this.
pub delay_shape :
    (base max_delay jitter : ℕ) (b : Backoff) (n random : ℕ)
    → new_backoff base max_delay jitter ≡ some b
    → random < random_scale
    → ((k : ℕ) → pre_jitter b n ≤ pre_jitter b (n + k))
      × (base ≤ pre_jitter b n)
      × (pre_jitter b n ≤ max_delay)
      × (pre_jitter b (suc n) ≡ min max_delay (2 * pre_jitter b n))
      × (pre_jitter b n * random_scale ≤ delay b n none random)
      × (delay b n none random ≤ (pre_jitter b n + jitter) * random_scale)
      × ((r : ℕ) → delay b n (some r) random ≡ r * random_scale)
unfolding delay
delay_shape base max_delay jitter b n random h small =
    let (fits, is_base, is_max, is_jitter) = new_backoff-Accepted base max_delay jitter b h in
    let noise : random * b.jitter ≤ random_scale * b.jitter =
      mul-le-mul_right b.jitter (omega arith) in
    (
      pre_jitter_mono b n,
      omega (arith, grown b.base n),
      omega arith,
      omega (arith, doubled b.base n),
      omega arith,
      omega arith,
      λ r. refl,
    )
