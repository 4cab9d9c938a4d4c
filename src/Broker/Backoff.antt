-- ===== src/Broker/Backoff.antt =====
-- broker/backoff.py. Delays are whole milliseconds, and `random()` is a multiple of 2^-53 below 1,
-- so the delay with its jitter is a whole number of 2^-53 milliseconds.
pub mod Laws
mod Tests
use dev_harness.Common.{
  ℕ, zero, suc, ◌+◌, ◌-◌, ◌*◌, ◌/◌, ◌%◌, ◌^◌, ◌≤◌, ◌<◌, min, String, ◌≡◌, refl, sym, ap, ◌∙◌, ◌≢◌,
  ◌↔◌, ◌⊎◌, inl, inr, Bool, true, false, not, ◌&&◌, ◌||◌, Option, none, some, List, [], ◌∷◌, ◌++◌,
  map, append-nil, append_assoc, arith, ltb, leb, ltb→lt, leb→le, le→leb, lt→leb_false, Eq, ◌==◌,
  nat_eq, string_eq, beq_refl, beq_sym_false, Bool-cases, Option-cases, if◌then◌else◌, length, take,
  drop, keep, length-append, keep-append,
}

pub record Backoff : Type 0 where
  pub base : ℕ
  pub max_delay : ℕ
  pub jitter : ℕ

abbrev pub random_scale : ℕ
random_scale = 2 ^ 53

-- `none` is the `ValueError`.
unfoldable pub new_backoff : ℕ → ℕ → ℕ → Option Backoff
new_backoff base max_delay jitter =
    if base == 0
    then none
    else if ltb max_delay base
    then none
    else some (record { base = base; max_delay = max_delay; jitter = jitter })

unfoldable pub pre_jitter : Backoff → ℕ → ℕ
pre_jitter b attempt = min b.max_delay (b.base * 2 ^ attempt)

-- `random` is what `random_fn` returns, times 2^53. The check `attempt < 0` cannot fire on a number.
unfoldable pub delay : Backoff → ℕ → Option ℕ → ℕ → ℕ
unfolding pre_jitter
delay b attempt (some retry_after) random = retry_after * random_scale
delay b attempt none random = pre_jitter b attempt * random_scale + random * b.jitter
