-- ===== src/Broker/Backoff/Tests.antt =====
-- The default backoff at one attempt.
use dev_harness.Common.{◌≡◌, refl, nat_eq, string_eq}
use dev_harness.Broker.Backoff.{Backoff, pre_jitter}

abbrev default : Backoff
default = record { base = 1000; max_delay = 60000; jitter = 500 }

pre_jitter_runs : (pre_jitter default 3 ≡ 8000) × (pre_jitter default 9 ≡ 60000)
unfolding pre_jitter
pre_jitter_runs = (refl, refl)
