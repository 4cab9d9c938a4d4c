-- ===== src/Broker/Daemon.antt =====
-- broker/daemon.py: the state of `BrokerDaemon` and its request handlers, each from the state before
-- to the state after and the answer. Sockets, the host lock and the published endpoint are left out.
pub mod Messages
pub mod Reserving
pub mod Sound
pub mod Kill
pub mod Slots
mod Tests
use dev_harness.Common.{
  ℕ, zero, suc, ◌+◌, ◌-◌, ◌*◌, ◌/◌, ◌%◌, ◌^◌, ◌≤◌, ◌<◌, min, String, ◌≡◌, refl, sym, ap, ◌∙◌, ◌≢◌,
  ◌↔◌, ◌⊎◌, inl, inr, Bool, true, false, not, ◌&&◌, ◌||◌, Option, none, some, List, [], ◌∷◌, ◌++◌,
  map, append-nil, append_assoc, arith, ltb, leb, ltb→lt, leb→le, le→leb, lt→leb_false, Eq, ◌==◌,
  nat_eq, string_eq, beq_refl, beq_sym_false, Bool-cases, Option-cases, if◌then◌else◌, length, take,
  drop, keep, length-append, keep-append,
}
use dev_harness.Dict
use dev_harness.Dict.{Dict}
use dev_harness.Contracts.Enums.{ProviderId, provider_eq}
use dev_harness.Broker.Bucket
use dev_harness.Broker.Bucket.{TokenBucket, Attempt, granted, insufficient, value_error}
use dev_harness.Broker.Limiter
use dev_harness.Broker.Limiter.{LocalLimiter}
use dev_harness.Broker.Reservation
use dev_harness.Broker.Reservation.{ReservationStore}
use dev_harness.Broker.Cost
use dev_harness.Broker.Cost.{
  Registry, CostGovernor, Committed, cost, unknown_model, budget_exceeded,
}
use dev_harness.Broker.KillSwitch
use dev_harness.Broker.KillSwitch.{KillSwitch}
use dev_harness.Broker.Daemon.Messages.{
  ReserveArgs, CommitArgs, ReleaseArgs, Request, health, reserve, commit, release, metrics, other,
  Reason, budget, rate_limited, saturated, error, Metrics, Reply, health_ok, reserved, refused,
  committed, released, metrics_snapshot, unknown_op, Answer, replied, raised, Surroundings,
}

pub record Daemon : Type 0 where
  pub buckets : Dict ProviderId TokenBucket
  pub limiters : Dict ProviderId LocalLimiter
  pub reservations : ReservationStore
  pub governor : CostGovernor
  pub kill : KillSwitch
  pub latencies : List ℕ
  pub p50_latency_ms : ℕ
  pub p95_latency_ms : ℕ
  pub cumulative_usd : ℕ
  pub tpm_burn : ℕ

module _ (env : Surroundings) (a : ReserveArgs) where
  grant : Daemon → Daemon × Answer
  grant d =
      let (s, r) =
        Reservation.create env.store_now env.fresh_id a.provider a.tokens a.callback_endpoint
          d.reservations in
      (record d { reservations = s }, replied (reserved env.fresh_id a.provider a.tokens))

  return_tokens : Option TokenBucket → Daemon → Daemon
  return_tokens none d = d
  return_tokens (some b) d = record d {
    buckets = Dict.put a.provider (Bucket.release a.tokens b).0 d.buckets;
  }

  take_slot : Option TokenBucket → Option LocalLimiter → Daemon → Daemon × Answer
  take_slot b none d = grant d
  take_slot b (some l) d =
      let (l', acquired) = Limiter.acquire_now l in
      let d' = record d { limiters = Dict.put a.provider l' d.limiters } in
      if acquired then grant d' else (return_tokens b d', replied (refused saturated))

  after_bucket : TokenBucket → Attempt → Daemon → Daemon × Answer
  after_bucket b granted d =
      take_slot (some b) (Dict.get a.provider d.limiters)
        (record d { buckets = Dict.put a.provider b d.buckets })
  after_bucket b insufficient d =
      (record d { buckets = Dict.put a.provider b d.buckets }, replied (refused rate_limited))
  after_bucket b value_error d = (d, replied (refused error))

  take_tokens : Option TokenBucket → Daemon → Daemon × Answer
  take_tokens none d = take_slot none (Dict.get a.provider d.limiters) d
  take_tokens (some b) d =
      let (b', attempt) = Bucket.try_acquire a.tokens env.bucket_now b in after_bucket b' attempt d

reserve_args : Surroundings → Option ReserveArgs → Daemon → Daemon × Answer
reserve_args env none d = (d, replied (refused error))
reserve_args env (some a) d = take_tokens env a (Dict.get a.provider d.buckets) d

-- `_reserve`
unfoldable pub handle_reserve : Surroundings → Option ReserveArgs → Daemon → Daemon × Answer
unfolding reserve_args take_tokens after_bucket take_slot return_tokens grant
handle_reserve env args d =
    if KillSwitch.check d.kill then reserve_args env args d else (d, replied (refused budget))

-- `if bucket is not None and amount > 0: bucket.release(amount)`
refund_bucket :
    ℕ → ProviderId → Option TokenBucket → Dict ProviderId TokenBucket → Dict ProviderId TokenBucket
refund_bucket amount p none buckets = buckets
refund_bucket amount p (some b) buckets =
    if ltb 0 amount then Dict.put p (Bucket.release amount b).0 buckets else buckets

unfoldable pub refund : ℕ → ProviderId → Dict ProviderId TokenBucket → Dict ProviderId TokenBucket
unfolding refund_bucket
refund amount p buckets = refund_bucket amount p (Dict.get p buckets) buckets

insert_sorted : ℕ → List ℕ → List ℕ
insert_sorted x [] = x ∷ []
insert_sorted x (y ∷ ys) = if leb x y then x ∷ y ∷ ys else y ∷ insert_sorted x ys

unfoldable pub sorted : List ℕ → List ℕ
unfolding insert_sorted
sorted [] = []
sorted (x ∷ xs) = insert_sorted x (sorted xs)

abbrev pub item_at : ℕ → List ℕ → ℕ
item_at i [] = 0
item_at zero (x ∷ xs) = x
item_at (suc i) (x ∷ xs) = item_at i xs

-- `_record_latency`; the list is never empty after the append.
unfoldable pub record_latency : ℕ → Daemon → Daemon
unfolding sorted
record_latency latency d =
    let latencies = d.latencies ++ latency ∷ [] in
    let samples = sorted latencies in
    let n = length samples in
    record d {
      latencies = latencies;
      p50_latency_ms = item_at (min (n - 1) (n / 2)) samples;
      p95_latency_ms = item_at (min (n - 1) (n * 19 / 20)) samples;
    }

-- What `_commit` does with the governor's answer; the reply's delta is already known.
settle : CommitArgs → ℕ → Committed → Daemon → Daemon × Answer
settle a delta (cost c) d =
    let d' = record_latency 0 (record d { tpm_burn = d.tpm_burn + (a.usage_in + a.usage_out) }) in
    (record d' { cumulative_usd = d'.governor.run_usd }, replied (committed delta))
settle a delta budget_exceeded d =
    (record d { kill = KillSwitch.trip a.callback_endpoint d.kill }, replied (committed delta))
settle a delta unknown_model d = (d, raised)

charge : Surroundings → Registry → CommitArgs → ℕ → Daemon → Daemon × Answer
charge env registry a delta d =
    let (g, outcome) =
      Cost.commit env.governor_now registry a.model
        (record { input_tokens = a.usage_in; output_tokens = a.usage_out }) d.governor in
    settle a delta outcome (record d { governor = g })

-- The store and the buckets after the first half of `_commit`.
committed_state : CommitArgs → Daemon → Daemon
committed_state a d =
    let (s, delta) = Reservation.commit a.reservation_id a.actual d.reservations in
    record d { reservations = s; buckets = refund delta a.provider d.buckets }

-- `_commit`
unfoldable pub handle_commit :
    Surroundings → Registry → Option CommitArgs → Daemon → Daemon × Answer
unfolding record_latency settle charge refund committed_state
handle_commit env registry none d = (d, raised)
handle_commit env registry (some a) d =
    let delta = (Reservation.commit a.reservation_id a.actual d.reservations).1 in
    let d' = committed_state a d in
    if a.model == "" then (d', replied (committed delta)) else charge env registry a delta d'

release_slot : ReleaseArgs → ℕ → Option LocalLimiter → Daemon → Daemon × Answer
release_slot a tokens none d = (d, replied (released tokens))
release_slot a tokens (some l) d =
    let (l', ok) = Limiter.release l in
    (
      record d { limiters = Dict.put a.provider l' d.limiters },
      if ok then replied (released tokens) else raised,
    )

-- `_release`
unfoldable pub handle_release : Option ReleaseArgs → Daemon → Daemon × Answer
unfolding release_slot refund
handle_release none d = (d, raised)
handle_release (some a) d =
    let (s, tokens) = Reservation.release a.reservation_id d.reservations in
    release_slot a tokens (Dict.get a.provider d.limiters)
      (record d { reservations = s; buckets = refund tokens a.provider d.buckets })

-- `_metrics_reply`
abbrev pub metrics_reply : Daemon → Reply
metrics_reply d = metrics_snapshot (record {
  p50_latency_ms = d.p50_latency_ms;
  p95_latency_ms = d.p95_latency_ms;
  tpm_burn = d.tpm_burn;
  cumulative_usd = d.cumulative_usd;
})

-- `_handle_message`
unfoldable pub handle : Surroundings → Registry → Request → Daemon → Daemon × Answer
unfolding handle_reserve handle_commit handle_release
handle env registry health d = (d, replied health_ok)
handle env registry (reserve args) d = handle_reserve env args d
handle env registry (commit args) d = handle_commit env registry args d
handle env registry (release args) d = handle_release args d
handle env registry metrics d = (d, replied (metrics_reply d))
handle env registry (other op) d = (d, replied (unknown_op op))

-- The messages of all connections in the order in which they are handled, with the answers.
unfoldable pub handle_all : Registry → List (Surroundings × Request) → Daemon → Daemon × List Answer
handle_all registry [] d = (d, [])
handle_all registry ((env, r) ∷ rs) d =
    let (d', answer) = handle env registry r d in
    let (d'', answers) = handle_all registry rs d' in (d'', answer ∷ answers)
