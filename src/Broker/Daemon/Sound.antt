-- ===== src/Broker/Daemon/Sound.antt =====
-- Every request keeps the daemon's parts within their bounds.
use dev_harness.Common.{
  ℕ, ◌≡◌, refl, inl, inr, Option, none, some, List, [], ◌∷◌, ltb, ◌==◌, nat_eq, string_eq,
  Bool-cases,
}
use dev_harness.Dict
use dev_harness.Dict.{Dict, AllValues, put-AllValues}
use dev_harness.Contracts.Enums.{ProviderId, provider_eq}
use dev_harness.Broker.Bucket.{TokenBucket}
use dev_harness.Broker.Bucket.Laws as BucketLaws
use dev_harness.Broker.Limiter.{LocalLimiter}
use dev_harness.Broker.Limiter.Laws as LimiterLaws
use dev_harness.Broker.Reservation.Laws as StoreLaws
use dev_harness.Broker.Cost.{Registry, Committed, cost, unknown_model, budget_exceeded}
use dev_harness.Broker.Cost.Laws as CostLaws
use dev_harness.Broker.Daemon.Messages.{
  CommitArgs, ReleaseArgs, Request, health, reserve, commit, release, metrics, other, Surroundings,
}
use dev_harness.Broker.Daemon.{
  Daemon, release_slot, refund_bucket, settle, charge, record_latency, committed_state,
  handle_commit, handle_release, refund, handle, handle_all,
}
use dev_harness.Broker.Daemon.Reserving.{IsSound, with_limiter, handle_reserve-IsSound}

refund_bucket-AllValues :
    (amount : ℕ) (p : ProviderId) (b : Option TokenBucket) (buckets : Dict ProviderId TokenBucket)
    → ((b' : TokenBucket) → b ≡ some b' → BucketLaws.IsValid b')
    → AllValues BucketLaws.IsValid buckets
    → AllValues BucketLaws.IsValid (refund_bucket amount p b buckets)
unfolding refund_bucket
refund_bucket-AllValues amount p none buckets v all = all
refund_bucket-AllValues amount p (some b) buckets v all = elim (Bool-cases (ltb 0 amount)) [
  | inl some_left ↦ rw some_left (
      put-AllValues BucketLaws.IsValid p _ buckets all
        (BucketLaws.release-IsValid amount b (v b refl)))
  | inr nothing ↦ rw nothing all
]

refund-AllValues :
    (amount : ℕ) (p : ProviderId) (buckets : Dict ProviderId TokenBucket)
    → AllValues BucketLaws.IsValid buckets
    → AllValues BucketLaws.IsValid (refund amount p buckets)
unfolding refund
refund-AllValues amount p buckets all =
    refund_bucket-AllValues amount p (Dict.get p buckets) buckets (all p) all

settle-IsSound :
    (a : CommitArgs) (delta : ℕ) (outcome : Committed) (d : Daemon)
    → IsSound d
    → IsSound (settle a delta outcome d).0
unfolding settle record_latency
settle-IsSound a delta (cost c) d s = record {
  buckets = s.buckets;
  limiters = s.limiters;
  governor = s.governor;
  store = s.store;
}
settle-IsSound a delta budget_exceeded d s = record {
  buckets = s.buckets;
  limiters = s.limiters;
  governor = s.governor;
  store = s.store;
}
settle-IsSound a delta unknown_model d s = s

module _ (env : Surroundings) (registry : Registry) where
  charge-IsSound :
      (a : CommitArgs) (delta : ℕ) (d : Daemon)
      → IsSound d
      → IsSound (charge env registry a delta d).0
  unfolding charge
  charge-IsSound a delta d s = settle-IsSound a delta _ _ (record {
    buckets = s.buckets;
    limiters = s.limiters;
    governor =
        CostLaws.commit-IsBudgeted registry
          (record {
            now = env.governor_now;
            model = a.model;
            usage = record { input_tokens = a.usage_in; output_tokens = a.usage_out };
          })
          d.governor s.governor;
    store = s.store;
  })

  handle_commit-IsSound :
      (args : Option CommitArgs) (d : Daemon)
      → IsSound d
      → IsSound (handle_commit env registry args d).0
  unfolding handle_commit
  handle_commit-IsSound none d s = s
  handle_commit-IsSound (some a) d s =
      let stored : IsSound (committed_state a d) = record {
        buckets = refund-AllValues _ a.provider d.buckets s.buckets;
        limiters = s.limiters;
        governor = s.governor;
        store = StoreLaws.commit-IsStore a.reservation_id a.actual d.reservations s.store;
      } in
      elim (Bool-cases (a.model == "")) [
        | inl unnamed ↦ rw unnamed stored
        | inr named ↦ rw named (charge-IsSound a _ _ stored)
      ]

release_slot-IsSound :
    (a : ReleaseArgs) (tokens : ℕ) (l : Option LocalLimiter) (d : Daemon)
    → ((l' : LocalLimiter) → l ≡ some l' → LimiterLaws.IsBounded l')
    → IsSound d
    → IsSound (release_slot a tokens l d).0
unfolding release_slot
release_slot-IsSound a tokens none d v s = s
release_slot-IsSound a tokens (some l) d v s =
    with_limiter d a.provider _ s (LimiterLaws.release-IsBounded l (v l refl))

handle_release-IsSound :
    (args : Option ReleaseArgs) (d : Daemon) → IsSound d → IsSound (handle_release args d).0
unfolding handle_release
handle_release-IsSound none d s = s
handle_release-IsSound (some a) d s =
    release_slot-IsSound a _ (Dict.get a.provider d.limiters) _ (s.limiters a.provider) (record {
      buckets = refund-AllValues _ a.provider d.buckets s.buckets;
      limiters = s.limiters;
      governor = s.governor;
      store = StoreLaws.release-IsStore a.reservation_id d.reservations s.store;
    })

-- Every request, valid or not, refused or granted, keeps a sound daemon sound.
pub handle-IsSound :
    (env : Surroundings) (registry : Registry) (r : Request) (d : Daemon)
    → IsSound d
    → IsSound (handle env registry r d).0
unfolding handle
handle-IsSound env registry health d s = s
handle-IsSound env registry (reserve args) d s = handle_reserve-IsSound env args d s
handle-IsSound env registry (commit args) d s = handle_commit-IsSound env registry args d s
handle-IsSound env registry (release args) d s = handle_release-IsSound args d s
handle-IsSound env registry metrics d s = s
handle-IsSound env registry (other op) d s = s

-- However many requests a sound daemon handles, in whatever order and at whatever times: no bucket
-- holds more than its capacity, no limiter has more free slots than its ceiling, the spending stays
-- within the configured budgets, and no reservation id stands twice.
pub handle_all-IsSound :
    (registry : Registry) (rs : List (Surroundings × Request)) (d : Daemon)
    → IsSound d
    → IsSound (handle_all registry rs d).0
unfolding handle_all
handle_all-IsSound registry [] d s = s
handle_all-IsSound registry ((env, r) ∷ rs) d s =
    handle_all-IsSound registry rs (handle env registry r d).0 (handle-IsSound env registry r d s)
