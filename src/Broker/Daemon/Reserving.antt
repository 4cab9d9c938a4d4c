-- ===== src/Broker/Daemon/Reserving.antt =====
-- What keeps a daemon sound, and that a RESERVE does: broker/daemon.py, `_reserve`.
use dev_harness.Common.{◌≡◌, refl, inl, inr, Option, none, some, nat_eq, string_eq, Bool-cases}
use dev_harness.Dict
use dev_harness.Dict.{Dict, AllValues, put-AllValues}
use dev_harness.Contracts.Enums.{ProviderId, provider_eq}
use dev_harness.Broker.Bucket
use dev_harness.Broker.Bucket.{TokenBucket, Attempt, granted, insufficient, value_error}
use dev_harness.Broker.Bucket.Laws as BucketLaws
use dev_harness.Broker.Limiter
use dev_harness.Broker.Limiter.{LocalLimiter}
use dev_harness.Broker.Limiter.Laws as LimiterLaws
use dev_harness.Broker.Reservation.Laws as StoreLaws
use dev_harness.Broker.KillSwitch
use dev_harness.Broker.Cost.Laws as CostLaws
use dev_harness.Broker.Daemon.Messages.{ReserveArgs, Surroundings}
use dev_harness.Broker.Daemon.{
  Daemon, grant, return_tokens, take_slot, after_bucket, take_tokens, reserve_args, handle_reserve,
}

pub record IsSound (d : Daemon) : Type 0 where
  pub buckets : AllValues BucketLaws.IsValid d.buckets
  pub limiters : AllValues LimiterLaws.IsBounded d.limiters
  pub governor : CostLaws.IsBudgeted d.governor
  pub store : StoreLaws.IsStore d.reservations

-- Writing one part of a sound daemon back with its own property keeps it sound.
with_bucket :
    (d : Daemon) (p : ProviderId) (b : TokenBucket)
    → IsSound d
    → BucketLaws.IsValid b
    → IsSound (record d { buckets = Dict.put p b d.buckets })
with_bucket d p b s v = record {
  buckets = put-AllValues BucketLaws.IsValid p b d.buckets s.buckets v;
  limiters = s.limiters;
  governor = s.governor;
  store = s.store;
}

pub with_limiter :
    (d : Daemon) (p : ProviderId) (l : LocalLimiter)
    → IsSound d
    → LimiterLaws.IsBounded l
    → IsSound (record d { limiters = Dict.put p l d.limiters })
with_limiter d p l s v = record {
  buckets = s.buckets;
  limiters = put-AllValues LimiterLaws.IsBounded p l d.limiters s.limiters v;
  governor = s.governor;
  store = s.store;
}

module _ (env : Surroundings) (a : ReserveArgs) where
  grant-IsSound : (d : Daemon) → IsSound d → IsSound (grant env a d).0
  unfolding grant
  grant-IsSound d s = record {
    buckets = s.buckets;
    limiters = s.limiters;
    governor = s.governor;
    store =
        StoreLaws.create-IsStore env.store_now env.fresh_id a.provider a.tokens a.callback_endpoint
          d.reservations s.store;
  }

  return_tokens-IsSound :
      (b : TokenBucket) (d : Daemon)
      → BucketLaws.IsValid b
      → IsSound d
      → IsSound (return_tokens env a (some b) d)
  unfolding return_tokens
  return_tokens-IsSound b d v s =
      with_bucket d a.provider _ s (BucketLaws.release-IsValid a.tokens b v)

  abbrev ValidOption : Option TokenBucket → Type 0
  ValidOption none = Unit
  ValidOption (some b) = BucketLaws.IsValid b

  refuse-IsSound :
      (b : Option TokenBucket) (d : Daemon)
      → ValidOption b
      → IsSound d
      → IsSound (return_tokens env a b d)
  unfolding return_tokens
  refuse-IsSound none d v s = s
  refuse-IsSound (some b) d v s = return_tokens-IsSound b d v s

  take_slot-IsSound :
      (b : Option TokenBucket) (l : Option LocalLimiter) (d : Daemon)
      → ValidOption b
      → ((l' : LocalLimiter) → l ≡ some l' → LimiterLaws.IsBounded l')
      → IsSound d
      → IsSound (take_slot env a b l d).0
  unfolding take_slot
  take_slot-IsSound b none d v bounded s = grant-IsSound d s
  take_slot-IsSound b (some l) d v bounded s =
      let kept =
        with_limiter d a.provider (Limiter.acquire_now l).0 s
          (LimiterLaws.acquire_now-IsBounded l (bounded l refl)) in
      elim (Bool-cases (Limiter.acquire_now l).1) [
        | inl taken ↦ rw taken (grant-IsSound _ kept)
        | inr full ↦ rw full (refuse-IsSound b _ v kept)
      ]

  after_bucket-IsSound :
      (b : TokenBucket) (attempt : Attempt) (d : Daemon)
      → BucketLaws.IsValid b
      → IsSound d
      → IsSound (after_bucket env a b attempt d).0
  unfolding after_bucket
  after_bucket-IsSound b granted d v s =
      take_slot-IsSound (some b) (Dict.get a.provider d.limiters) _ v (s.limiters a.provider)
        (with_bucket d a.provider b s v)
  after_bucket-IsSound b insufficient d v s = with_bucket d a.provider b s v
  after_bucket-IsSound b value_error d v s = s

  take_tokens-IsSound :
      (b : Option TokenBucket) (d : Daemon)
      → ((b' : TokenBucket) → b ≡ some b' → BucketLaws.IsValid b')
      → IsSound d
      → IsSound (take_tokens env a b d).0
  unfolding take_tokens
  take_tokens-IsSound none d v s =
      take_slot-IsSound none (Dict.get a.provider d.limiters) d tt (s.limiters a.provider) s
  take_tokens-IsSound (some b) d v s =
      after_bucket-IsSound _ (Bucket.try_acquire a.tokens env.bucket_now b).1 d
        (BucketLaws.try_acquire-IsValid a.tokens env.bucket_now b (v b refl)) s

reserve_args-IsSound :
    (env : Surroundings) (args : Option ReserveArgs) (d : Daemon)
    → IsSound d
    → IsSound (reserve_args env args d).0
unfolding reserve_args
reserve_args-IsSound env none d s = s
reserve_args-IsSound env (some a) d s =
    take_tokens-IsSound env a (Dict.get a.provider d.buckets) d (s.buckets a.provider) s

pub handle_reserve-IsSound :
    (env : Surroundings) (args : Option ReserveArgs) (d : Daemon)
    → IsSound d
    → IsSound (handle_reserve env args d).0
unfolding handle_reserve
handle_reserve-IsSound env args d s = elim (Bool-cases (KillSwitch.check d.kill)) [
  | inl open_ ↦ rw open_ (reserve_args-IsSound env args d s)
  | inr shut ↦ rw shut s
]
