-- ===== src/Broker/Daemon/Slots.antt =====
-- The concurrency slots of the daemon: which requests take one and give one back.
use dev_harness.Common.{
  ℕ, ◌≡◌, refl, ap, ◌∙◌, inl, inr, Option, none, some, List, [], ◌∷◌, ◌==◌, nat_eq, string_eq,
  Bool-cases,
}
use dev_harness.Dict
use dev_harness.Dict.{Dict, AllValues, put-AllValues}
use dev_harness.Contracts.Enums.{provider_eq}
use dev_harness.Broker.Bucket.{TokenBucket, Attempt, granted, insufficient, value_error}
use dev_harness.Broker.Limiter
use dev_harness.Broker.Limiter.{LocalLimiter}
use dev_harness.Broker.KillSwitch
use dev_harness.Broker.Cost.{Registry, Committed, cost, unknown_model, budget_exceeded}
use dev_harness.Broker.Daemon.Messages.{
  ReserveArgs, CommitArgs, Request, commit, Answer, replied, refused, Surroundings,
}
use dev_harness.Broker.Daemon.{
  Daemon, take_slot, after_bucket, take_tokens, reserve_args, handle_reserve, settle,
  record_latency, handle_commit, handle, handle_all,
}

settle-limiters :
    (a : CommitArgs) (delta : ℕ) (outcome : Committed) (d : Daemon)
    → (settle a delta outcome d).0.limiters ≡ d.limiters
unfolding settle record_latency
settle-limiters a delta (cost c) d = refl
settle-limiters a delta budget_exceeded d = refl
settle-limiters a delta unknown_model d = refl

handle_commit-limiters :
    (env : Surroundings) (registry : Registry) (args : Option CommitArgs) (d : Daemon)
    → (handle_commit env registry args d).0.limiters ≡ d.limiters
unfolding handle_commit
handle_commit-limiters env registry none d = refl
handle_commit-limiters env registry (some a) d = elim (Bool-cases (a.model == "")) [
  | inl unnamed ↦ rw unnamed
  | inr named ↦ rw named (settle-limiters a _ _ _)
]

abbrev pub commits : List (Surroundings × Option CommitArgs) → List (Surroundings × Request)
commits [] = []
commits ((env, a) ∷ cs) = (env, commit a) ∷ commits cs

commits-limiters :
    (registry : Registry) (cs : List (Surroundings × Option CommitArgs)) (d : Daemon)
    → (handle_all registry (commits cs) d).0.limiters ≡ d.limiters
unfolding handle_all handle
commits-limiters registry [] d = refl
commits-limiters registry ((env, a) ∷ cs) d =
    commits-limiters registry cs (handle_commit env registry a d).0
    ∙ handle_commit-limiters env registry a d

abbrev pub IsRefusal : Answer → Type 0
IsRefusal (replied (refused _)) = Unit
IsRefusal _ = ⊥

module _ (env : Surroundings) (a : ReserveArgs) where
  take_slot_full :
      (b : Option TokenBucket) (l : LocalLimiter) (d : Daemon)
      → l.slots ≡ 0
      → IsRefusal (take_slot env a b (some l) d).1
  unfolding take_slot Limiter.acquire_now
  take_slot_full b l d h = rw h tt

  after_bucket_full :
      (b : TokenBucket) (attempt : Attempt) (l : LocalLimiter) (d : Daemon)
      → Dict.get a.provider d.limiters ≡ some l
      → l.slots ≡ 0
      → IsRefusal (after_bucket env a b attempt d).1
  unfolding after_bucket
  after_bucket_full b granted l d found full = rw found (take_slot_full (some b) l _ full)
  after_bucket_full b insufficient l d found full = tt
  after_bucket_full b value_error l d found full = tt

  take_tokens_full :
      (b : Option TokenBucket) (l : LocalLimiter) (d : Daemon)
      → Dict.get a.provider d.limiters ≡ some l
      → l.slots ≡ 0
      → IsRefusal (take_tokens env a b d).1
  unfolding take_tokens
  take_tokens_full none l d found full = rw found (take_slot_full none l d full)
  take_tokens_full (some b) l d found full = after_bucket_full _ _ l d found full

reserve_refused :
    (env : Surroundings) (a : ReserveArgs) (l : LocalLimiter) (d : Daemon)
    → Dict.get a.provider d.limiters ≡ some l
    → l.slots ≡ 0
    → IsRefusal (handle_reserve env (some a) d).1
unfolding handle_reserve reserve_args
reserve_refused env a l d found full = elim (Bool-cases (KillSwitch.check d.kill)) [
  | inl open_ ↦ rw open_ (take_tokens_full env a _ l d found full)
  | inr shut ↦ rw shut tt
]

-- A COMMIT gives no slot back: when a provider's limiter has no free slot, every RESERVE for that
-- provider is refused, and it still is after any number of COMMITs, whatever they commit.
pub commits_keep_full :
    (registry : Registry) (cs : List (Surroundings × Option CommitArgs)) (env : Surroundings)
    (a : ReserveArgs) (l : LocalLimiter) (d : Daemon)
    → Dict.get a.provider d.limiters ≡ some l
    → l.slots ≡ 0
    → IsRefusal (handle_reserve env (some a) (handle_all registry (commits cs) d).0).1
commits_keep_full registry cs env a l d found full =
    reserve_refused env a l _ (ap (Dict.get a.provider) (commits-limiters registry cs d) ∙ found)
      full
