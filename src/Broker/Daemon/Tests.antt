-- ===== src/Broker/Daemon/Tests.antt =====
-- The daemon on a concrete state and concrete requests.
use dev_harness.Common.{
  ◌↔◌, ℕ, ◌-◌, String, ◌≡◌, refl, true, Option, some, List, [], ◌∷◌, arith, nat_eq, string_eq,
}
use dev_harness.Dict
use dev_harness.Dict.{Dict, AllValues, put-AllValues}
use dev_harness.Contracts.Enums.{ProviderId, provider_eq, openrouter}
use dev_harness.Broker.Bucket.{TokenBucket}
use dev_harness.Broker.Bucket.Laws as BucketLaws
use dev_harness.Broker.Limiter.{LocalLimiter, pos}
use dev_harness.Broker.Limiter.Laws as LimiterLaws
use dev_harness.Broker.Reservation
use dev_harness.Broker.KillSwitch
use dev_harness.Broker.Cost
use dev_harness.Broker.Cost.{Registry, budget_exceeded}
use dev_harness.Broker.Daemon.Messages.{
  ReserveArgs, CommitArgs, Request, reserve, commit, release, replied, reserved, committed,
  released, refused, budget, Surroundings,
}
use dev_harness.Broker.Daemon.{Daemon, handle_reserve, handle_commit, handle_all}
use dev_harness.Broker.Daemon.Sound.{handle_all-IsSound}
use dev_harness.Broker.Daemon.Reserving.{IsSound}
use dev_harness.Broker.Cost.Refusals.{Overspends}
use dev_harness.Broker.Daemon.Kill.{tripped_refuses, commit_trips}
use dev_harness.Broker.Daemon.Slots.{IsRefusal, commits, commits_keep_full}

abbrev priced : Registry
priced name = some (record {
  model_id = name;
  provider = openrouter;
  context_window = 8192;
  max_output = 4096;
  usd_per_mtok_in = 2;
  usd_per_mtok_out = 5;
})

abbrev bucket : TokenBucket
bucket = record { capacity = 100; refill_rate = 0; tokens = 100; last = 0 }

abbrev limiter : ℕ → LocalLimiter
limiter n = record { max_concurrency = 2; slots = n; in_flight = pos (2 - n); queue_depth = 0 }

abbrev daemon : ℕ → Daemon
daemon n = record {
  buckets = Dict.put openrouter bucket [];
  limiters = Dict.put openrouter (limiter n) [];
  reservations = Reservation.new_store;
  governor = Cost.new_governor (some 100) (some 60) 0;
  kill = KillSwitch.new_switch;
  latencies = [];
  p50_latency_ms = 0;
  p95_latency_ms = 0;
  cumulative_usd = 0;
  tpm_burn = 0;
}

abbrev at_time : ℕ → String → Surroundings
at_time n id = record { bucket_now = n; store_now = n; governor_now = n; fresh_id = id }

abbrev wanted : ReserveArgs
wanted = record { provider = openrouter; tokens = 40; callback_endpoint = "cb" }

abbrev paid : ℕ → CommitArgs
paid n = record {
  reservation_id = "r1";
  actual = 15;
  model = "m";
  usage_in = n;
  usage_out = 1;
  provider = openrouter;
  callback_endpoint = "cb";
}

abbrev traffic : List (Surroundings × Request)
traffic =
    (at_time 1 "r1", reserve (some wanted))
    ∷ (at_time 2 "", commit (some (paid 5)))
    ∷ (at_time 3 "r2", reserve (some wanted))
    ∷ (at_time 4 "", release (some (record { reservation_id = "r2"; provider = openrouter })))
    ∷ []

traffic_answers :
    (handle_all priced traffic (daemon 2)).1
    ≡ replied (reserved "r1" openrouter 40)
      ∷ replied (committed 25)
      ∷ replied (reserved "r2" openrouter 40)
      ∷ replied (released 40)
      ∷ []
unfolding handle_all Dict.put dev_harness.Broker.Daemon.handle KillSwitch.check Dict.get
    dev_harness.Broker.Bucket.try_acquire dev_harness.Broker.Limiter.acquire_now Cost.commit
    Reservation.commit Reservation.create dev_harness.Broker.Bucket.release
    dev_harness.Broker.Limiter.release Reservation.release
traffic_answers = refl

no_values : {V : Type 0} (P : V → Type 0) → AllValues {K = ProviderId} P []
unfolding Dict.get
no_values P k v found = ground arith

daemon-IsSound : IsSound (daemon 2)
daemon-IsSound = record {
  buckets =
      put-AllValues BucketLaws.IsValid openrouter bucket [] (no_values BucketLaws.IsValid)
        (omega arith);
  limiters =
      put-AllValues LimiterLaws.IsBounded openrouter (limiter 2) []
        (no_values LimiterLaws.IsBounded) (omega arith);
  governor = record {
    run = λ c e. omega arith;
    day = λ c e. omega arith;
    day_in_run = omega arith;
  };
  store = tt;
}

handle_all-IsSound_example : IsSound (handle_all priced traffic (daemon 2)).0
handle_all-IsSound_example = handle_all-IsSound priced traffic (daemon 2) daemon-IsSound

abbrev stopped : Daemon
stopped = record (daemon 2) { kill = record { tripped = true; emitted = 1; sent = [] } }

tripped_refuses_example :
    let d' = (handle_all priced traffic stopped).0 in
    (d'.kill ≡ stopped.kill)
    × ((env : Surroundings) (args : Option ReserveArgs)
        → handle_reserve env args d' ≡ (d', replied (refused budget)))
tripped_refuses_example = tripped_refuses priced traffic stopped refl

too_much :
    (Cost.commit 2 priced "m"
      (record { input_tokens = 500; output_tokens = 1 })
      (daemon 2).governor).1
    ≡ budget_exceeded
unfolding Cost.commit
too_much = refl

commit_trips_example :
    let kill = (handle_commit (at_time 2 "") priced (some (paid 500)) (daemon 2)).0.kill in
    (kill.tripped ≡ true
      ↔ Overspends 2 priced "m"
          (record { input_tokens = 500; output_tokens = 1 })
          (daemon 2).governor)
    × (kill.tripped ≡ true → kill.sent ≡ KillSwitch.stop_request "cb" ∷ [])
commit_trips_example = commit_trips (at_time 2 "") priced (paid 500) (daemon 2) refl refl

limiter_found : (n : ℕ) → Dict.get openrouter (daemon n).limiters ≡ some (limiter n)
unfolding Dict.get Dict.put
limiter_found n = refl

commits_keep_full_example :
    IsRefusal
      (handle_reserve
        (at_time 3 "r3")
        (some wanted)
        (handle_all priced (commits ((at_time 2 "", some (paid 5)) ∷ [])) (daemon 0)).0).1
commits_keep_full_example =
    commits_keep_full priced ((at_time 2 "", some (paid 5)) ∷ []) (at_time 3 "r3") wanted
      (limiter 0) (daemon 0) (limiter_found 0) refl
