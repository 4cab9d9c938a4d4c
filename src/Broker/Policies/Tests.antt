-- ===== src/Broker/Policies/Tests.antt =====
-- A configuration of two providers.
use dev_harness.Common.{
  String, ◌≡◌, refl, none, some, List, [], ◌∷◌, ◌==◌, nat_eq, string_eq, if◌then◌else◌,
}
use dev_harness.Dict
use dev_harness.Dict.{AllValues}
use dev_harness.Contracts.Enums.{anthropic, provider_eq}
use dev_harness.Broker.Bucket.{new_bucket}
use dev_harness.Broker.Limiter.{new_limiter, pos}
use dev_harness.Broker.Policies.{
  ProviderPolicy, ProviderConfig, to_provider_id, load, get_by_name, Resources, rpm_bucket,
  build_buckets,
}

abbrev lower : String → String
lower s = if s == "Anthropic" then "anthropic" else s

abbrev hosted : ProviderPolicy
hosted = record { provider = anthropic; rpm = some 60; tpm = none; max_concurrency = some 2 }

abbrev blocks : List (String × ProviderConfig)
blocks = ("Anthropic", record { rpm = some 60; tpm = none; max_concurrency = some 2 }) ∷ []

found : get_by_name lower "Anthropic" (load lower blocks []) ≡ some hosted
unfolding get_by_name load to_provider_id Dict.get Dict.put
found = refl

abbrev resources : Resources
resources = (
  (anthropic, record { capacity = 3600000; refill_rate = 60; tokens = 3600000; last = 5 }) ∷ [],
  (anthropic, record { max_concurrency = 2; slots = 2; in_flight = pos 0; queue_depth = 0 }) ∷ [],
)

built : build_buckets 5 (hosted ∷ []) ([], []) ≡ some resources
unfolding build_buckets rpm_bucket new_bucket new_limiter Dict.put
built = refl
