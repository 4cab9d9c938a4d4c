-- ===== src/Broker/Policies.antt =====
-- broker/policies.py: the policies of the configured providers; and from broker/daemon.py the buckets
-- and limiters that the daemon builds from them. `str.lower` is a parameter.
pub mod Laws
mod Tests
use dev_harness.Common.{
  ℕ, ◌*◌, String, Bool, Option, none, some, List, [], ◌∷◌, map, Eq, ◌==◌, nat_eq, string_eq,
  if◌then◌else◌,
}
use dev_harness.Dict
use dev_harness.Dict.{Dict}
use dev_harness.Contracts.Enums.{ProviderId, anthropic, openrouter, ollama, provider_eq}
use dev_harness.Broker.Bucket
use dev_harness.Broker.Bucket.{TokenBucket, new_bucket}
use dev_harness.Broker.Limiter
use dev_harness.Broker.Limiter.{LocalLimiter, new_limiter}

pub record ProviderPolicy : Type 0 where
  pub provider : ProviderId
  pub rpm : Option ℕ
  pub tpm : Option ℕ
  pub max_concurrency : Option ℕ

-- `is_local`
abbrev pub is_local : ProviderPolicy → Bool
is_local p = p.provider == ollama

-- A provider block of the configuration.
pub record ProviderConfig : Type 0 where
  pub rpm : Option ℕ
  pub tpm : Option ℕ
  pub max_concurrency : Option ℕ

abbrev pub provider_value : ProviderId → String
provider_value anthropic = "anthropic"
provider_value openrouter = "openrouter"
provider_value ollama = "ollama"

abbrev pub Policies : Type 0
Policies = Dict ProviderId ProviderPolicy

module _ (lower : String → String) where
  -- `_to_provider_id`
  unfoldable pub to_provider_id : String → ProviderId
  to_provider_id name =
      if provider_value anthropic == lower name
      then anthropic
      else if provider_value openrouter == lower name
      then openrouter
      else ollama

  -- `_load`, from the policies registered so far.
  unfoldable pub load : List (String × ProviderConfig) → Policies → Policies
  load [] ps = ps
  load ((name, c) ∷ cs) ps =
      let p = to_provider_id name in
      load cs (
        Dict.put p
          (record { provider = p; rpm = c.rpm; tpm = c.tpm; max_concurrency = c.max_concurrency })
          ps)

  -- `get` with a name; `none` is the `UnknownProviderError`.
  unfoldable pub get_by_name : String → Policies → Option ProviderPolicy
  get_by_name name ps =
      let p = to_provider_id name in if provider_value p == lower name then Dict.get p ps else none

-- `all`
unfoldable pub all : Policies → List ProviderPolicy
all ps = map (λ (item : ProviderId × ProviderPolicy). item.1) ps

abbrev pub Resources : Type 0
Resources = Dict ProviderId TokenBucket × Dict ProviderId LocalLimiter

-- A bucket of `rpm` tokens, that refills `rpm / 60` tokens a second.
unfoldable pub rpm_bucket : ℕ → ℕ → Option TokenBucket
rpm_bucket now rpm = new_bucket (rpm * 60000) rpm now

add_bucket : ProviderId → Option TokenBucket → Resources → Option Resources
add_bucket p none r = none
add_bucket p (some b) r = some (Dict.put p b r.0, r.1)

with_rpm : ℕ → ProviderId → Option ℕ → Resources → Option Resources
with_rpm now p none r = some r
with_rpm now p (some rpm) r = add_bucket p (rpm_bucket now rpm) r

add_limiter : ProviderId → Option LocalLimiter → Resources → Option Resources
add_limiter p none r = none
add_limiter p (some l) r = some (r.0, Dict.put p l r.1)

with_concurrency : ProviderId → Option ℕ → Option Resources → Option Resources
with_concurrency p n none = none
with_concurrency p none (some r) = some r
with_concurrency p (some n) (some r) = add_limiter p (new_limiter n) r

build_next : (Resources → Option Resources) → Option Resources → Option Resources
build_next k none = none
build_next k (some r) = k r

-- `_build_buckets`; `none` is a `ValueError` of a bucket or a limiter.
unfoldable pub build_buckets : ℕ → List ProviderPolicy → Resources → Option Resources
unfolding with_rpm with_concurrency add_bucket add_limiter build_next
build_buckets now [] r = some r
build_buckets now (p ∷ ps) r =
    build_next (build_buckets now ps)
      (with_concurrency p.provider p.max_concurrency (with_rpm now p.provider p.rpm r))
