-- ===== src/Broker/Fallback.antt =====
-- broker/fallback.py: the chain of providers. What the injected call answers for a provider is an
-- argument.
pub mod Laws
use dev_harness.Common.{
  ℕ, zero, suc, ◌+◌, ◌-◌, ◌*◌, ◌/◌, ◌%◌, ◌^◌, ◌≤◌, ◌<◌, min, String, ◌≡◌, refl, sym, ap, ◌∙◌, ◌≢◌,
  ◌↔◌, ◌⊎◌, inl, inr, Bool, true, false, not, ◌&&◌, ◌||◌, Option, none, some, List, [], ◌∷◌, ◌++◌,
  map, append-nil, append_assoc, arith, ltb, leb, ltb→lt, leb→le, le→leb, lt→leb_false, Eq, ◌==◌,
  nat_eq, string_eq, beq_refl, beq_sym_false, Bool-cases, Option-cases, if◌then◌else◌, length, take,
  drop, keep, length-append, keep-append,
}
use dev_harness.Dict
use dev_harness.Dict.{Dict}
use dev_harness.Contracts.Enums.{ProviderId, provider_eq, ProviderHealth, healthy, degraded}

-- `raised true` is a `ProviderError` whose `retryable` is set.
pub data Answer (A : Type 0) : Type 0 where
  value : A → Answer A
  raised : (retryable : Bool) → Answer A

pub data CallOutcome (A : Type 0) : Type 0 where
  result : (value : A) (provider : ProviderId) (retries : ℕ) → CallOutcome A
  propagated : ProviderId → CallOutcome A
  all_unavailable : CallOutcome A

pub record FallbackChain : Type 0 where
  pub providers : List ProviderId
  pub health : Dict ProviderId ProviderHealth

abbrev all_healthy : List ProviderId → Dict ProviderId ProviderHealth
all_healthy [] = []
all_healthy (p ∷ ps) = Dict.put p healthy (all_healthy ps)

-- `none` is the `ValueError` of an empty list.
unfoldable pub new_chain : List ProviderId → Option FallbackChain
new_chain [] = none
new_chain (p ∷ ps) = some (record { providers = p ∷ ps; health = all_healthy (p ∷ ps) })

abbrev or_healthy : Option ProviderHealth → ProviderHealth
or_healthy none = healthy
or_healthy (some h) = h

unfoldable pub health_of : FallbackChain → ProviderId → ProviderHealth
health_of c p = or_healthy (Dict.get p c.health)

abbrev is_degraded_health : ProviderHealth → Bool
is_degraded_health degraded = true
is_degraded_health healthy = false

abbrev any_degraded : Dict ProviderId ProviderHealth → Bool
any_degraded [] = false
any_degraded ((p, h) ∷ d) = is_degraded_health h || any_degraded d

unfoldable pub is_degraded : FallbackChain → Bool
is_degraded c = any_degraded c.health

module _ {A : Type 0} (fn : ProviderId → Answer A) where
  -- The loop of `call`, over the providers left, the health so far and the retries so far.
  unfoldable pub call_loop :
      List ProviderId
      → Dict ProviderId ProviderHealth
      → ℕ
      → Dict ProviderId ProviderHealth × CallOutcome A
  call_loop [] health retries = (health, all_unavailable)
  call_loop (p ∷ ps) health retries = elim (fn p) [
    | value v ↦ (Dict.put p healthy health, result v p retries)
    | raised retryable ↦
        let next = call_loop ps (Dict.put p degraded health) (retries + 1) in
        if retryable then next else (health, propagated p)
  ]

  unfoldable pub call : FallbackChain → FallbackChain × CallOutcome A
  unfolding call_loop
  call c =
      let (health, outcome) = call_loop c.providers c.health 0 in
      (record c { health = health }, outcome)
