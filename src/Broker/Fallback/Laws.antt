-- ===== src/Broker/Fallback/Laws.antt =====
-- The chain returns the first answer that is no retryable error.
use native.Mathlib.Nat.{add-zero}
use dev_harness.Common.{
  ℕ, ◌+◌, ◌≡◌, refl, ap, ◌∙◌, true, false, List, [], ◌∷◌, ◌++◌, arith, nat_eq, string_eq, length,
}
use dev_harness.Dict
use dev_harness.Dict.{Dict, dict_laws}
use dev_harness.Contracts.Enums.{ProviderId, provider_eq, ProviderHealth, healthy, degraded}
use dev_harness.Broker.Fallback.{
  Answer, value, raised, result, propagated, all_unavailable, call_loop,
}

module _ {A : Type 0} (fn : ProviderId → Answer A) where
  -- Every provider of the list answers with a retryable error.
  abbrev pub AllRetryable : List ProviderId → Type 0
  AllRetryable [] = Unit
  AllRetryable (p ∷ ps) = (fn p ≡ raised true) × AllRetryable ps

  abbrev pub degrade :
      List ProviderId → Dict ProviderId ProviderHealth → Dict ProviderId ProviderHealth
  degrade [] h = h
  degrade (p ∷ ps) h = degrade ps (Dict.put p degraded h)

  skipped :
      (p : ProviderId) (ps : List ProviderId) (h : Dict ProviderId ProviderHealth) (n : ℕ)
      → fn p ≡ raised true
      → call_loop fn (p ∷ ps) h n ≡ call_loop fn ps (Dict.put p degraded h) (n + 1)
  unfolding call_loop
  skipped p ps h n e = rw (e, call_loop)

  -- Whatever the chain and whatever the providers answer: providers that answer with a retryable
  -- error are recorded as degraded and skipped, each at the cost of one retry. The first one that
  -- answers with a value is recorded as healthy and gives the result; the first one that raises
  -- another error ends the call with that error; and if all are skipped, none is available.
  pub call_loop_first :
      (ps : List ProviderId) (h : Dict ProviderId ProviderHealth) (n : ℕ)
      → AllRetryable ps
      → (call_loop fn ps h n ≡ (degrade ps h, all_unavailable))
        × ((p : ProviderId) (rest : List ProviderId) (v : A)
            → fn p ≡ value v
            → call_loop fn (ps ++ p ∷ rest) h n
              ≡ (Dict.put p healthy (degrade ps h), result v p (n + length ps)))
        × ((p : ProviderId) (rest : List ProviderId)
            → fn p ≡ raised false
            → call_loop fn (ps ++ p ∷ rest) h n ≡ (degrade ps h, propagated p))
  unfolding call_loop
  call_loop_first [] h n a = (refl, λ p rest v e. rw (e, add-zero), λ p rest e. rw e)
  call_loop_first (q ∷ ps) h n a =
      let (unavailable, first, stop) = call_loop_first ps (Dict.put q degraded h) (n + 1) a.1 in
      (
        skipped q ps h n a.0 ∙ unavailable,
        λ p rest v e.
            skipped q (ps ++ p ∷ rest) h n a.0
            ∙ first p rest v e
            ∙ ap (λ k. (Dict.put p healthy (degrade (q ∷ ps) h), result v p k)) (omega arith),
        λ p rest e. skipped q (ps ++ p ∷ rest) h n a.0 ∙ stop p rest e,
      )
