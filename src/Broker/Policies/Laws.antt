-- ===== src/Broker/Policies/Laws.antt =====
-- broker/policies.py and the daemon's start: the registry's keys, and that a daemon starts sound.
use dev_harness.Common.{
  ℕ, ◌*◌, String, ◌≡◌, refl, ap, ◌∙◌, inl, inr, Option, none, some, List, [], ◌∷◌, arith, ◌==◌,
  nat_eq, string_eq, Bool-cases,
}
use mathlib.Core.Path.{subst}
use dev_harness.Dict
use dev_harness.Dict.{Dict, AllValues, put-AllValues, get-put}
use dev_harness.Contracts.Enums.{ProviderId, provider_eq}
use dev_harness.Broker.Bucket.{TokenBucket}
use dev_harness.Broker.Bucket.Laws as BucketLaws
use dev_harness.Broker.Limiter.{LocalLimiter, new_limiter}
use dev_harness.Broker.Limiter.Laws as LimiterLaws
use dev_harness.Broker.Policies.{
  ProviderPolicy, ProviderConfig, provider_value, Policies, to_provider_id, load, get_by_name,
  Resources, rpm_bucket, add_bucket, with_rpm, add_limiter, with_concurrency, build_next,
  build_buckets,
}

-- Each policy stands under its own provider.
abbrev pub IsKeyed : Policies → Type 0
IsKeyed ps = (k : ProviderId) (p : ProviderPolicy) → Dict.get k ps ≡ some p → p.provider ≡ k

put-IsKeyed :
    (k : ProviderId) (p : ProviderPolicy) (ps : Policies)
    → p.provider ≡ k
    → IsKeyed ps
    → IsKeyed (Dict.put k p ps)
put-IsKeyed k p ps own keyed j q found = elim (Bool-cases (k == j)) [
  | inl same ↦ ground (arith, get-put k j p ps, provider_eq.beq_iff k j)
  | inr other ↦ keyed j q (rw (get-put, other) at found)
]

empty-IsKeyed : IsKeyed []
unfolding Dict.get
empty-IsKeyed k p found = ground arith

module _ (lower : String → String) where
  load-IsKeyed :
      (cs : List (String × ProviderConfig)) (ps : Policies)
      → IsKeyed ps
      → IsKeyed (load lower cs ps)
  unfolding load
  load-IsKeyed [] ps keyed = keyed
  load-IsKeyed ((name, c) ∷ cs) ps keyed =
      load-IsKeyed cs _ (put-IsKeyed (to_provider_id lower name) _ ps refl keyed)

  -- A policy found by a name is the one that the configuration gives to the provider of that name: its
  -- provider's value is the name in lower case.
  pub get_by_name-provider :
      (cs : List (String × ProviderConfig)) (name : String) (p : ProviderPolicy)
      → get_by_name lower name (load lower cs []) ≡ some p
      → provider_value p.provider ≡ lower name
  unfolding get_by_name
  get_by_name-provider cs name p found =
      elim (Bool-cases (provider_value (to_provider_id lower name) == lower name)) [
        | inr unknown ↦ ground arith
        | inl known ↦
            let here : Dict.get (to_provider_id lower name) (load lower cs []) ≡ some p =
              rw known at found in
            let own = load-IsKeyed cs [] empty-IsKeyed (to_provider_id lower name) p here in
            ap provider_value own
            ∙ (string_eq.beq_iff (provider_value (to_provider_id lower name)) (lower name)).0 known
      ]

abbrev pub IsGood : Resources → Type 0
IsGood r = AllValues BucketLaws.IsValid r.0 × AllValues LimiterLaws.IsBounded r.1

add_bucket-IsGood :
    (p : ProviderId) (b : Option TokenBucket) (r r' : Resources)
    → ((b' : TokenBucket) → b ≡ some b' → BucketLaws.IsValid b')
    → IsGood r
    → add_bucket p b r ≡ some r'
    → IsGood r'
unfolding add_bucket
add_bucket-IsGood p none r r' v g h = ground arith
add_bucket-IsGood p (some b) r r' v g h =
    let made : (Dict.put p b r.0, r.1) ≡ r' = ground arith in
    subst IsGood made (put-AllValues BucketLaws.IsValid p b r.0 g.0 (v b refl), g.1)

with_rpm-IsGood :
    (now : ℕ) (p : ProviderId) (rpm : Option ℕ) (r r' : Resources)
    → IsGood r
    → with_rpm now p rpm r ≡ some r'
    → IsGood r'
unfolding with_rpm rpm_bucket
with_rpm-IsGood now p none r r' g h = subst IsGood (ground arith) g
with_rpm-IsGood now p (some rpm) r r' g h =
    add_bucket-IsGood p (rpm_bucket now rpm) r r'
      (λ b made. BucketLaws.new_bucket-IsValid (rpm * 60000) rpm now made) g h

new_limiter-IsBounded :
    (n : ℕ) (l : LocalLimiter) → new_limiter n ≡ some l → LimiterLaws.IsBounded l
unfolding new_limiter
new_limiter-IsBounded n l h = ground arith

add_limiter-IsGood :
    (p : ProviderId) (l : Option LocalLimiter) (r r' : Resources)
    → ((l' : LocalLimiter) → l ≡ some l' → LimiterLaws.IsBounded l')
    → IsGood r
    → add_limiter p l r ≡ some r'
    → IsGood r'
unfolding add_limiter
add_limiter-IsGood p none r r' v g h = ground arith
add_limiter-IsGood p (some l) r r' v g h =
    let made : (r.0, Dict.put p l r.1) ≡ r' = ground arith in
    subst IsGood made (g.0, put-AllValues LimiterLaws.IsBounded p l r.1 g.1 (v l refl))

with_concurrency-IsGood :
    (p : ProviderId) (n : Option ℕ) (o : Option Resources) (r' : Resources)
    → ((r : Resources) → o ≡ some r → IsGood r)
    → with_concurrency p n o ≡ some r'
    → IsGood r'
unfolding with_concurrency
with_concurrency-IsGood p n none r' g h = ground arith
with_concurrency-IsGood p none (some r) r' g h = g r' h
with_concurrency-IsGood p (some n) (some r) r' g h =
    add_limiter-IsGood p (new_limiter n) r r' (λ l made. new_limiter-IsBounded n l made) (g r refl)
      h

next-IsGood :
    (k : Resources → Option Resources) (o : Option Resources) (r' : Resources)
    → ((r : Resources) → IsGood r → k r ≡ some r' → IsGood r')
    → ((r : Resources) → o ≡ some r → IsGood r)
    → build_next k o ≡ some r'
    → IsGood r'
unfolding build_next
next-IsGood k none r' then_good g h = ground arith
next-IsGood k (some r) r' then_good g h = then_good r (g r refl) h

build-IsGood :
    (now : ℕ) (ps : List ProviderPolicy) (r r' : Resources)
    → IsGood r
    → build_buckets now ps r ≡ some r'
    → IsGood r'
unfolding build_buckets
build-IsGood now [] r r' g h = subst IsGood (ground arith) g
build-IsGood now (p ∷ ps) r r' g h =
    next-IsGood (build_buckets now ps) _ r' (λ r2 g2 h2. build-IsGood now ps r2 r' g2 h2)
      (λ r2 h2.
        with_concurrency-IsGood p.provider p.max_concurrency (with_rpm now p.provider p.rpm r) r2
          (λ r3 h3. with_rpm-IsGood now p.provider p.rpm r r3 g h3) h2)
      h

nothing-IsGood : IsGood ([], [])
unfolding Dict.get
nothing-IsGood = (λ k v found. ground arith, λ k v found. ground arith)

-- The buckets and limiters of a daemon that starts, whatever policies are configured, if it starts:
-- each bucket holds no more than its capacity, and each limiter has no more free slots than its ceiling.
pub build_buckets-IsValid :
    (now : ℕ) (ps : List ProviderPolicy) (r : Resources)
    → build_buckets now ps ([], []) ≡ some r
    → AllValues BucketLaws.IsValid r.0 × AllValues LimiterLaws.IsBounded r.1
build_buckets-IsValid now ps r built = build-IsGood now ps ([], []) r nothing-IsGood built
