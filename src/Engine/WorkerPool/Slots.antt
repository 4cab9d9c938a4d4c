-- ===== src/Engine/WorkerPool/Slots.antt =====
-- engine/worker_pool.py: the number of chunks in flight, and that a slot is free for each claim.
use dev_harness.Common.{
  ℕ, zero, suc, ◌+◌, ◌≤◌, ◌<◌, String, ◌≡◌, refl, ◌∙◌, ◌≢◌, inl, inr, true, false, Option, none,
  some, List, [], ◌∷◌, arith, leb, ◌==◌, nat_eq, string_eq, Bool-cases, length, length-append,
}
use dev_harness.Contracts.State.{Chunk}
use dev_harness.Engine.WorkerPool.{
  WorkerPool, contains, discard, claim_worker, claim_next, free_worker, claim, claim_all,
}

pub discard-length :
    (id : String) (ids : List String)
    → contains id ids ≡ true
    → suc (length (discard id ids)) ≡ length ids
unfolding contains discard
discard-length id [] h = ground arith
discard-length id (i ∷ ids) h = elim (Bool-cases (i == id)) [
  | inl same ↦ rw same
  | inr other ↦ ground (arith, discard-length id ids)
]

contains-discard :
    (id other : String) (ids : List String)
    → (id == other) ≡ false
    → contains other (discard id ids) ≡ contains other ids
unfolding contains discard
contains-discard id other [] h = refl
contains-discard id other (i ∷ ids) h = ground (
  arith,
  contains-discard id other ids h,
  string_eq.beq_iff i id,
  string_eq.beq_iff i other,
  string_eq.beq_iff id other,
)

module _ (worker_id : ℕ → String) (distinct : (a b : ℕ) → worker_id a ≡ worker_id b → a ≡ b) where
  worker_beq : (a b : ℕ) → a < b → (worker_id a == worker_id b) ≡ false
  worker_beq a b h = elim (Bool-cases (worker_id a == worker_id b)) [
    | inr other ↦ other
    | inl same ↦
        ground (arith, distinct a b ((string_eq.beq_iff (worker_id a) (worker_id b)).0 same))
  ]

  -- Taking one slot's id out of those in use hides no later slot.
  free-discard :
      (k slot n : ℕ) (used : List String)
      → k < slot
      → free_worker worker_id slot n (discard (worker_id k) used)
        ≡ free_worker worker_id slot n used
  unfolding free_worker
  free-discard k slot zero used h = refl
  free-discard k slot (suc n) used h = rw (
    contains-discard (worker_id k) (worker_id slot) used (worker_beq k slot h),
    free-discard k (slot + 1) n used (omega arith),
  )

  -- When no slot is free, there are at least as many in use as slots.
  pub all_used :
      (slot n : ℕ) (used : List String) → free_worker worker_id slot n used ≡ none → n ≤ length used
  unfolding free_worker
  all_used slot zero used h = omega arith
  all_used slot (suc n) used h = elim (Bool-cases (contains (worker_id slot) used)) [
    | inr free ↦ ground arith
    | inl taken ↦
        let rest : free_worker worker_id (slot + 1) n used ≡ none = rw taken at h in
        let fewer =
          all_used (slot + 1) n (discard (worker_id slot) used)
            (free-discard slot (slot + 1) n used (omega arith) ∙ rest) in
        omega (arith, discard-length (worker_id slot) used taken)
  ]

  -- As many worker ids are in use as chunks are in flight, and no more than the ceiling.
  abbrev pub IsPool : WorkerPool → Type 0
  IsPool p = (length p.in_use ≡ length p.in_flight) × (length p.in_flight ≤ p.max_parallel)

  claim_worker-IsPool :
      (id : String) (w : Option String) (p : WorkerPool)
      → w ≢ none
      → IsPool p
      → length p.in_flight < p.max_parallel
      → (q : WorkerPool) × (claim_worker id w p ≡ some q) × IsPool q
  unfolding claim_worker
  claim_worker-IsPool id none p some_worker k room = ground arith
  claim_worker-IsPool id (some w) p some_worker k room =
      let n = length-append p.in_flight (id ∷ []) in
      (_, refl, (omega (arith, n, k.0), omega (arith, n)))

  claim-IsPool :
      (id : String) (p : WorkerPool)
      → IsPool p
      → length p.in_flight < p.max_parallel
      → (q : WorkerPool) × (claim worker_id id p ≡ some q) × IsPool q
  unfolding claim
  claim-IsPool id p k room =
      claim_worker-IsPool id (free_worker worker_id 1 p.max_parallel p.in_use) p
        (λ full. omega (arith, all_used 1 p.max_parallel p.in_use full, k.0)) k room

  -- However many chunks are to be claimed, a pool that has as many worker ids in use as chunks in
  -- flight claims them without running out of worker slots, has no more in flight than its ceiling,
  -- and again as many worker ids in use, when different slots have different ids.
  pub claim_all-IsPool :
      (cs : List Chunk) (p : WorkerPool)
      → IsPool p
      → (q : WorkerPool) × (claim_all worker_id cs p ≡ some q) × IsPool q
  unfolding claim_all claim_next
  claim_all-IsPool [] p k = (p, refl, k)
  claim_all-IsPool (c ∷ cs) p k = elim (Bool-cases (leb p.max_parallel (length p.in_flight))) [
    | inl full ↦ rw full (p, refl, k)
    | inr room ↦
        let (q, claimed, kq) = claim-IsPool c.chunk_id p k (ground arith) in
        rw (room, claimed) (claim_all-IsPool cs q kq)
  ]
