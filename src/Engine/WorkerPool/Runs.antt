-- ===== src/Engine/WorkerPool/Runs.antt =====
-- engine/worker_pool.py: the rounds of a run, as steps of the pool.
use dev_harness.Common.{
  ℕ, String, ◌≡◌, refl, sym, inl, inr, ◌&&◌, Option, none, some, List, [], ◌∷◌, arith, leb, nat_eq,
  string_eq, beq_refl, Bool-cases, length,
}
use dev_harness.Contracts.State.{Chunk}
use dev_harness.Engine.WorkerPool.{
  WorkerPool, is_pending, find, dependencies_completed, ready_chunks, set_chunk, start_as, complete,
  settle_found, settle, claim_worker, claim_next, claim, claim_all, submit,
}
use dev_harness.Engine.WorkerPool.Claims.{
  IsDistinct, IsOrdered, IsClaimable, set_chunk-IsDistinct, start-IsOrdered, start-IsClaimable,
  complete-IsOrdered,
}

-- Each chunk of the list is what its id finds.
abbrev pub FindsAll : List Chunk → List Chunk → Type 0
FindsAll [] cs = Unit
FindsAll (c ∷ order) cs = (find c.chunk_id cs ≡ some c) × FindsAll order cs

weaken :
    (order cs : List Chunk) (c : Chunk)
    → find c.chunk_id cs ≡ none
    → FindsAll order cs
    → FindsAll order (c ∷ cs)
unfolding find
weaken [] cs c absent finds = tt
weaken (d ∷ order) cs c absent finds = (
  ground (arith, string_eq.beq_iff c.chunk_id d.chunk_id, finds.0, absent),
  weaken order cs c absent finds.1,
)

pub finds_all : (cs : List Chunk) → IsDistinct cs → FindsAll cs cs
unfolding find
finds_all [] u = tt
finds_all (c ∷ cs) u = (rw (beq_refl c.chunk_id), weaken cs cs c u.0 (finds_all cs u.1))

abbrev AllClaimable : List Chunk → List Chunk → Type 0
AllClaimable [] cs = Unit
AllClaimable (c ∷ ready) cs = IsClaimable c.chunk_id cs × AllClaimable ready cs

ready-AllClaimable :
    (order cs : List Chunk) → FindsAll order cs → AllClaimable (ready_chunks order cs) cs
unfolding ready_chunks dependencies_completed
ready-AllClaimable [] cs finds = tt
ready-AllClaimable (c ∷ order) cs finds =
    let later = ready-AllClaimable order cs finds.1 in
    elim (Bool-cases (is_pending c.status && dependencies_completed c cs)) [
      | inr waits ↦ rw waits later
      | inl ready ↦
          rw ready ((ground (arith, finds.0), λ d found. ground (arith, finds.0, found)), later)
    ]

start-AllClaimable :
    (id w : String) (ready cs : List Chunk)
    → IsClaimable id cs
    → AllClaimable ready cs
    → AllClaimable ready (set_chunk id (start_as w) cs)
start-AllClaimable id w [] cs k all = tt
start-AllClaimable id w (c ∷ ready) cs k all =
    (start-IsClaimable id w c.chunk_id cs k all.0, start-AllClaimable id w ready cs k all.1)

-- Each id stands once, and a chunk that runs has completed dependencies only.
pub record IsSafe (cs : List Chunk) : Type 0 where
  pub distinct : IsDistinct cs
  pub ordered : IsOrdered cs

start-IsSafe :
    (id w : String) (cs : List Chunk)
    → IsClaimable id cs
    → IsSafe cs
    → IsSafe (set_chunk id (start_as w) cs)
start-IsSafe id w cs k s = record {
  distinct = set_chunk-IsDistinct (start_as w) (λ c. refl) id cs s.distinct;
  ordered = start-IsOrdered id w cs k s.ordered;
}

claim_worker-IsSafe :
    (ready : List Chunk) (id : String) (w : Option String) (p q : WorkerPool)
    → IsSafe p.chunks
    → IsClaimable id p.chunks
    → AllClaimable ready p.chunks
    → claim_worker id w p ≡ some q
    → IsSafe q.chunks × AllClaimable ready q.chunks
unfolding claim_worker
claim_worker-IsSafe ready id none p q s k all h = ground arith
claim_worker-IsSafe ready id (some w) p q s k all h =
    let chunks : set_chunk id (start_as w) p.chunks ≡ q.chunks = ground arith in
    rw (sym chunks) (start-IsSafe id w p.chunks k s, start-AllClaimable id w ready p.chunks k all)

module _ (worker_id : ℕ → String) where
  next-IsSafe :
      (ready : List Chunk) (o : Option WorkerPool) (q : WorkerPool)
      → ((p : WorkerPool) → o ≡ some p → claim_all worker_id ready p ≡ some q → IsSafe q.chunks)
      → claim_next (claim_all worker_id ready) o ≡ some q
      → IsSafe q.chunks
  unfolding claim_next
  next-IsSafe ready none q k h = ground arith
  next-IsSafe ready (some p) q k h = k p refl h

  claim_all-IsSafe :
      (ready : List Chunk) (p q : WorkerPool)
      → IsSafe p.chunks
      → AllClaimable ready p.chunks
      → claim_all worker_id ready p ≡ some q
      → IsSafe q.chunks
  unfolding claim_all claim
  claim_all-IsSafe [] p q s all h = let same : p.chunks ≡ q.chunks = ground arith in rw (sym same) s
  claim_all-IsSafe (c ∷ ready) p q s all h =
      elim (Bool-cases (leb p.max_parallel (length p.in_flight))) [
        | inl full ↦ let same : p.chunks ≡ q.chunks = ground arith in rw (sym same) s
        | inr room ↦
            next-IsSafe ready _ q
              (λ p2 claimed rest.
                let next = claim_worker-IsSafe ready c.chunk_id _ p p2 s all.0 all.1 claimed in
                claim_all-IsSafe ready p2 q next.0 next.1 rest)
              (rw room at h)
      ]

  -- A run of the pool: rounds of submissions, and chunks whose executor has returned.
  pub data Run : WorkerPool → WorkerPool → Type 0 where
    start : (p : WorkerPool) → Run p p
    submits : (p q r : WorkerPool) → Run p q → submit worker_id q ≡ some r → Run p r
    settles : (p q : WorkerPool) (id : String) → Run p q → Run p (settle id q)

  settle_found-IsSafe :
      (o : Option Chunk) (id : String) (p : WorkerPool)
      → IsSafe p.chunks
      → IsSafe (settle_found o id p).chunks
  unfolding settle_found
  settle_found-IsSafe none id p s = s
  settle_found-IsSafe (some c) id p s = record {
    distinct = set_chunk-IsDistinct complete (λ d. refl) id p.chunks s.distinct;
    ordered = complete-IsOrdered id p.chunks s.ordered;
  }

  -- However rounds of submissions and finished chunks follow one another, no chunk is ever in progress
  -- with a dependency that is not completed, when that is so at the start and each id stands once.
  pub Run-IsSafe : (p q : WorkerPool) → IsSafe p.chunks → Run p q → IsSafe q.chunks
  unfolding submit settle
  Run-IsSafe p q s (start _) = s
  Run-IsSafe p r s (submits _ q _ run submitted) =
      let before = Run-IsSafe p q s run in
      claim_all-IsSafe (ready_chunks q.chunks q.chunks) q r before
        (ready-AllClaimable q.chunks q.chunks (finds_all q.chunks before.distinct)) submitted
  Run-IsSafe p r s (settles _ q id run) =
      settle_found-IsSafe (find id q.chunks) id q (Run-IsSafe p q s run)
