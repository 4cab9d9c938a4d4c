-- ===== src/Engine/WorkerPool/Progress/Claims.antt =====
-- engine/worker_pool.py, `run`: the submissions of a round keep the accounts, and put a chunk in flight
-- where one is ready.
use dev_harness.Common.{
  ℕ, ◌+◌, ◌≤◌, ◌<◌, String, ◌≡◌, refl, ◌∙◌, ◌≢◌, inl, inr, true, ◌&&◌, none, some, List, [], ◌∷◌,
  ◌++◌, arith, leb, ◌==◌, nat_eq, string_eq, beq_refl, Bool-cases, Option-cases, if◌then◌else◌,
  length, length-append,
}
use dev_harness.Contracts.State.{Chunk}
use dev_harness.Sorted.{count-append}
use dev_harness.Engine.WorkerPool.{
  WorkerPool, is_pending, find, set_chunk, start_as, claim_worker, claim_next, free_worker, claim,
  claim_all, ready_chunks, dependencies_completed, submit,
}
use dev_harness.Engine.WorkerPool.Claims.{IsDistinct, set_chunk-IsDistinct, changed, find-set_chunk}
use dev_harness.Engine.WorkerPool.Slots.{all_used}
use dev_harness.Engine.WorkerPool.Runs.{FindsAll, finds_all}
use dev_harness.Engine.WorkerPool.Progress.{
  sum, done, holds, pending_in, sum-set_chunk, set_chunk-IsSequenced, length-set_chunk, Accounts,
}

abbrev claimed : String → String → WorkerPool → WorkerPool
claimed id w p = record p {
  chunks = set_chunk id (start_as w) p.chunks;
  in_use = w ∷ p.in_use;
  in_flight = p.in_flight ++ id ∷ [];
}

module _ (prior settled : ℕ) (id w : String) (p : WorkerPool) (a : Accounts prior settled p)
    (room : length p.in_flight < p.max_parallel) (c : Chunk) (there : find id p.chunks ≡ some c)
    (waits : is_pending c.status ≡ true) where
  look :
      (j : String)
      → find j (set_chunk id (start_as w) p.chunks)
        ≡ (if id == j then changed (start_as w) (find j p.chunks) else find j p.chunks)
  look j = find-set_chunk (start_as w) (λ c. refl) id j p.chunks

  added :
      (m : Chunk → ℕ)
      → sum m (set_chunk id (start_as w) p.chunks) + m c ≡ sum m p.chunks + m (start_as w c)
  added m = sum-set_chunk m id (start_as w) p.chunks c there

  at : (j : String) → (id == j) ≡ true → find j p.chunks ≡ some c
  at j same = rw (← ((string_eq.beq_iff id j).0 same)) there

  claimed-Accounts : Accounts prior settled (claimed id w p)
  claimed-Accounts = record {
    tally = ground (arith, added done, a.tally);
    flight = λ j. elim (Bool-cases (id == j)) [
      | inl same ↦ ground (arith, look j, a.flight j, at j, count-append j p.in_flight (id ∷ []))
      | inr other ↦ ground (arith, look j, a.flight j, count-append j p.in_flight (id ∷ []))
    ];
    slots = λ v. ground (arith, added (holds v), a.slots v);
    size = omega (arith, a.size, length-append p.in_flight (id ∷ []));
    bound = omega (arith, length-append p.in_flight (id ∷ []));
    alive = λ j. elim (Bool-cases (id == j)) [
      | inl same ↦ ground (arith, look j, at j)
      | inr other ↦ ground (arith, look j, a.alive j)
    ];
    assigned = λ j b e r. elim (Bool-cases (id == j)) [
      | inl same ↦ ground (arith, look j, at j)
      | inr other ↦ a.assigned j b (ground (arith, look j)) r
    ];
    distinct = set_chunk-IsDistinct (start_as w) (λ c. refl) id p.chunks a.distinct;
    sequenced =
        set_chunk-IsSequenced id (start_as w) (λ c. refl) (λ c. refl) [] p.chunks a.sequenced;
  }

-- The chunks that a round may submit: pending, and each once.
abbrev pub Waits : List Chunk → List Chunk → Type 0
Waits [] cs = Unit
Waits (c ∷ ready) cs =
    (pending_in (find c.chunk_id cs) ≡ true) × (find c.chunk_id ready ≡ none) × Waits ready cs

start-Waits :
    (id w : String) (ready cs : List Chunk)
    → find id ready ≡ none
    → Waits ready cs
    → Waits ready (set_chunk id (start_as w) cs)
unfolding find
start-Waits id w [] cs absent waits = tt
start-Waits id w (c ∷ ready) cs absent waits = (
  ground (
    arith,
    find-set_chunk (start_as w) (λ c. refl) id c.chunk_id cs,
    string_eq.beq_iff id c.chunk_id,
    beq_refl id,
    waits.0,
  ),
  waits.1,
  start-Waits id w ready cs (ground arith) waits.2,
)

find-ready :
    (id : String) (order cs : List Chunk)
    → find id order ≡ none
    → find id (ready_chunks order cs) ≡ none
unfolding find ready_chunks
find-ready id [] cs e = e
find-ready id (c ∷ order) cs e = ground (arith, find-ready id order cs)

pub ready-Waits :
    (order cs : List Chunk)
    → IsDistinct order
    → FindsAll order cs
    → Waits (ready_chunks order cs) cs
unfolding ready_chunks
ready-Waits [] cs u finds = tt
ready-Waits (c ∷ order) cs u finds =
    let later = ready-Waits order cs u.1 finds.1 in
    elim (Bool-cases (is_pending c.status && dependencies_completed c cs)) [
      | inr waits ↦ rw waits later
      | inl ready ↦ rw ready (ground (arith, finds.0), find-ready c.chunk_id order cs u.0, later)
    ]

module _ (worker_id : ℕ → String) (distinct : (a b : ℕ) → worker_id a ≡ worker_id b → a ≡ b)
    (prior settled : ℕ) where
  -- What submissions change of the pool `p`.
  pub record Submitted (p q : WorkerPool) : Type 0 where
    pub accounts : Accounts prior settled q
    pub ceiling : q.max_parallel ≡ p.max_parallel
    pub total : length q.chunks ≡ length p.chunks
    pub more : length p.in_flight ≤ length q.in_flight

  claim-Submitted :
      (id : String) (p : WorkerPool)
      → Accounts prior settled p
      → length p.in_flight < p.max_parallel
      → pending_in (find id p.chunks) ≡ true
      → (w : String) × (claim worker_id id p ≡ some (claimed id w p))
        × Submitted p (claimed id w p)
        × (1 ≤ length (claimed id w p).in_flight)
  unfolding claim
  claim-Submitted id p a room waits =
      elim (Option-cases (free_worker worker_id 1 p.max_parallel p.in_use)) [
        | inl full ↦
            absurd
              (omega (arith, all_used worker_id distinct 1 p.max_parallel p.in_use full, a.size))
        | inr (w, free) ↦ elim (Option-cases (find id p.chunks)) [
          | inl absent ↦ absurd (cc (rw absent at waits))
          | inr (c, there) ↦ (
            w,
            rw free (unfold claim_worker in refl),
            record {
              accounts = claimed-Accounts prior settled id w p a room c there (rw there at waits);
              ceiling = refl;
              total = length-set_chunk id (start_as w) p.chunks;
              more = omega (arith, length-append p.in_flight (id ∷ []));
            },
            omega (arith, length-append p.in_flight (id ∷ [])),
          )
        ]
      ]

  claim_all-Submitted :
      (ready : List Chunk) (p : WorkerPool)
      → Accounts prior settled p
      → Waits ready p.chunks
      → (q : WorkerPool) × (claim_all worker_id ready p ≡ some q)
        × Submitted p q
        × (ready ≢ [] → 1 ≤ p.max_parallel → 1 ≤ length q.in_flight)
  unfolding claim_all claim_next
  claim_all-Submitted [] p a waits = (
    p,
    refl,
    record { accounts = a; ceiling = refl; total = refl; more = omega arith },
    λ some_ready. absurd (some_ready refl),
  )
  claim_all-Submitted (c ∷ ready) p a waits =
      elim (Bool-cases (leb p.max_parallel (length p.in_flight))) [
        | inl full ↦ rw full (
          p,
          refl,
          record { accounts = a; ceiling = refl; total = refl; more = omega arith },
          λ some_ready wide. ground arith,
        )
        | inr room ↦
            let (w, is, s, one) = claim-Submitted c.chunk_id p a (ground arith) waits.0 in
            let (q, rest, t, more) =
              claim_all-Submitted ready (claimed c.chunk_id w p) s.accounts
                (start-Waits c.chunk_id w ready p.chunks waits.1 waits.2) in
            (
              q,
              rw (room, is) rest,
              record {
                accounts = t.accounts;
                ceiling = t.ceiling;
                total = t.total ∙ s.total;
                more = omega (arith, s.more, t.more);
              },
              λ some_ready wide. omega (arith, one, t.more),
            )
      ]

  pub submit-Submitted :
      (p : WorkerPool)
      → Accounts prior settled p
      → (q : WorkerPool) × (submit worker_id p ≡ some q)
        × Submitted p q
        × (ready_chunks p.chunks p.chunks ≢ [] → 1 ≤ p.max_parallel → 1 ≤ length q.in_flight)
  unfolding submit
  submit-Submitted p a =
      claim_all-Submitted (ready_chunks p.chunks p.chunks) p a
        (ready-Waits p.chunks p.chunks a.distinct (finds_all p.chunks a.distinct))
