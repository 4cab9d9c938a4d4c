-- ===== src/Engine/WorkerPool/Progress/Settles.antt =====
-- engine/worker_pool.py, `run`: a chunk that is settled keeps the accounts.
use dev_harness.Common.{
  ℕ, suc, ◌+◌, ◌≤◌, String, ◌≡◌, refl, ◌∙◌, inl, inr, Bool, true, some, List, [], ◌∷◌, arith, leb,
  ◌==◌, nat_eq, string_eq, beq_refl, Bool-cases, Option-cases, if◌then◌else◌, length,
}
use dev_harness.Contracts.State.{Chunk}
use dev_harness.Sorted.{count}
use dev_harness.Engine.WorkerPool.{
  WorkerPool, find, set_chunk, complete, contains, discard, release_worker, settle_found, settle,
}
use dev_harness.Engine.WorkerPool.Claims.{set_chunk-IsDistinct, changed, find-set_chunk}
use dev_harness.Engine.WorkerPool.Slots.{discard-length}
use dev_harness.Engine.WorkerPool.Loop.{settle_all, all_settled}
use dev_harness.Engine.WorkerPool.Progress.{
  sum, done, holds, is_running, sum-set_chunk, set_chunk-IsSequenced, length-set_chunk, Accounts,
}

contains-count : (x : String) (xs : List String) → contains x xs ≡ leb 1 (count x xs)
unfolding contains
contains-count x [] = ground arith
contains-count x (y ∷ ys) = ground (arith, contains-count x ys)

count-discard :
    (x y : String) (xs : List String)
    → 1 ≤ count x xs
    → count y (discard x xs) + (if x == y then 1 else 0) ≡ count y xs
unfolding discard
count-discard x y [] m = absurd (omega arith)
count-discard x y (z ∷ zs) m = ground (
  arith,
  count-discard x y zs,
  string_eq.beq_iff z x,
  string_eq.beq_iff z y,
  string_eq.beq_iff x y,
)

length-discard :
    (x : String) (xs : List String) → 1 ≤ count x xs → suc (length (discard x xs)) ≡ length xs
length-discard x xs m = discard-length x xs (ground (arith, contains-count x xs))

module _ (prior settled : ℕ) (id w : String) (p : WorkerPool) (a : Accounts prior settled p)
    (c : Chunk) (there : find id p.chunks ≡ some c) (runs : is_running c.status ≡ true)
    (worker : c.assigned_worker_id ≡ some w) where
  abbrev after : WorkerPool
  after = record p {
    chunks = set_chunk id complete p.chunks;
    in_use = discard w p.in_use;
    in_flight = discard id p.in_flight;
  }

  look :
      (j : String)
      → find j (set_chunk id complete p.chunks)
        ≡ (if id == j then changed complete (find j p.chunks) else find j p.chunks)
  look j = find-set_chunk complete (λ c. refl) id j p.chunks

  left :
      (m : Chunk → ℕ)
      → sum m (set_chunk id complete p.chunks) + m c ≡ sum m p.chunks + m (complete c)
  left m = sum-set_chunk m id complete p.chunks c there

  flying : 1 ≤ count id p.in_flight
  flying = ground (arith, a.flight id, there)

  held : 1 ≤ count w p.in_use
  held = ground (arith, a.slots w, left (holds w), worker, beq_refl w)

  at : (j : String) → (id == j) ≡ true → find j p.chunks ≡ some c
  at j same = rw (← ((string_eq.beq_iff id j).0 same)) there

  after-Accounts : Accounts prior (settled + 1) after
  after-Accounts = record {
    tally = ground (arith, left done, a.tally);
    flight = λ j. elim (Bool-cases (id == j)) [
      | inl same ↦ ground (arith, look j, a.flight j, at j, count-discard id j p.in_flight flying)
      | inr other ↦ ground (arith, look j, a.flight j, count-discard id j p.in_flight flying)
    ];
    slots = λ v. ground (arith, left (holds v), a.slots v, worker, count-discard w v p.in_use held);
    size =
        omega (arith, a.size, length-discard w p.in_use held, length-discard id p.in_flight flying);
    bound = omega (arith, a.bound, length-discard id p.in_flight flying);
    alive = λ j. elim (Bool-cases (id == j)) [
      | inl same ↦ ground (arith, look j, at j)
      | inr other ↦ ground (arith, look j, a.alive j)
    ];
    assigned = λ j b e r. elim (Bool-cases (id == j)) [
      | inl same ↦ ground (arith, look j, at j)
      | inr other ↦ a.assigned j b (ground (arith, look j)) r
    ];
    distinct = set_chunk-IsDistinct complete (λ c. refl) id p.chunks a.distinct;
    sequenced = set_chunk-IsSequenced id complete (λ c. refl) (λ c. refl) [] p.chunks a.sequenced;
  }

settle-Accounts :
    (prior settled : ℕ) (id : String) (p : WorkerPool)
    → Accounts prior settled p
    → 1 ≤ count id p.in_flight
    → Accounts prior (settled + 1) (settle id p)
      × ((settle id p).in_flight ≡ discard id p.in_flight)
      × ((settle id p).max_parallel ≡ p.max_parallel)
      × (length (settle id p).chunks ≡ length p.chunks)
unfolding settle settle_found release_worker
settle-Accounts prior settled id p a flying = elim (Option-cases (find id p.chunks)) [
  | inl absent ↦ absurd (ground (arith, a.flight id, absent))
  | inr (c, there) ↦
      let runs : is_running c.status ≡ true = ground (arith, a.flight id, there) in
      elim (Option-cases c.assigned_worker_id) [
        | inl free ↦ absurd (a.assigned id c there runs free)
        | inr (w, worker) ↦
            rw (there, worker)
              (
                after-Accounts prior settled id w p a c there runs worker,
                refl,
                refl,
                length-set_chunk id complete p.chunks,
              )
      ]
]

-- The finished chunks of a round are settled, and each counts once.
pub settle_all-Accounts :
    (prior settled : ℕ) (succeeds : String → Bool) (ids : List String) (p : WorkerPool)
    → ((id : String) → succeeds id ≡ true)
    → Accounts prior settled p
    → ((id : String) → count id ids ≤ count id p.in_flight)
    → (q : WorkerPool) × (settle_all succeeds ids p settled ≡ all_settled q (settled + length ids))
      × Accounts prior (settled + length ids) q
      × (q.max_parallel ≡ p.max_parallel)
      × (length q.chunks ≡ length p.chunks)
unfolding settle_all
settle_all-Accounts prior settled succeeds [] p fine a flying =
    let none_more : settled + 0 ≡ settled = omega arith in
    (p, rw none_more refl, rw none_more a, refl, refl)
settle_all-Accounts prior settled succeeds (id ∷ ids) p fine a flying =
    let here : 1 ≤ count id p.in_flight = ground (arith, flying id, beq_refl id) in
    let (b, flight, ceiling, total) = settle-Accounts prior settled id p a here in
    let (q, is, c, ceiling', total') =
      settle_all-Accounts prior (settled + 1) succeeds ids (settle id p) fine b
        (λ j. rw flight (omega (arith, flying j, count-discard id j p.in_flight here))) in
    let sum_is : settled + suc (length ids) ≡ settled + 1 + length ids = omega arith in
    (q, rw (fine id, settle_all) (rw sum_is is), rw sum_is c, ceiling' ∙ ceiling, total' ∙ total)
