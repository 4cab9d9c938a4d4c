-- ===== src/Engine/WorkerPool/Loop.antt =====
-- engine/worker_pool.py, `run`: the loop over rounds of submissions and finished chunks.
use dev_harness.Common.{
  ℕ, zero, suc, ◌+◌, ◌≤◌, String, Bool, true, false, Option, none, some, List, [], ◌∷◌, ◌++◌, ltb,
  nat_eq, string_eq, length,
}
use dev_harness.Contracts.State.{Chunk}
use dev_harness.Sorted.{count}
use dev_harness.Engine.WorkerPool.{WorkerPool, submit, settle, settle_failed}

-- `returned` is the end of the loop; the others are the `EngineError`s of `_settle`, of a graph without
-- a chunk to run, and of `_acquire_worker_id`. `unfinished` is a loop that has not ended.
pub data Outcome : Type 0 where
  returned stalled unfinished : WorkerPool → Outcome
  chunk_failed : String → WorkerPool → Outcome
  no_slot : Outcome

pub data Settled : Type 0 where
  all_settled : WorkerPool → ℕ → Settled
  raised : String → WorkerPool → Settled

-- The loop over the finished futures: `succeeds id` says whether the executor of the chunk returned.
unfoldable pub settle_all : (String → Bool) → List String → WorkerPool → ℕ → Settled
settle_all succeeds [] p completed = all_settled p completed
settle_all succeeds (id ∷ ids) p completed = elim (succeeds id) [
  | true ↦ settle_all succeeds ids (settle id p) (completed + 1)
  | false ↦ raised id (settle_failed id p)
]

-- `waited n ids` are the ids of the futures that `wait` finds done in a round, of those in flight.
module _ (worker_id : ℕ → String) (waited : ℕ → List String → List String)
    (succeeds : String → Bool) where
  unfoldable pub next : (WorkerPool → ℕ → Outcome) → Settled → Outcome
  next rounds (all_settled p completed) = rounds p completed
  next rounds (raised id p) = chunk_failed id p

  unfoldable pub await : (WorkerPool → ℕ → Outcome) → ℕ → ℕ → Option WorkerPool → Outcome
  unfolding settle_all next
  await rounds n completed none = no_slot
  await rounds n completed (some q) = elim q.in_flight [
    | [] ↦ stalled q
    | id ∷ ids ↦ next rounds (settle_all succeeds (waited n (id ∷ ids)) q completed)
  ]

  -- The `while` loop; `fuel` bounds the rounds that it may still run.
  unfoldable pub rounds : ℕ → WorkerPool → ℕ → Outcome
  unfolding await
  rounds zero p completed = unfinished p
  rounds (suc fuel) p completed = elim (ltb completed (length p.chunks)) [
    | false ↦ returned p
    | true ↦ await (rounds fuel) fuel completed (submit worker_id p)
  ]

  unfoldable pub run : WorkerPool → Outcome
  unfolding rounds
  run p = rounds (suc (length p.chunks)) p 0

-- Each chunk of the list depends on chunks of `seen` or earlier in the list.
abbrev pub IsSequenced : List String → List Chunk → Type 0
IsSequenced seen [] = Unit
IsSequenced seen (c ∷ cs) =
    ((x : String) → 1 ≤ count x c.dependencies → 1 ≤ count x seen)
    × IsSequenced (seen ++ c.chunk_id ∷ []) cs
