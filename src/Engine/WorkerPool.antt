-- ===== src/Engine/WorkerPool.antt =====
-- engine/worker_pool.py: the scheduling of chunks on worker slots. `chunks` holds the graph's chunks in
-- the order of the graph, each id once; a chunk that is changed in place is replaced in it. The graph
-- has refused a dependency that is no chunk, so a missing one, a `KeyError`, counts as not completed.
pub mod Slots
pub mod Claims
pub mod Runs
pub mod Loop
pub mod Progress
pub mod Tests
use dev_harness.Common.{
  ℕ, zero, suc, ◌+◌, String, Bool, true, false, ◌&&◌, ◌||◌, Option, none, some, List, [], ◌∷◌, ◌++◌,
  ltb, leb, Eq, ◌==◌, nat_eq, string_eq, if◌then◌else◌, length,
}
use dev_harness.Contracts.Enums.{ChunkStatus, pending, in_progress, completed, failed}
use dev_harness.Contracts.State.{Chunk}

abbrev pub is_pending : ChunkStatus → Bool
is_pending pending = true
is_pending _ = false

abbrev pub is_completed : ChunkStatus → Bool
is_completed completed = true
is_completed _ = false

-- `by_id`
unfoldable pub find : String → List Chunk → Option Chunk
find id [] = none
find id (c ∷ cs) = if c.chunk_id == id then some c else find id cs

abbrev pub completed_in : Option Chunk → Bool
completed_in none = false
completed_in (some c) = is_completed c.status

unfoldable pub all_completed : List String → List Chunk → Bool
all_completed [] cs = true
all_completed (d ∷ ds) cs = completed_in (find d cs) && all_completed ds cs

unfoldable pub dependencies_completed : Chunk → List Chunk → Bool
unfolding all_completed
dependencies_completed c cs = all_completed c.dependencies cs

-- The first argument is `order`, the second stands for `by_id`.
unfoldable pub ready_chunks : List Chunk → List Chunk → List Chunk
unfolding dependencies_completed
ready_chunks [] cs = []
ready_chunks (c ∷ order) cs =
    let rest = ready_chunks order cs in
    if is_pending c.status && dependencies_completed c cs then c ∷ rest else rest

-- `in_flight` holds the ids of the submitted chunks.
pub record WorkerPool : Type 0 where
  pub max_parallel : ℕ
  pub chunks : List Chunk
  pub in_use : List String
  pub in_flight : List String

-- `none` is the `EngineError`.
unfoldable pub new_pool : List Chunk → ℕ → Option WorkerPool
new_pool chunks max_parallel =
    if ltb max_parallel 1
    then none
    else some (record { max_parallel = max_parallel; chunks = chunks; in_use = []; in_flight = [] })

unfoldable pub contains : String → List String → Bool
contains id [] = false
contains id (i ∷ ids) = i == id || contains id ids

unfoldable pub discard : String → List String → List String
discard id [] = []
discard id (i ∷ ids) = if i == id then ids else i ∷ discard id ids

unfoldable pub set_chunk : String → (Chunk → Chunk) → List Chunk → List Chunk
set_chunk id f [] = []
set_chunk id f (c ∷ cs) = if c.chunk_id == id then f c ∷ cs else c ∷ set_chunk id f cs

abbrev pub start_as : String → Chunk → Chunk
start_as worker c = record c { status = in_progress; assigned_worker_id = some worker }

abbrev pub complete : Chunk → Chunk
complete c = record c { status = completed }

abbrev pub fail : Chunk → Chunk
fail c = record c { status = failed }

claim_worker : String → Option String → WorkerPool → Option WorkerPool
claim_worker id none p = none
claim_worker id (some worker) p = some (record p {
  chunks = set_chunk id (start_as worker) p.chunks;
  in_use = worker ∷ p.in_use;
  in_flight = p.in_flight ++ id ∷ [];
})

claim_next : (WorkerPool → Option WorkerPool) → Option WorkerPool → Option WorkerPool
claim_next k none = none
claim_next k (some p) = k p

release_worker : Option String → List String → List String
release_worker none in_use = in_use
release_worker (some worker) in_use = discard worker in_use

settle_found : Option Chunk → String → WorkerPool → WorkerPool
settle_found none id p = p
settle_found (some c) id p = record p {
  chunks = set_chunk id complete p.chunks;
  in_use = release_worker c.assigned_worker_id p.in_use;
  in_flight = discard id p.in_flight;
}

-- `_settle` of a chunk whose executor returned, which leaves the chunks in flight.
unfoldable pub settle : String → WorkerPool → WorkerPool
unfolding settle_found release_worker
settle id p = settle_found (find id p.chunks) id p

-- `_settle` of a chunk whose executor raised: the chunk fails, and `run` ends with an `EngineError`.
unfoldable pub settle_failed : String → WorkerPool → WorkerPool
settle_failed id p = record p {
  chunks = set_chunk id fail p.chunks;
  in_flight = discard id p.in_flight;
}

-- `worker_id` renders a slot's number, as `worker-1`.
module _ (worker_id : ℕ → String) where
  -- The worker id of the first of `n` slots from `slot` on that is free.
  unfoldable pub free_worker : ℕ → ℕ → List String → Option String
  free_worker slot zero used = none
  free_worker slot (suc n) used =
      let later = free_worker (slot + 1) n used in
      if contains (worker_id slot) used then later else some (worker_id slot)

  -- One chunk of the loop that submits; `none` is the `EngineError` of `_acquire_worker_id`.
  unfoldable pub claim : String → WorkerPool → Option WorkerPool
  unfolding claim_worker
  claim id p = claim_worker id (free_worker 1 p.max_parallel p.in_use) p

  unfoldable pub claim_all : List Chunk → WorkerPool → Option WorkerPool
  unfolding claim_next
  claim_all [] p = some p
  claim_all (c ∷ cs) p =
      if leb p.max_parallel (length p.in_flight)
      then some p
      else claim_next (claim_all cs) (claim c.chunk_id p)

  -- What one round of `run` submits.
  unfoldable pub submit : WorkerPool → Option WorkerPool
  submit p = claim_all (ready_chunks p.chunks p.chunks) p
