-- ===== src/Engine/WorkerPool/Progress.antt =====
-- engine/worker_pool.py, `run`: the accounts that the loop keeps, of chunks, futures and worker slots.
pub mod Claims
pub mod Settles
pub mod Ends
use dev_harness.Common.{
  ℕ, ◌+◌, ◌-◌, ◌≤◌, String, ◌≡◌, refl, ◌≢◌, inl, inr, Bool, true, false, Option, none, some, List,
  [], ◌∷◌, ◌++◌, arith, Eq, ◌==◌, nat_eq, string_eq, Bool-cases, if◌then◌else◌, length,
}
use dev_harness.Contracts.Enums.{ChunkStatus, pending, in_progress, completed, failed}
use dev_harness.Contracts.State.{Chunk}
use dev_harness.Sorted.{count, count-append}
use dev_harness.Engine.WorkerPool.{
  WorkerPool, is_pending, is_completed, find, completed_in, set_chunk, start_as, complete, contains,
  discard,
}
use dev_harness.Engine.WorkerPool.Claims.{IsDistinct}
use dev_harness.Engine.WorkerPool.Loop.{IsSequenced}

abbrev pub sum : (Chunk → ℕ) → List Chunk → ℕ
sum m [] = 0
sum m (c ∷ cs) = m c + sum m cs

abbrev pub done : Chunk → ℕ
done c = if is_completed c.status then 1 else 0

abbrev pub is_running : ChunkStatus → Bool
is_running in_progress = true
is_running _ = false

abbrev pub worker_of : Option String → List String
worker_of none = []
worker_of (some w) = w ∷ []

-- The worker ids of a chunk in progress.
abbrev pub holds : String → Chunk → ℕ
holds w c = if is_running c.status then count w (worker_of c.assigned_worker_id) else 0

abbrev pub running_in : Option Chunk → Bool
running_in none = false
running_in (some c) = is_running c.status

abbrev pub pending_in : Option Chunk → Bool
pending_in none = false
pending_in (some c) = is_pending c.status

abbrev pub failed_in : Option Chunk → Bool
failed_in none = false
failed_in (some c) = elim c.status [ failed ↦ true | _ ↦ false ]

pub sum-set_chunk :
    (m : Chunk → ℕ) (id : String) (f : Chunk → Chunk) (cs : List Chunk) (c : Chunk)
    → find id cs ≡ some c
    → sum m (set_chunk id f cs) + m c ≡ sum m cs + m (f c)
unfolding find set_chunk
sum-set_chunk m id f [] c e = absurd (cc e)
sum-set_chunk m id f (b ∷ cs) c e = elim (Bool-cases (b.chunk_id == id)) [
  | inl same ↦
      let is : b ≡ c = ground (arith, rw (same, find) at e) in
      rw (same, set_chunk) (rw is (omega arith))
  | inr other ↦
      rw (other, set_chunk) (omega (arith, sum-set_chunk m id f cs c (rw (other, find) at e)))
]

pub set_chunk-IsSequenced :
    (id : String) (f : Chunk → Chunk)
    → ((c : Chunk) → (f c).chunk_id ≡ c.chunk_id)
    → ((c : Chunk) → (f c).dependencies ≡ c.dependencies)
    → (seen : List String) (cs : List Chunk) → IsSequenced seen cs
    → IsSequenced seen (set_chunk id f cs)
unfolding set_chunk
set_chunk-IsSequenced id f named depends seen [] s = tt
set_chunk-IsSequenced id f named depends seen (c ∷ cs) s = elim (Bool-cases (c.chunk_id == id)) [
  | inl same ↦ rw (same, set_chunk) (λ x m. s.0 x (rw (depends c) at m), rw (named c) s.1)
  | inr other ↦
      rw (other, set_chunk)
        (s.0, set_chunk-IsSequenced id f named depends (seen ++ c.chunk_id ∷ []) cs s.1)
]

pub length-set_chunk :
    (id : String) (f : Chunk → Chunk) (cs : List Chunk) → length (set_chunk id f cs) ≡ length cs
unfolding set_chunk
length-set_chunk id f [] = refl
length-set_chunk id f (c ∷ cs) = ground (arith, length-set_chunk id f cs)

-- `prior` chunks were completed before the run, and `settled` during it.
pub record Accounts (prior settled : ℕ) (p : WorkerPool) : Type 0 where
  pub tally : sum done p.chunks ≡ prior + settled
  pub flight :
      (id : String) → count id p.in_flight ≡ (if running_in (find id p.chunks) then 1 else 0)
  pub slots : (w : String) → count w p.in_use ≡ sum (holds w) p.chunks
  pub size : length p.in_use ≡ length p.in_flight
  pub bound : length p.in_flight ≤ p.max_parallel
  pub alive : (id : String) → failed_in (find id p.chunks) ≡ false
  pub assigned :
      (id : String) (c : Chunk)
      → find id p.chunks ≡ some c
      → is_running c.status ≡ true
      → c.assigned_worker_id ≢ none
  pub distinct : IsDistinct p.chunks
  pub sequenced : IsSequenced [] p.chunks
