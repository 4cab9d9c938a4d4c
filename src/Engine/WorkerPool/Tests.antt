-- ===== src/Engine/WorkerPool/Tests.antt =====
-- Two chunks, the second of which waits for the first.
use dev_harness.Common.{
  ℕ, zero, suc, String, ◌≡◌, refl, sym, ap, ◌∙◌, none, some, List, [], ◌∷◌, arith, nat_eq,
  string_eq,
}
use Prim.Native.String.{count, ◌++◌ as str_append}
use text.Mathlib.TextLemmas.{length-append as count_append}
use dev_harness.Contracts.Enums.{pending, in_progress}
use dev_harness.Contracts.State.{Chunk}
use dev_harness.Engine.WorkerPool.{
  WorkerPool, find, all_completed, ready_chunks, set_chunk, contains, free_worker, claim, claim_all,
  submit, settle,
}
use dev_harness.Engine.WorkerPool.Runs.{IsSafe, start, submits, settles, Run-IsSafe}

-- A slot's number as so many strokes.
abbrev pub strokes : ℕ → String
strokes zero = ""
strokes (suc n) = str_append "|" (strokes n)

strokes-count : (n : ℕ) → count (strokes n) ≡ n
strokes-count zero = refl
strokes-count (suc n) = omega (arith, count_append "|" (strokes n), strokes-count n)

pub strokes_distinct : (a b : ℕ) → strokes a ≡ strokes b → a ≡ b
strokes_distinct a b h = sym (strokes-count a) ∙ ap count h ∙ strokes-count b

abbrev pub chunk : String → List String → Chunk
chunk id deps = record {
  chunk_id = id;
  title = id;
  dependencies = deps;
  status = pending;
  assigned_worker_id = none;
}

abbrev graph : List Chunk
graph = chunk "a" [] ∷ chunk "b" ("a" ∷ []) ∷ []

abbrev pool : WorkerPool
pool = record { max_parallel = 2; chunks = graph; in_use = []; in_flight = [] }

graph-IsSafe : IsSafe graph
unfolding find
graph-IsSafe = record {
  distinct = (refl, (refl, tt));
  ordered = λ id c found running. ground arith;
}

abbrev first : WorkerPool
first = record {
  max_parallel = 2;
  chunks =
      record (chunk "a" []) { status = in_progress; assigned_worker_id = some "|" }
      ∷ chunk "b" ("a" ∷ [])
      ∷ [];
  in_use = "|" ∷ [];
  in_flight = "a" ∷ [];
}

first_round : submit strokes pool ≡ some first
unfolding submit claim_all claim free_worker contains ready_chunks find set_chunk all_completed
first_round = refl

Run-IsSafe_example : IsSafe (settle "a" first).chunks
Run-IsSafe_example =
    Run-IsSafe strokes pool (settle "a" first) graph-IsSafe
      (settles pool first "a" (submits pool pool first (start pool) first_round))
