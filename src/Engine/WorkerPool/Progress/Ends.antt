-- ===== src/Engine/WorkerPool/Progress/Ends.antt =====
-- engine/worker_pool.py, `run`: the loop ends, and every chunk has been completed.
use dev_harness.Common.{
  ℕ, zero, suc, ◌+◌, ◌≤◌, ◌<◌, String, ◌≡◌, refl, sym, ap, ◌∙◌, ◌≢◌, inl, inr, Bool, true, false,
  some, List, [], ◌∷◌, ◌++◌, arith, ltb, nat_eq, string_eq, beq_refl, Bool-cases, List-cases,
  if◌then◌else◌, length,
}
use dev_harness.Contracts.State.{Chunk}
use dev_harness.Sorted.{count, count-append}
use dev_harness.Engine.WorkerPool.{
  WorkerPool, is_completed, find, completed_in, all_completed, dependencies_completed, ready_chunks,
  submit,
}
use dev_harness.Engine.WorkerPool.Runs.{FindsAll, finds_all}
use dev_harness.Engine.WorkerPool.Loop.{
  Outcome, returned, stalled, settle_all, all_settled, next, await, rounds, run, IsSequenced,
}
use dev_harness.Engine.WorkerPool.Progress.{sum, done, running_in, failed_in, Accounts}
use dev_harness.Engine.WorkerPool.Progress.Claims.{Submitted, submit-Submitted}
use dev_harness.Engine.WorkerPool.Progress.Settles.{settle_all-Accounts}

done-le : (cs : List Chunk) → sum done cs ≤ length cs
done-le [] = omega arith
done-le (c ∷ cs) = ground (arith, done-le cs)

count-le : (x : String) (xs : List String) → count x xs ≤ length xs
count-le x [] = omega arith
count-le x (y ∷ ys) = ground (arith, count-le x ys)

all_done :
    (ds : List String) (cs : List Chunk)
    → ((x : String) → 1 ≤ count x ds → completed_in (find x cs) ≡ true)
    → all_completed ds cs ≡ true
unfolding all_completed
all_done [] cs h = refl
all_done (d ∷ ds) cs h = ground (arith, h d, beq_refl d, all_done ds cs (λ x m. h x (omega arith)))

-- Where nothing is in progress or failed, and nothing is ready, all is completed.
progress :
    (seen : List String) (order cs : List Chunk)
    → FindsAll order cs
    → IsSequenced seen order
    → ((id : String) → (running_in (find id cs) ≡ false) × (failed_in (find id cs) ≡ false))
    → ((x : String) → 1 ≤ count x seen → completed_in (find x cs) ≡ true)
    → ready_chunks order cs ≡ []
    → sum done order ≡ length order
unfolding ready_chunks dependencies_completed
progress seen [] cs finds s idle before none_ready = refl
progress seen (c ∷ order) cs finds s idle before none_ready =
    let deps = all_done c.dependencies cs (λ x m. before x (s.0 x m)) in
    let is_done : is_completed c.status ≡ true = ground (arith, idle c.chunk_id, finds.0, deps) in
    let rest : ready_chunks order cs ≡ [] = ground arith in
    let later =
      progress (seen ++ c.chunk_id ∷ []) order cs finds.1 s.1 idle
        (λ x m. ground (
          arith,
          before x,
          count-append x seen (c.chunk_id ∷ []),
          string_eq.beq_iff c.chunk_id x,
          finds.0,
        ))
        rest in
    ground arith

-- How the loop ends, by the number of chunks that were completed before it.
abbrev pub ending : ℕ → WorkerPool → Outcome
ending prior q = if nat_eq.beq prior 0 then returned q else stalled q

module _ (worker_id : ℕ → String) (distinct : (a b : ℕ) → worker_id a ≡ worker_id b → a ≡ b)
    (waited : ℕ → List String → List String)
    (some_done : (n : ℕ) (id : String) (ids : List String) → waited n (id ∷ ids) ≢ [])
    (of_flight : (n : ℕ) (ids : List String) (id : String) → count id (waited n ids) ≤ count id ids)
    (succeeds : String → Bool) (fine : (id : String) → succeeds id ≡ true) where
  -- The pool of a round in which nothing is put in flight.
  idle-done :
      (prior settled : ℕ) (p q : WorkerPool)
      → Accounts prior settled p
      → Submitted worker_id distinct prior settled p q
      → (ready_chunks p.chunks p.chunks ≢ [] → 1 ≤ length q.in_flight)
      → q.in_flight ≡ []
      → sum done p.chunks ≡ length p.chunks
  idle-done prior settled p q a s one empty =
      let none_flies : length p.in_flight ≡ 0 = omega (arith, s.more, ap length empty) in
      let none_ready : ready_chunks p.chunks p.chunks ≡ [] =
        elim (List-cases (ready_chunks p.chunks p.chunks)) [
          | inl is ↦ is
          | inr (c, cs, is) ↦ absurd (omega (arith, one (λ e. cc (sym is ∙ e)), ap length empty))
        ] in
      progress [] p.chunks p.chunks (finds_all p.chunks a.distinct) a.sequenced
        (λ id. (ground (arith, a.flight id, count-le id p.in_flight, none_flies), a.alive id))
        (λ x m. absurd (omega arith)) none_ready

  abbrev loop : ℕ → WorkerPool → ℕ → Outcome
  loop = rounds worker_id waited succeeds

  rounds-submit :
      (fuel settled : ℕ) (p q : WorkerPool)
      → ltb settled (length p.chunks) ≡ true
      → submit worker_id p ≡ some q
      → rounds worker_id waited succeeds (suc fuel) p settled
        ≡ await worker_id waited succeeds (loop fuel) fuel settled (some q)
  unfolding rounds
  rounds-submit fuel settled p q h is = rw (h, rounds, is) refl

  await-idle :
      (fuel settled : ℕ) (q : WorkerPool)
      → q.in_flight ≡ []
      → await worker_id waited succeeds (loop fuel) fuel settled (some q) ≡ stalled q
  unfolding await
  await-idle fuel settled q empty = simp (empty, await)

  rounds-over :
      (fuel settled : ℕ) (p : WorkerPool)
      → ltb settled (length p.chunks) ≡ false
      → rounds worker_id waited succeeds (suc fuel) p settled ≡ returned p
  unfolding rounds
  rounds-over fuel settled p h = rw (h, rounds) refl

  await-next :
      (fuel settled n : ℕ) (q r : WorkerPool) (id : String) (ids : List String)
      → q.in_flight ≡ id ∷ ids
      → settle_all succeeds (waited fuel (id ∷ ids)) q settled ≡ all_settled r n
      → await worker_id waited succeeds (loop fuel) fuel settled (some q) ≡ loop fuel r n
  unfolding await next
  await-next fuel settled n q r id ids flying is = rw (flying, is) refl

  rounds_end :
      (prior fuel settled : ℕ) (p : WorkerPool)
      → Accounts prior settled p
      → 1 ≤ p.max_parallel
      → length p.chunks < settled + fuel
      → (q : WorkerPool) × (loop fuel p settled ≡ ending prior q)
        × (sum done q.chunks ≡ length q.chunks)
        × (length q.chunks ≡ length p.chunks)
  unfolding rounds await
  rounds_end prior zero settled p a wide f = absurd (omega (arith, a.tally, done-le p.chunks))
  rounds_end prior (suc fuel) settled p a wide f =
      elim (Bool-cases (ltb settled (length p.chunks))) [
        | inr over ↦
            let fresh : nat_eq.beq prior 0 ≡ true = ground (arith, a.tally, done-le p.chunks) in
            (
              p,
              rounds-over fuel settled p over ∙ rw fresh refl,
              ground (arith, a.tally, done-le p.chunks),
              refl,
            )
        | inl goes_on ↦
            let (q, is, s, one) = submit-Submitted worker_id distinct prior settled p a in
            let step = rounds-submit fuel settled p q goes_on is in
            elim (List-cases q.in_flight) [
              | inl empty ↦
                  let all = idle-done prior settled p q a s (λ r. one r wide) empty in
                  let late : nat_eq.beq prior 0 ≡ false = ground (arith, a.tally, all) in
                  (
                    q,
                    step ∙ await-idle fuel settled q empty ∙ rw late refl,
                    omega (arith, s.accounts.tally, a.tally, all, s.total),
                    s.total,
                  )
              | inr (id, ids, flying) ↦
                  let (r, settles, b, ceiling, total) =
                    settle_all-Accounts prior settled succeeds (waited fuel (id ∷ ids)) q fine
                      s.accounts
                      (λ j. omega (arith, of_flight fuel (id ∷ ids) j, ap (count j) flying)) in
                  let n = length (waited fuel (id ∷ ids)) in
                  let some_more : 1 ≤ n = elim (List-cases (waited fuel (id ∷ ids))) [
                    | inl nothing ↦ absurd (some_done fuel id ids nothing)
                    | inr (x, xs, more) ↦ omega (arith, ap length more)
                  ] in
                  let (end, ends, all, same) =
                    rounds_end prior fuel (settled + n) r b (omega (arith, s.ceiling, ceiling))
                      (omega (arith, s.total, total)) in
                  (
                    end,
                    step ∙ await-next fuel settled (settled + n) q r id ids flying settles ∙ ends,
                    all,
                    same ∙ total ∙ s.total,
                  )
            ]
      ]

  -- A run whose chunks are pending or completed at its start, each id once and behind its
  -- dependencies, with at least one worker slot and no failing executor, ends with every chunk
  -- completed. When no chunk was completed before the run, it returns; when some were, it ends in the
  -- error that no schedulable chunk remains.
  pub run_ends :
      (prior : ℕ) (p : WorkerPool)
      → Accounts prior 0 p
      → 1 ≤ p.max_parallel
      → (q : WorkerPool) × (run worker_id waited succeeds p ≡ ending prior q)
        × (sum done q.chunks ≡ length p.chunks)
  unfolding run
  run_ends prior p a wide =
      let (q, ends, all, same) =
        rounds_end prior (suc (length p.chunks)) 0 p a wide (omega arith) in
      (q, ends, all ∙ same)
