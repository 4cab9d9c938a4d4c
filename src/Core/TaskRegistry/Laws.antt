-- ===== src/Core/TaskRegistry/Laws.antt =====
-- core/task_registry.py: what is tracked after a cancellation.
use dev_harness.Common.{
  ℕ, String, ◌≡◌, ◌≢◌, refl, sym, ap, ◌∙◌, inl, inr, Bool, true, false, not, ◌&&◌, some, List, [],
  ◌∷◌, arith, ◌==◌, nat_eq, string_eq, if◌then◌else◌, keep, Bool-cases, beq_refl, beq_sym_false,
}
use dev_harness.Dict
use dev_harness.Dict.{get-put, get-remove}
use dev_harness.Core.TaskRegistry.{
  TaskRegistry, tracked, or_empty, tasks, store, discard_done, cancel_all,
}

-- No thread is kept for an empty set of tasks.
abbrev pub IsTidy : TaskRegistry → Type 0
IsTidy r = (thread : String) → Dict.get thread r ≢ some []

module _ (is_done : ℕ → Bool) where
  -- The task is one of those and has ended.
  abbrev pub is_settled : List ℕ → ℕ → Bool
  is_settled pending t = tracked t pending && is_done t

  settled_done :
      (p t : ℕ) (pending : List ℕ)
      → is_done p ≡ true
      → is_settled (p ∷ pending) t ≡ (if t == p then true else is_settled pending t)
  unfolding tracked
  settled_done p t pending e = elim (Bool-cases (t == p)) [
    | inl same ↦ let is : t ≡ p = (nat_eq.beq_iff t p).0 same in rw (is, beq_refl p, e) refl
    | inr other ↦ rw (other, beq_sym_false t p other) refl
  ]

  settled_running :
      (p t : ℕ) (pending : List ℕ)
      → is_done p ≡ false
      → is_settled (p ∷ pending) t ≡ is_settled pending t
  unfolding tracked
  settled_running p t pending e = elim (Bool-cases (t == p)) [
    | inl same ↦ let is : t ≡ p = (nat_eq.beq_iff t p).0 same in rw (is, e) ground arith
    | inr other ↦ rw (beq_sym_false t p other) refl
  ]

  keep_done :
      (p : ℕ) (pending ts : List ℕ)
      → is_done p ≡ true
      → keep (λ t. not (is_settled pending t)) (keep (λ t. not (t == p)) ts)
        ≡ keep (λ t. not (is_settled (p ∷ pending) t)) ts
  keep_done p pending [] e = refl
  keep_done p pending (t ∷ ts) e =
      let rest = keep_done p pending ts e in
      let here = settled_done p t pending e in
      elim (Bool-cases (t == p)) [
        | inl same ↦ rw here (rw same rest)
        | inr other ↦ rw here (
            rw other (elim (Bool-cases (is_settled pending t)) [
              | inl gone ↦ rw gone rest
              | inr kept ↦ rw kept (ap (λ l. t ∷ l) rest)
            ]))
      ]

  keep_running :
      (p : ℕ) (pending ts : List ℕ)
      → is_done p ≡ false
      → keep (λ t. not (is_settled pending t)) ts ≡ keep (λ t. not (is_settled (p ∷ pending) t)) ts
  keep_running p pending [] e = refl
  keep_running p pending (t ∷ ts) e =
      let rest = keep_running p pending ts e in
      rw (settled_running p t pending e) (elim (Bool-cases (is_settled pending t)) [
        | inl gone ↦ rw gone rest
        | inr kept ↦ rw kept (ap (λ l. t ∷ l) rest)
      ])

  discard_lem :
      (p : ℕ) (pending ts : List ℕ)
      → keep
          (λ t. not (is_settled pending t))
          (if is_done p then keep (λ t. not (t == p)) ts else ts)
        ≡ keep (λ t. not (is_settled (p ∷ pending) t)) ts
  discard_lem p pending ts = elim (Bool-cases (is_done p)) [
    | inl ended ↦ rw ended (keep_done p pending ts ended)
    | inr runs ↦ rw runs (keep_running p pending ts runs)
  ]

  keep_all : (ts : List ℕ) → keep (λ t. not (is_settled [] t)) ts ≡ ts
  unfolding tracked
  keep_all [] = refl
  keep_all (t ∷ ts) = ap (λ l. t ∷ l) (keep_all ts)

  discard_done_lem :
      (pending ts : List ℕ)
      → discard_done is_done pending ts ≡ keep (λ t. not (is_settled pending t)) ts
  unfolding discard_done
  discard_done_lem [] ts = sym (keep_all ts)
  discard_done_lem (p ∷ pending) ts =
      discard_done_lem pending (if is_done p then keep (λ t. not (t == p)) ts else ts)
      ∙ discard_lem p pending ts

tasks-store :
    (thread : String) (ts : List ℕ) (r : TaskRegistry) → tasks thread (store thread ts r) ≡ ts
unfolding tasks store or_empty
tasks-store thread [] r = rw (get-remove, beq_refl thread) refl
tasks-store thread (t ∷ ts) r = rw (get-put, beq_refl thread) refl

get-store :
    (thread u : String) (ts : List ℕ) (r : TaskRegistry)
    → (thread == u) ≡ false
    → Dict.get u (store thread ts r) ≡ Dict.get u r
unfolding store
get-store thread u [] r e = rw (get-remove, e) refl
get-store thread u (t ∷ ts) r e = rw (get-put, e) refl

store-IsTidy :
    (thread : String) (ts : List ℕ) (r : TaskRegistry) → IsTidy r → IsTidy (store thread ts r)
unfolding store
store-IsTidy thread [] r h u e = elim (Bool-cases (thread == u)) [
  | inl same ↦ absurd (cc (rw (get-remove, same) at e))
  | inr other ↦ h u (rw (get-remove, other) at e)
]
store-IsTidy thread (t ∷ ts) r h u e = elim (Bool-cases (thread == u)) [
  | inl same ↦ absurd (cc (rw (get-put, same) at e))
  | inr other ↦ h u (rw (get-put, other) at e)
]

-- What a cancellation of `thread` leaves of the registry `r` after its wait, and what it returns.
abbrev pub Cancels : (ℕ → Bool) → String → List ℕ → TaskRegistry → TaskRegistry × List ℕ → Type 0
Cancels is_done thread pending r (r', alive) =
    (tasks thread r' ≡ keep (λ t. not (is_settled is_done pending t)) (tasks thread r))
    × (alive ≡ keep (λ t. not (is_done t)) pending)
    × ((u : String) → (thread == u) ≡ false → Dict.get u r' ≡ Dict.get u r)
    × IsTidy r'

-- After a cancellation of a thread that has tasks, its set is what stands in the registry when the wait
-- is over, also a task registered meanwhile, less the tasks cancelled that ended; the others of them are
-- returned. Other threads stay as they are, and no thread is kept for an empty set.
pub cancel_all-Cancels :
    (is_done : ℕ → Bool) (thread : String) (pending : List ℕ) (r : TaskRegistry)
    → pending ≢ []
    → IsTidy r
    → Cancels is_done thread pending r (cancel_all is_done thread pending r)
unfolding cancel_all
cancel_all-Cancels is_done thread [] r some_task tidy = absurd (some_task refl)
cancel_all-Cancels is_done thread (p ∷ pending) r some_task tidy =
    let left = discard_done is_done (p ∷ pending) (tasks thread r) in
    (
      tasks-store thread left r ∙ discard_done_lem is_done (p ∷ pending) (tasks thread r),
      refl,
      λ u e. get-store thread u left r e,
      store-IsTidy thread left r tidy,
    )
