-- ===== src/Engine/WorkerPool/Claims.antt =====
-- engine/worker_pool.py: a chunk runs only when all its dependencies are completed.
use dev_harness.Common.{
  String, ◌≡◌, refl, sym, ap, ◌∙◌, inl, inr, true, false, Option, none, some, List, [], ◌∷◌, arith,
  ◌==◌, nat_eq, string_eq, beq_sym_false, Bool-cases, Option-cases, if◌then◌else◌,
}
use dev_harness.Contracts.Enums.{in_progress, completed}
use dev_harness.Contracts.State.{Chunk}
use dev_harness.Engine.WorkerPool.{find, completed_in, all_completed, set_chunk, start_as, complete}

abbrev pub changed : (Chunk → Chunk) → Option Chunk → Option Chunk
changed f none = none
changed f (some c) = some (f c)

module _ (f : Chunk → Chunk) (keeps : (c : Chunk) → (f c).chunk_id ≡ c.chunk_id) where
  pub find-set_chunk :
      (id j : String) (cs : List Chunk)
      → find j (set_chunk id f cs) ≡ (if id == j then changed f (find j cs) else find j cs)
  unfolding find set_chunk
  find-set_chunk id j [] = ground arith
  find-set_chunk id j (c ∷ cs) = ground (
    arith,
    keeps c,
    find-set_chunk id j cs,
    string_eq.beq_iff c.chunk_id id,
    string_eq.beq_iff c.chunk_id j,
    string_eq.beq_iff id j,
  )

  found_before :
      (id j : String) (cs : List Chunk) (c : Chunk)
      → find j (set_chunk id f cs) ≡ some c
      → (b : Chunk) × (find j cs ≡ some b) × (c ≡ (if id == j then f b else b))
  found_before id j cs c found = elim (Option-cases (find j cs)) [
    | inl absent ↦ ground (arith, find-set_chunk id j cs)
    | inr (b, there) ↦ (b, there, ground (arith, find-set_chunk id j cs))
  ]

-- Each id stands once.
abbrev pub IsDistinct : List Chunk → Type 0
IsDistinct [] = Unit
IsDistinct (c ∷ cs) = (find c.chunk_id cs ≡ none) × IsDistinct cs

-- A chunk that runs has completed dependencies only.
abbrev pub IsOrdered : List Chunk → Type 0
IsOrdered cs =
    (id : String) (c : Chunk)
    → find id cs ≡ some c
    → c.status ≡ in_progress
    → all_completed c.dependencies cs ≡ true

-- Every chunk that was completed still is.
Grows : List Chunk → List Chunk → Type 0
Grows cs ds = (d : String) → completed_in (find d cs) ≡ true → completed_in (find d ds) ≡ true

all_completed-Grows :
    (ids : List String) (cs ds : List Chunk)
    → Grows cs ds
    → all_completed ids cs ≡ true
    → all_completed ids ds ≡ true
unfolding all_completed Grows
all_completed-Grows [] cs ds g h = refl
all_completed-Grows (d ∷ ids) cs ds g h = ground (arith, g d, all_completed-Grows ids cs ds g)

pub set_chunk-IsDistinct :
    (f : Chunk → Chunk) (keeps : (c : Chunk) → (f c).chunk_id ≡ c.chunk_id) (id : String)
    (cs : List Chunk)
    → IsDistinct cs
    → IsDistinct (set_chunk id f cs)
unfolding set_chunk
set_chunk-IsDistinct f keeps id [] u = tt
set_chunk-IsDistinct f keeps id (c ∷ cs) u = elim (Bool-cases (c.chunk_id == id)) [
  | inl same ↦ rw same ((ap (λ j. find j cs) (keeps c) ∙ u.0), u.1)
  | inr other ↦ rw other (
    find-set_chunk f keeps id c.chunk_id cs ∙ rw (beq_sym_false c.chunk_id id other) u.0,
    set_chunk-IsDistinct f keeps id cs u.1,
  )
]

-- A chunk that a round may claim, at some moment of the round.
abbrev pub IsClaimable : String → List Chunk → Type 0
IsClaimable id cs =
    (completed_in (find id cs) ≡ false)
    × ((c : Chunk) → find id cs ≡ some c → all_completed c.dependencies cs ≡ true)

start-Grows :
    (id w : String) (cs : List Chunk)
    → completed_in (find id cs) ≡ false
    → Grows cs (set_chunk id (start_as w) cs)
unfolding Grows
start-Grows id w cs fresh d done = elim (Bool-cases (id == d)) [
  | inl same ↦ ground (arith, string_eq.beq_iff id d)
  | inr other ↦ rw (find-set_chunk (start_as w) (λ c. refl) id d cs, other) done
]

complete-Grows : (id : String) (cs : List Chunk) → Grows cs (set_chunk id complete cs)
unfolding Grows
complete-Grows id cs d done = elim (Option-cases (find d cs)) [
  | inl absent ↦ ground arith
  | inr (b, there) ↦ ground (arith, find-set_chunk complete (λ c. refl) id d cs)
]

pub start-IsOrdered :
    (id w : String) (cs : List Chunk)
    → IsClaimable id cs
    → IsOrdered cs
    → IsOrdered (set_chunk id (start_as w) cs)
start-IsOrdered id w cs k o j c found running =
    let (b, there, is) = found_before (start_as w) (λ c. refl) id j cs c found in
    let grown =
      all_completed-Grows c.dependencies cs (set_chunk id (start_as w) cs)
        (start-Grows id w cs k.0) in
    elim (Bool-cases (id == j)) [
      | inl same ↦
          let this : find id cs ≡ some b =
            ap (λ i. find i cs) ((string_eq.beq_iff id j).0 same) ∙ there in
          let deps : c.dependencies ≡ b.dependencies = ground arith in grown (rw deps (k.1 b this))
      | inr other ↦
          let old : c ≡ b = ground arith in
          grown (rw old (o j b there (ap (λ (x : Chunk). x.status) (sym old) ∙ running)))
    ]

pub start-IsClaimable :
    (id w j : String) (cs : List Chunk)
    → IsClaimable id cs
    → IsClaimable j cs
    → IsClaimable j (set_chunk id (start_as w) cs)
start-IsClaimable id w j cs k m = (
  ground (arith, find-set_chunk (start_as w) (λ c. refl) id j cs, Option-cases (find j cs), m.0),
  λ c found.
      let (b, there, is) = found_before (start_as w) (λ c. refl) id j cs c found in
      let deps : c.dependencies ≡ b.dependencies = ground arith in
      all_completed-Grows c.dependencies cs (set_chunk id (start_as w) cs) (start-Grows id w cs k.0)
        (rw deps (m.1 b there)),
)

pub complete-IsOrdered :
    (id : String) (cs : List Chunk) → IsOrdered cs → IsOrdered (set_chunk id complete cs)
complete-IsOrdered id cs o j c found running =
    let (b, there, is) = found_before complete (λ c. refl) id j cs c found in
    elim (Bool-cases (id == j)) [
      | inl same ↦
          let over : c.status ≡ completed = ground arith in
          let never : completed ≡ in_progress = sym over ∙ running in ground arith
      | inr other ↦
          let old : c ≡ b = ground arith in
          all_completed-Grows c.dependencies cs (set_chunk id complete cs) (complete-Grows id cs)
            (rw old (o j b there (ap (λ (x : Chunk). x.status) (sym old) ∙ running)))
    ]
