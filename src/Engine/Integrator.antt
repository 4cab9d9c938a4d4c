-- ===== src/Engine/Integrator.antt =====
-- engine/integrator.py: the merging of the chunk branches into the primary branch. Git is a parameter:
-- an unknown state of the repository and the five commands that the code runs. A command that fails is
-- `none`, which is the `VcsError`, save `git merge`, which says whether it succeeded.
pub mod Laws
mod Tests
use dev_harness.Common.{
  ◌+◌, ◌-◌, ◌/◌, String, ◌≡◌, Bool, true, false, Option, none, some, List, [], ◌∷◌, ◌++◌, nat_eq,
  string_eq, if◌then◌else◌,
}
use Prim.Native.String.{◌++◌ as str_append}
use dev_harness.Contracts.State.{Chunk}
use dev_harness.Sorted.{str_leb}
use dev_harness.Engine.WorkerPool.{contains}

pub record Git : Type 1 where
  pub State : Type 0
  -- git rev-parse HEAD
  pub head : State → Option String
  -- git rev-parse --abbrev-ref HEAD
  pub primary_branch : State → Option String
  -- git diff --name-only, against the merge base
  pub changed_files : String → State → Option (List String)
  pub merge : String → State → State × Bool
  -- git diff --name-only --diff-filter=U
  pub conflicting_files : State → List String
  pub merge_abort : State → Option State
  -- git reset --hard
  pub reset : String → State → Option State

-- What git's manual says of `git reset --hard`: the branch stands at the commit.
pub record IsLawful (G : Git) : Type 0 where
  pub head-reset : (h : String) (s t : G.State) → G.reset h s ≡ some t → G.head t ≡ some h

pub data Outcome : Type 0 where
  integrated : (merged : List String) → Outcome
  integration_conflict : (conflict_file other chunk_id : String) → Outcome
  vcs_error : Outcome

abbrev pub chunk_branch : String → String
chunk_branch id = str_append "chunk/" id

-- `min(conflicts)` of a list that begins with `file`
unfoldable pub least : String → List String → String
least file [] = file
least file (f ∷ files) = least (if str_leb file f then file else f) files

-- The chunks that were merged, each with the files that it changed.
abbrev pub Touched : Type 0
Touched = List (String × List String)

-- `_other_chunk`
unfoldable pub other_chunk : String → Touched → String → String
unfolding contains
other_chunk file [] fallback = fallback
other_chunk file ((id, files) ∷ touched) fallback =
    if contains file files then id else other_chunk file touched fallback

module _ (G : Git) where
  reset_to : String → G.State → Option G.State → G.State × Bool
  reset_to start s none = (s, false)
  reset_to start s (some t) = (t, true)

  aborted : String → G.State → Option G.State → G.State × Bool
  unfolding reset_to
  aborted start s none = (s, false)
  aborted start s (some t) = reset_to start t (G.reset start t)

  -- `_abort_merge`: the state after it, and whether it succeeded.
  unfoldable pub abort_merge : String → G.State → G.State × Bool
  unfolding aborted
  abort_merge start s = aborted start s (G.merge_abort s)

  -- A merge that stopped at a conflict in `file`, with the name of the primary branch.
  roll_back : String → Touched → String → G.State → String → Option String → G.State × Outcome
  unfolding abort_merge other_chunk
  roll_back start touched id s file none = (s, vcs_error)
  roll_back start touched id s file (some branch) =
      let (t, done) = abort_merge start s in
      (
        t,
        if done then integration_conflict file (other_chunk file touched branch) id else vcs_error,
      )

  -- A merge that failed, with its conflicting files.
  unfoldable pub merge_failed :
      String → Touched → String → G.State → List String → G.State × Outcome
  unfolding roll_back least
  merge_failed start touched id s [] = (s, vcs_error)
  merge_failed start touched id s (f ∷ files) =
      roll_back start touched id s (least f files) (G.primary_branch s)

  -- The loop of `integrate`, from the commit `start`.
  unfoldable pub merge_all :
      String → List Chunk → List String → Touched → G.State → G.State × Outcome
  unfolding merge_failed
  merge_all start [] merged touched s = (s, integrated merged)
  merge_all start (c ∷ cs) merged touched s = elim (G.changed_files (chunk_branch c.chunk_id) s) [
    | none ↦ (s, vcs_error)
    | some changed ↦ elim (G.merge (chunk_branch c.chunk_id) s).1 [
      | true ↦
          merge_all start cs (merged ++ c.chunk_id ∷ []) (touched ++ (c.chunk_id, changed) ∷ [])
            (G.merge (chunk_branch c.chunk_id) s).0
      | false ↦
          merge_failed start touched c.chunk_id (G.merge (chunk_branch c.chunk_id) s).0
            (G.conflicting_files (G.merge (chunk_branch c.chunk_id) s).0)
    ]
  ]

  unfoldable pub integrate_from : List Chunk → G.State → Option String → G.State × Outcome
  unfolding merge_all
  integrate_from cs s none = (s, vcs_error)
  integrate_from cs s (some start) = merge_all start cs [] [] s

  -- `Integrator.integrate`
  unfoldable pub integrate : List Chunk → G.State → G.State × Outcome
  unfolding integrate_from
  integrate cs s = integrate_from cs s (G.head s)
