-- ===== src/Recovery/Sessions.antt =====
-- recovery/session_recovery.py, the detection of a session that has not been shut down; and the seal of
-- engine/shutdown.py, which storage/checkpoint_binding.py writes. The JSON codecs of a state and
-- of a worktree column are parameters.
pub mod Laws
pub mod Offers
mod Tests
use dev_harness.Common.{
  ℕ, String, Bool, true, Option, none, some, List, [], ◌∷◌, Eq, ◌==◌, nat_eq, string_eq,
  if◌then◌else◌, false, map, ◌++◌, keep, not,
}
use dev_harness.Dict
use dev_harness.Dict.{Dict}
use dev_harness.Sorted.{sort}
use dev_harness.Engine.WorkerPool.{contains}
use dev_harness.Contracts.Enums.{paused}
use dev_harness.Contracts.State.{HarnessState}
use dev_harness.Storage.Saver.{Scope, Row, Keywords, newest_first, put}
use dev_harness.Storage.Integrity.{
  Tables, Verified, missing, served, corrupt_checkpoint, get_verified_tuple,
}

abbrev pub seal_checkpoint_id : String
seal_checkpoint_id = "shutdown"

pub record Snapshot : Type 0 where
  pub head : String
  pub diff : String

pub record RecoveryPlan : Type 0 where
  pub scope : Scope
  pub checkpoint_id : String
  pub state : HarnessState
  pub worktrees : Dict String Snapshot

-- `finalized` is the `None`; `invalid_state` is the validation error of the state's JSON, and
-- `invalid_worktrees` the error of the JSON of a worktree column.
pub data Detection : Type 0 where
  finalized corrupt invalid_state invalid_worktrees : Detection
  unfinalized : RecoveryPlan → Detection

-- `_newest_checkpoint`
unfoldable pub newest_checkpoint : List Row → Option Row
newest_checkpoint rows = elim (newest_first rows) [ [] ↦ none | r ∷ _ ↦ some r ]

abbrev pub scope_of : Row → Scope
scope_of r = record { project_id = r.project_id; thread_id = r.thread_id }

-- A column counts as absent if it is empty.
given : Option String → Option String
given none = none
given (some text) = if text == "" then none else some text

or_empty : Option String → String
or_empty none = ""
or_empty (some text) = text

names : Dict String String → List String
names d = map (λ (item : String × String). item.0) d

module _ (loads : String → Option (Dict String String)) where
  -- json.loads of a column; `none` is its error.
  column : Option String → Option (Dict String String)
  column none = some []
  column (some text) = loads text

  merged : Dict String String → Dict String String → Dict String Snapshot
  unfolding or_empty names
  merged heads diffs =
      map
        (λ (w : String).
          (w, record { head = or_empty (Dict.get w heads); diff = or_empty (Dict.get w diffs) }))
        (sort (names heads ++ keep (λ w. not (contains w (names heads))) (names diffs)))

  both : Option (Dict String String) → Option (Dict String String) → Option (Dict String Snapshot)
  unfolding merged
  both none diffs = none
  both (some heads) none = none
  both (some heads) (some diffs) = some (merged heads diffs)

  -- `deserialize_worktree_state`
  unfoldable pub deserialize_worktree_state : Row → Option (Dict String Snapshot)
  unfolding given column both
  deserialize_worktree_state r =
      both (column (given r.worktree_head)) (column (given r.worktree_diff))

with_worktrees : Scope → Row → HarnessState → Option (Dict String Snapshot) → Detection
with_worktrees s r state none = invalid_worktrees
with_worktrees s r state (some worktrees) =
    unfinalized
      (record { scope = s; checkpoint_id = r.checkpoint_id; state = state; worktrees = worktrees })

module _ (sha256 : String → String) (load : String → Option HarnessState)
    (loads : String → Option (Dict String String)) where
  planned : Scope → Row → Option HarnessState → Detection
  unfolding with_worktrees
  planned s r none = invalid_state
  planned s r (some state) = with_worktrees s r state (deserialize_worktree_state loads r)

  unfoldable pub offered : Scope → Verified → Detection
  unfolding planned
  offered s missing = finalized
  offered s (served none) = finalized
  offered s (served (some r)) =
      if r.checkpoint_id == seal_checkpoint_id then finalized else planned s r (load r.state_json)
  offered s corrupt_checkpoint = corrupt

  detected : ℕ → Tables → Option Row → Tables × Detection
  unfolding offered
  detected at t none = (t, finalized)
  detected at t (some r) =
      let read = get_verified_tuple sha256 (scope_of r) r.checkpoint_id at t in
      if r.checkpoint_id == seal_checkpoint_id
      then (t, finalized)
      else (read.0, offered (scope_of r) read.1)

  -- `detect_unfinalized_session`, at the time `at`
  unfoldable pub detect_unfinalized_session : ℕ → Tables → Tables × Detection
  unfolding newest_checkpoint detected
  detect_unfinalized_session at t = detected at t (newest_checkpoint t.rows)

-- The state that `GracefulShutdown._seal_checkpoint` writes.
abbrev pub sealed : HarnessState → HarnessState
sealed s = record s {
  tui_state = record s.tui_state { is_paused = true; critic_gatekeeper_status = paused };
}

-- The keywords that `CheckpointBinding.put_bound` passes on, with the two columns that it serializes:
-- none of them is a time.
abbrev pub bound : Option String → String → Bool → Option String × Option String → Keywords
bound id head seal columns = record {
  checkpoint_id = id;
  git_commit_hash = some head;
  is_paused = seal;
  created_at = none;
  worktree_head = columns.0;
  worktree_diff = columns.1;
}

module _ (dump : HarnessState → String) (sha256 : String → String) (cp_text : ℕ → String) where
  -- `_seal_checkpoint` of a session, at the commit `head`
  unfoldable pub seal_checkpoint : Scope → HarnessState → String → List Row → Option (List Row)
  seal_checkpoint s state head rows =
      put dump sha256 cp_text s (sealed state)
        (bound (some seal_checkpoint_id) head true (none, none)) rows
