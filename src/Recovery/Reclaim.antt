-- ===== src/Recovery/Reclaim.antt =====
-- recovery/reclaim.py: the removal of what a dead process left behind. What the file system and git hold
-- is the state: for each artifact that is there, the process id that is recorded for it, if one can be
-- read. Whether a process is alive is a parameter. A worktree is removed whether git knows it or not.
pub mod Laws
mod Tests
use dev_harness.Common.{
  nat_eq, ℕ, ◌+◌, String, Bool, true, false, not, ◌||◌, Option, none, some, List, [], ◌∷◌, ◌++◌, Eq,
  if◌then◌else◌, length,
}

pub record Workspace : Type 0 where
  pub socket : Option (Option ℕ)
  pub lock : Option (Option ℕ)
  pub worktrees : List (String × Option ℕ)

pub record ReclaimReport : Type 0 where
  pub socket_removed : Bool
  pub lock_removed : Bool
  pub worktrees_removed : List String
  pub live_artifacts : List String

abbrev pub is_live : (ℕ → Bool) → Option ℕ → Bool
is_live pid_alive none = false
is_live pid_alive (some pid) = pid_alive pid

-- `unlinks` tells whether the files of an artifact can be removed, or else raise an `OSError`; `clears`
-- whether a worktree's directory is gone after git or `rmtree`, which ignores errors, have removed it.
module _ (pid_alive : ℕ → Bool) (unlinks clears : String → Bool) where
  -- `_reclaim_socket` and `_reclaim_lock`: what is left, what is live, and whether it was removed, or
  -- `none` for the `OSError`.
  unfoldable pub reclaim_file :
      String → Option (Option ℕ) → Option (Option ℕ) × List String × Option Bool
  reclaim_file name none = (none, [], some false)
  reclaim_file name (some pid) =
      if is_live pid_alive pid
      then (some pid, name ∷ [], some false)
      else if unlinks name
      then (none, [], some true)
      else (some pid, [], none)

  unfoldable pub reclaim_worktrees :
      List (String × Option ℕ) → List (String × Option ℕ) × List String × List String
  reclaim_worktrees [] = ([], [], [])
  reclaim_worktrees ((name, pid) ∷ ws) =
      let (left, live, removed) = reclaim_worktrees ws in
      if is_live pid_alive pid
      then ((name, pid) ∷ left, name ∷ live, removed)
      else (if clears name then left else (name, pid) ∷ left, live, name ∷ removed)

  after_lock :
      Option (Option ℕ)
      → List String
      → Bool
      → Option (Option ℕ) × List String × Option Bool
      → List (String × Option ℕ)
      → Workspace × Option ReclaimReport
  unfolding reclaim_worktrees
  after_lock socket live socket_removed (lock, live_lock, none) worktrees =
      (record { socket = socket; lock = lock; worktrees = worktrees }, none)
  after_lock socket live socket_removed (lock, live_lock, some lock_removed) worktrees =
      let (left, live_worktrees, removed) = reclaim_worktrees worktrees in
      (
        record { socket = socket; lock = lock; worktrees = left },
        some (record {
          socket_removed = socket_removed;
          lock_removed = lock_removed;
          worktrees_removed = removed;
          live_artifacts = live ++ (live_lock ++ live_worktrees);
        }),
      )

  after_socket :
      Option (Option ℕ) × List String × Option Bool → Workspace → Workspace × Option ReclaimReport
  unfolding after_lock reclaim_file
  after_socket (socket, live, none) w = (record w { socket = socket }, none)
  after_socket (socket, live, some removed) w =
      after_lock socket live removed (reclaim_file "lock" w.lock) w.worktrees

  -- `reclaim`: what is left and the report, or `none` for the `RecoveryError`.
  unfoldable pub reclaim : Workspace → Workspace × Option ReclaimReport
  unfolding after_socket
  reclaim w = after_socket (reclaim_file "socket" w.socket) w

abbrev pub reclaimed_any : ReclaimReport → Bool
reclaimed_any r =
    r.socket_removed || r.lock_removed || not (nat_eq.beq (length r.worktrees_removed) 0)
