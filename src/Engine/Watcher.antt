-- ===== src/Engine/Watcher.antt =====
-- engine/workspace_watcher.py: the watcher's scans. The files with their fingerprints and the state of
-- git are read outside and are arguments; what is published is what a scan returns. The polling thread
-- calls `scan_once` again and again.
pub mod Laws
pub mod Mirror
pub mod Follow
mod Tests
use dev_harness.Common.{
  ℕ, ◌+◌, String, Bool, true, false, ◌&&◌, Option, none, some, List, [], ◌∷◌, ◌++◌, Eq, ◌==◌,
  nat_eq, string_eq, if◌then◌else◌, length,
}
use dev_harness.Dict.{Dict, get}
use dev_harness.Sorted.{str_leb}
use dev_harness.Contracts.Enums.{file_change, git_status_update}
use dev_harness.Contracts.Events.{
  ChangeType, modified, created, deleted, Envelope, file_change_payload, git_status_update_payload,
}

pub record Fingerprint : Type 0 where
  pub size : ℕ
  pub digest : String

abbrev pub same_fingerprint : Fingerprint → Fingerprint → Bool
same_fingerprint a b = a.size == b.size && a.digest == b.digest

abbrev pub Change : Type 0
Change = String × ChangeType

abbrev pub change_name : ChangeType → String
change_name modified = "modified"
change_name created = "created"
change_name deleted = "deleted"

-- Tuples are compared by the path, then by the change.
abbrev pub before : Change → Change → Bool
before (p, a) (q, b) = if p == q then str_leb (change_name a) (change_name b) else str_leb p q

unfoldable pub insert : Change → List Change → List Change
insert c [] = c ∷ []
insert c (d ∷ ds) = if before c d then c ∷ d ∷ ds else d ∷ insert c ds

unfoldable pub sort : List Change → List Change
unfolding insert
sort [] = []
sort (c ∷ cs) = insert c (sort cs)

abbrev pub Files : Type 0
Files = Dict String Fingerprint

present_change : String → Fingerprint → Option Fingerprint → List Change → List Change
present_change rel now none rest = (rel, created) ∷ rest
present_change rel now (some old) rest =
    if same_fingerprint old now then rest else (rel, modified) ∷ rest

-- The loop over the current files.
unfoldable pub present_changes : Files → Files → List Change
unfolding present_change
present_changes old [] = []
present_changes old ((rel, now) ∷ files) =
    present_change rel now (get rel old) (present_changes old files)

absent_change : String → Option Fingerprint → List Change → List Change
absent_change rel none rest = (rel, deleted) ∷ rest
absent_change rel (some _) rest = rest

-- The loop over the files of the scan before.
unfoldable pub absent_changes : Files → Files → List Change
unfolding absent_change
absent_changes current [] = []
absent_changes current ((rel, _) ∷ files) =
    absent_change rel (get rel current) (absent_changes current files)

unfoldable pub file_changes : Files → Files → List Change
unfolding sort present_changes absent_changes
file_changes old current = sort (present_changes old current ++ absent_changes current old)

pub record WorkspaceWatcher : Type 0 where
  pub seq : ℕ
  pub fingerprints : Files
  pub branch : Option String
  pub dirty_count : Option ℕ
  pub primed : Bool

abbrev pub new_watcher : WorkspaceWatcher
new_watcher = record {
  seq = 0;
  fingerprints = [];
  branch = none;
  dirty_count = none;
  primed = false;
}

-- What a scan reads of the workspace and of git.
pub record Seen : Type 0 where
  pub files : Files
  pub branch : String
  pub dirty_count : ℕ

unfoldable pub emit_changes : ℕ → List Change → List Envelope
emit_changes seq [] = []
emit_changes seq ((rel, kind) ∷ cs) =
    record { type = file_change; seq = seq; payload = file_change_payload rel kind }
    ∷ emit_changes (seq + 1) cs

abbrev pub is_branch : Option String → String → Bool
is_branch none b = false
is_branch (some a) b = a == b

abbrev pub is_count : Option ℕ → ℕ → Bool
is_count none n = false
is_count (some m) n = m == n

unfoldable pub emit_git : ℕ → WorkspaceWatcher → Seen → List Envelope
emit_git seq w s =
    if is_branch w.branch s.branch && is_count w.dirty_count s.dirty_count
    then []
    else record {
      type = git_status_update;
      seq = seq;
      payload = git_status_update_payload s.branch s.dirty_count;
    }
      ∷ []

unfoldable pub scan_once : Seen → WorkspaceWatcher → WorkspaceWatcher × List Envelope
unfolding file_changes emit_changes emit_git
scan_once s w =
    let changes = file_changes w.fingerprints s.files in
    let emitted =
      if w.primed
      then emit_changes w.seq changes ++ emit_git (w.seq + length changes) w s
      else [] in
    (
      record {
        seq = w.seq + length emitted;
        fingerprints = s.files;
        branch = some s.branch;
        dirty_count = some s.dirty_count;
        primed = true;
      },
      emitted,
    )

-- The polling of a watcher.
unfoldable pub scan_all : List Seen → WorkspaceWatcher → WorkspaceWatcher × List Envelope
unfolding scan_once
scan_all [] w = (w, [])
scan_all (s ∷ rest) w =
    let (w', now) = scan_once s w in let (w'', later) = scan_all rest w' in (w'', now ++ later)
