-- ===== src/Recovery/Reclaim/Tests.antt =====
-- A dead socket, a live lock and two worktrees of dead processes, one of which cannot be cleared.
use dev_harness.Common.{
  ℕ, String, ◌≡◌, refl, Bool, not, none, some, [], ◌∷◌, ◌==◌, nat_eq, string_eq,
}
use dev_harness.Recovery.Reclaim.{Workspace, reclaim}

abbrev alive_1 : ℕ → Bool
alive_1 pid = pid == 1

abbrev removable : String → Bool
removable name = not (name == "w2")

abbrev left_behind : Workspace
left_behind = record {
  socket = some (some 7);
  lock = some (some 1);
  worktrees = ("w1", none) ∷ ("w2", some 8) ∷ [];
}

reclaimed :
    (reclaim alive_1 removable removable left_behind).0
    ≡ record { socket = none; lock = some (some 1); worktrees = ("w2", some 8) ∷ [] }
unfolding reclaim
reclaimed = refl
