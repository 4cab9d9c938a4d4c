-- ===== src/Engine/Watcher/Tests.antt =====
-- Two scans of a workspace.
use dev_harness.Common.{String, ◌≡◌, refl, true, [], ◌∷◌, nat_eq, string_eq}
use dev_harness.Dict.{get}
use dev_harness.Engine.Watcher.{WorkspaceWatcher, Seen, scan_once, scan_all, new_watcher}
use dev_harness.Engine.Watcher.Mirror.{IsNumbered}
use dev_harness.Engine.Watcher.Follow.{follow, there, scan_all_mirrors}

abbrev first : Seen
first = record {
  files = ("a", record { size = 1; digest = "x" }) ∷ ("b", record { size = 1; digest = "y" }) ∷ [];
  branch = "main";
  dirty_count = 0;
}

abbrev second : Seen
second = record {
  files = ("b", record { size = 1; digest = "z" }) ∷ ("c", record { size = 2; digest = "x" }) ∷ [];
  branch = "main";
  dirty_count = 2;
}

abbrev primed : WorkspaceWatcher
primed = (scan_once first new_watcher).0

primed-IsPrimed : primed.primed ≡ true
unfolding scan_once
primed-IsPrimed = refl

scan_all_mirrors_example :
    ((p : String)
      → follow p (scan_all (second ∷ first ∷ []) primed).1 (there (get p primed.fingerprints))
        ≡ there (get p (scan_all (second ∷ first ∷ []) primed).0.fingerprints))
    × IsNumbered primed.seq (scan_all (second ∷ first ∷ []) primed).1
unfolding scan_once get
scan_all_mirrors_example =
    scan_all_mirrors (second ∷ first ∷ []) primed primed-IsPrimed (refl, (refl, tt))
      ((refl, (refl, tt)), ((refl, (refl, tt)), tt))
