-- ===== src/Engine/Watcher/Mirror.antt =====
-- engine/workspace_watcher.py: who follows the events of a watcher knows its files.
use dev_harness.Common.{
  ℕ, ◌+◌, String, ◌≡◌, refl, inl, inr, true, ◌&&◌, List, [], ◌∷◌, ◌++◌, arith, ◌==◌, nat_eq,
  string_eq, Bool-cases, if◌then◌else◌, length,
}
use dev_harness.Dict.{get, IsUnique}
use dev_harness.Contracts.Events.{
  ChangeType, created, Envelope, EventPayload, file_change_payload, git_status_update_payload,
}
use dev_harness.Engine.Watcher.{
  Change, file_changes, WorkspaceWatcher, Seen, emit_changes, emit_git, scan_once, is_branch,
  is_count,
}
use dev_harness.Engine.Watcher.Laws.{kind_beq, reports, change_of, is_kind, reports-file_changes}

abbrev pub reports_payload : String → ChangeType → EventPayload → ℕ
reports_payload p k (file_change_payload q l) = if q == p && kind_beq l k then 1 else 0
reports_payload p k _ = 0

-- How often the envelopes report the change `k` of the path `p`.
abbrev pub file_reports : String → ChangeType → List Envelope → ℕ
file_reports p k [] = 0
file_reports p k (e ∷ es) = reports_payload p k e.payload + file_reports p k es

abbrev git_payload : EventPayload → ℕ
git_payload (git_status_update_payload _ _) = 1
git_payload _ = 0

abbrev pub git_reports : List Envelope → ℕ
git_reports [] = 0
git_reports (e ∷ es) = git_payload e.payload + git_reports es

-- The sequence numbers go up from `n` by one.
abbrev pub IsNumbered : ℕ → List Envelope → Type 0
IsNumbered n [] = Unit
IsNumbered n (e ∷ es) = (e.seq ≡ n) × IsNumbered (n + 1) es

pub IsNumbered-append :
    (n m : ℕ) (xs ys : List Envelope)
    → n + length xs ≡ m
    → IsNumbered n xs
    → IsNumbered m ys
    → IsNumbered n (xs ++ ys)
IsNumbered-append n m [] ys e a b = let same : m ≡ n = omega arith in rw (← same) b
IsNumbered-append n m (x ∷ xs) ys e a b =
    (a.0, IsNumbered-append (n + 1) m xs ys (omega arith) a.1 b)

emit_changes-IsNumbered : (n : ℕ) (cs : List Change) → IsNumbered n (emit_changes n cs)
unfolding emit_changes
emit_changes-IsNumbered n [] = tt
emit_changes-IsNumbered n ((p, k) ∷ cs) = (refl, emit_changes-IsNumbered (n + 1) cs)

length-emit_changes : (n : ℕ) (cs : List Change) → length (emit_changes n cs) ≡ length cs
unfolding emit_changes
length-emit_changes n [] = refl
length-emit_changes n ((p, k) ∷ cs) = omega (arith, length-emit_changes (n + 1) cs)

emit_git-IsNumbered : (n : ℕ) (w : WorkspaceWatcher) (s : Seen) → IsNumbered n (emit_git n w s)
unfolding emit_git
emit_git-IsNumbered n w s =
    elim (Bool-cases (is_branch w.branch s.branch && is_count w.dirty_count s.dirty_count)) [
      | inl same ↦ rw same tt
      | inr other ↦ rw other (refl, tt)
    ]

file_reports-append :
    (p : String) (k : ChangeType) (xs ys : List Envelope)
    → file_reports p k (xs ++ ys) ≡ file_reports p k xs + file_reports p k ys
file_reports-append p k [] ys = omega arith
file_reports-append p k (x ∷ xs) ys = omega (arith, file_reports-append p k xs ys)

git_reports-append :
    (xs ys : List Envelope) → git_reports (xs ++ ys) ≡ git_reports xs + git_reports ys
git_reports-append [] ys = omega arith
git_reports-append (x ∷ xs) ys = omega (arith, git_reports-append xs ys)

file_reports-emit_changes :
    (p : String) (k : ChangeType) (n : ℕ) (cs : List Change)
    → (file_reports p k (emit_changes n cs) ≡ reports p k cs)
      × (git_reports (emit_changes n cs) ≡ 0)
unfolding emit_changes
file_reports-emit_changes p k n [] = (refl, refl)
file_reports-emit_changes p k n ((q, l) ∷ cs) =
    let rest = file_reports-emit_changes p k (n + 1) cs in
    (omega (arith, rest.0), omega (arith, rest.1))

reports-emit_git :
    (p : String) (k : ChangeType) (n : ℕ) (w : WorkspaceWatcher) (s : Seen)
    → (file_reports p k (emit_git n w s) ≡ 0)
      × (git_reports (emit_git n w s)
          ≡ (if is_branch w.branch s.branch && is_count w.dirty_count s.dirty_count then 0 else 1))
unfolding emit_git
reports-emit_git p k n w s = ground arith

pub scan_once-IsNumbered : (s : Seen) (w : WorkspaceWatcher) → IsNumbered w.seq (scan_once s w).1
unfolding scan_once
scan_once-IsNumbered s w =
    let cs = file_changes w.fingerprints s.files in
    elim (Bool-cases w.primed) [
      | inr first ↦ rw first tt
      | inl primed ↦ rw primed (
          IsNumbered-append w.seq (w.seq + length cs) (emit_changes w.seq cs)
            (emit_git (w.seq + length cs) w s) (omega (arith, length-emit_changes w.seq cs))
            (emit_changes-IsNumbered w.seq cs) (emit_git-IsNumbered (w.seq + length cs) w s))
    ]

-- A scan after the first one reports each path that was created, changed or deleted since the scan
-- before exactly once, as what it was, and no other path; the git state once when it has changed, and
-- else not; under sequence numbers that go on without a gap. Neither scan holds a path twice.
pub scan_exact :
    (s : Seen) (w : WorkspaceWatcher)
    → w.primed ≡ true
    → IsUnique w.fingerprints
    → IsUnique s.files
    → ((p : String) (k : ChangeType)
        → file_reports p k (scan_once s w).1
          ≡ (if is_kind k (change_of (get p w.fingerprints) (get p s.files)) then 1 else 0))
      × (git_reports (scan_once s w).1
          ≡ (if is_branch w.branch s.branch && is_count w.dirty_count s.dirty_count then 0 else 1))
      × IsNumbered w.seq (scan_once s w).1
      × ((scan_once s w).0.seq ≡ w.seq + length (scan_once s w).1)
unfolding scan_once
scan_exact s w primed u v =
    let cs = file_changes w.fingerprints s.files in
    let es = emit_changes w.seq cs in
    let n = w.seq + length cs in
    let numbered = scan_once-IsNumbered s w in
    (
      λ p k. rw primed (
          omega (
            arith,
            file_reports-append p k es (emit_git n w s),
            (file_reports-emit_changes p k w.seq cs).0,
            (reports-emit_git p k n w s).0,
            reports-file_changes p k w.fingerprints s.files u v,
          )),
      rw primed (
          omega (
            arith,
            git_reports-append es (emit_git n w s),
            (file_reports-emit_changes "" created w.seq cs).1,
            (reports-emit_git "" created n w s).1,
          )),
      numbered,
      refl,
    )
