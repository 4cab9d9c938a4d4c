-- ===== src/Engine/Watcher/Follow.antt =====
-- engine/workspace_watcher.py: who follows the events over many scans knows which files there are.
use dev_harness.Common.{
  ◌≤◌, String, ◌≡◌, refl, sym, ap, ◌∙◌, ◌⊎◌, Bool, true, false, Option, none, some, List, [], ◌∷◌,
  ◌++◌, arith, ◌==◌, nat_eq, string_eq, if◌then◌else◌,
}
use dev_harness.Dict.{get, IsUnique}
use dev_harness.Contracts.Events.{
  ChangeType, modified, created, deleted, Envelope, EventPayload, file_change_payload,
}
use dev_harness.Engine.Watcher.{Fingerprint, WorkspaceWatcher, Seen, scan_once, scan_all}
use dev_harness.Engine.Watcher.Laws.{change_of, is_kind}
use dev_harness.Engine.Watcher.Mirror.{
  file_reports, reports_payload, IsNumbered, IsNumbered-append, scan_exact,
}

abbrev follow_change : Bool → ChangeType → Bool
follow_change known created = true
follow_change known deleted = false
follow_change known modified = known

abbrev follow_payload : String → EventPayload → Bool → Bool
follow_payload p (file_change_payload q k) known = if q == p then follow_change known k else known
follow_payload p _ known = known

-- Whether a path is there, for a client that knew it before these events.
abbrev pub follow : String → List Envelope → Bool → Bool
follow p [] known = known
follow p (e ∷ es) known = follow p es (follow_payload p e.payload known)

follow-append :
    (p : String) (xs ys : List Envelope) (known : Bool)
    → follow p (xs ++ ys) known ≡ follow p ys (follow p xs known)
follow-append p [] ys known = refl
follow-append p (x ∷ xs) ys known = follow-append p xs ys (follow_payload p x.payload known)

follow_payload_lem :
    (p : String) (x : EventPayload) (known : Bool)
    → (reports_payload p deleted x ≡ 0
        → 1 ≤ reports_payload p created x
        → follow_payload p x known ≡ true)
      × (reports_payload p created x ≡ 0
          → 1 ≤ reports_payload p deleted x
          → follow_payload p x known ≡ false)
      × (reports_payload p created x ≡ 0
          → reports_payload p deleted x ≡ 0
          → follow_payload p x known ≡ known)
follow_payload_lem p (file_change_payload q modified) known = ground arith
follow_payload_lem p (file_change_payload q created) known = ground arith
follow_payload_lem p (file_change_payload q deleted) known = ground arith
follow_payload_lem p x known = ground arith

-- Events that only create a path, only delete it, or do neither.
follow_lem :
    (p : String) (es : List Envelope) (known : Bool)
    → (file_reports p deleted es ≡ 0
        → (1 ≤ file_reports p created es) ⊎ (known ≡ true)
        → follow p es known ≡ true)
      × (file_reports p created es ≡ 0
          → (1 ≤ file_reports p deleted es) ⊎ (known ≡ false)
          → follow p es known ≡ false)
      × (file_reports p created es ≡ 0 → file_reports p deleted es ≡ 0 → follow p es known ≡ known)
follow_lem p [] known = ground arith
follow_lem p (e ∷ es) known =
    let head = follow_payload_lem p e.payload known in
    let rest = follow_lem p es (follow_payload p e.payload known) in ground (arith, head, rest)

abbrev pub there : Option Fingerprint → Bool
there none = false
there (some _) = true

follow-change_of :
    (p : String) (es : List Envelope) (a b : Option Fingerprint)
    → ((k : ChangeType) → file_reports p k es ≡ (if is_kind k (change_of a b) then 1 else 0))
    → follow p es (there a) ≡ there b
follow-change_of p es none none r = ground (arith, follow_lem p es false, r created, r deleted)
follow-change_of p es none (some b) r = ground (arith, follow_lem p es false, r created, r deleted)
follow-change_of p es (some a) none r = ground (arith, follow_lem p es true, r created, r deleted)
follow-change_of p es (some a) (some b) r =
    ground (arith, follow_lem p es true, r created, r deleted)

abbrev pub AllUnique : List Seen → Type 0
AllUnique [] = Unit
AllUnique (s ∷ seen) = IsUnique s.files × AllUnique seen

-- Over any number of scans after the first one, a client that knew the files of the scan before and
-- follows the events knows at the end exactly the files of the last scan, and the sequence numbers of
-- all the events go up by one without a gap. No scan holds a path twice.
pub scan_all_mirrors :
    (seen : List Seen) (w : WorkspaceWatcher)
    → w.primed ≡ true
    → IsUnique w.fingerprints
    → AllUnique seen
    → ((p : String)
        → follow p (scan_all seen w).1 (there (get p w.fingerprints))
          ≡ there (get p (scan_all seen w).0.fingerprints))
      × IsNumbered w.seq (scan_all seen w).1
unfolding scan_all
scan_all_mirrors [] w primed u all = (λ p. refl, tt)
scan_all_mirrors (s ∷ seen) w primed u all =
    let (exact, _, numbered, next) = scan_exact s w primed u all.0 in
    let w' = (scan_once s w).0 in
    let primed' : w'.primed ≡ true = unfold scan_once in refl in
    let files' : w'.fingerprints ≡ s.files = unfold scan_once in refl in
    let rest = scan_all_mirrors seen w' primed' (rw files' all.0) all.1 in
    (
      λ p.
          follow-append p (scan_once s w).1 (scan_all seen w').1 (there (get p w.fingerprints))
          ∙ ap (follow p (scan_all seen w').1) (
              follow-change_of p (scan_once s w).1 (get p w.fingerprints) (get p w'.fingerprints)
                (λ k. rw files' (exact p k)))
          ∙ rest.0 p,
      IsNumbered-append w.seq w'.seq (scan_once s w).1 (scan_all seen w').1 (sym next) numbered
          rest.1,
    )
