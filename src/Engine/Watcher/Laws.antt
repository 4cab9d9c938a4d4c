-- ===== src/Engine/Watcher/Laws.antt =====
-- engine/workspace_watcher.py: a scan reports every change once, and nothing else.
use dev_harness.Common.{
  ℕ, ◌+◌, String, ◌≡◌, refl, sym, ap, ◌∙◌, inl, inr, Bool, true, false, ◌&&◌, Option, none, some,
  List, [], ◌∷◌, ◌++◌, arith, ◌==◌, nat_eq, string_eq, Bool-cases, if◌then◌else◌,
}
use mathlib.Core.Path.{subst}
use dev_harness.Dict.{get, IsUnique}
use dev_harness.Contracts.Events.{ChangeType, modified, created, deleted}
use dev_harness.Engine.Watcher.{
  Fingerprint, same_fingerprint, Change, Files, insert, sort, present_change, present_changes,
  absent_change, absent_changes, file_changes,
}

abbrev pub kind_beq : ChangeType → ChangeType → Bool
kind_beq modified modified = true
kind_beq created created = true
kind_beq deleted deleted = true
kind_beq _ _ = false

-- How often a list reports the change `k` of the path `p`.
abbrev pub reports : String → ChangeType → List Change → ℕ
reports p k [] = 0
reports p k ((q, l) ∷ cs) = (if q == p && kind_beq l k then 1 else 0) + reports p k cs

-- What became of a file between two scans.
abbrev pub change_of : Option Fingerprint → Option Fingerprint → Option ChangeType
change_of none none = none
change_of none (some b) = some created
change_of (some a) none = some deleted
change_of (some a) (some b) = if same_fingerprint a b then none else some modified

abbrev pub is_kind : ChangeType → Option ChangeType → Bool
is_kind k none = false
is_kind k (some l) = kind_beq l k

reports-insert :
    (p : String) (k : ChangeType) (c : Change) (cs : List Change)
    → reports p k (insert c cs) ≡ reports p k (c ∷ cs)
unfolding insert
reports-insert p k (q, l) [] = refl
reports-insert p k (q, l) ((r, m) ∷ cs) = ground (arith, reports-insert p k (q, l) cs)

reports-sort :
    (p : String) (k : ChangeType) (cs : List Change) → reports p k (sort cs) ≡ reports p k cs
unfolding sort
reports-sort p k [] = refl
reports-sort p k ((q, l) ∷ cs) =
    omega (arith, reports-insert p k (q, l) (sort cs), reports-sort p k cs)

reports-append :
    (p : String) (k : ChangeType) (xs ys : List Change)
    → reports p k (xs ++ ys) ≡ reports p k xs + reports p k ys
reports-append p k [] ys = omega arith
reports-append p k ((q, l) ∷ xs) ys = omega (arith, reports-append p k xs ys)

-- The change of a file that is there now.
abbrev here_now : Option Fingerprint → Option Fingerprint → Option ChangeType
here_now old none = none
here_now old (some b) = change_of old (some b)

abbrev gone : Option Fingerprint → Option Fingerprint → Option ChangeType
gone (some a) none = some deleted
gone _ _ = none

reports-present_change :
    (p rel : String) (k : ChangeType) (now : Fingerprint) (o : Option Fingerprint)
    (rest : List Change)
    → reports p k (present_change rel now o rest)
      ≡ (if rel == p && is_kind k (change_of o (some now)) then 1 else 0) + reports p k rest
unfolding present_change
reports-present_change p rel k now none rest = ground arith
reports-present_change p rel k now (some old) rest = ground arith

reports-absent_change :
    (p rel : String) (k : ChangeType) (was : Fingerprint) (o : Option Fingerprint)
    (rest : List Change)
    → reports p k (absent_change rel o rest)
      ≡ (if rel == p && is_kind k (gone (some was) o) then 1 else 0) + reports p k rest
unfolding absent_change
reports-absent_change p rel k was none rest = ground arith
reports-absent_change p rel k was (some now) rest = ground arith

reports-present :
    (p : String) (k : ChangeType) (old files : Files)
    → IsUnique files
    → reports p k (present_changes old files)
      ≡ (if is_kind k (here_now (get p old) (get p files)) then 1 else 0)
unfolding present_changes get
reports-present p k old [] u = refl
reports-present p k old ((rel, now) ∷ files) u =
    let head = reports-present_change p rel k now (get rel old) (present_changes old files) in
    let rest = reports-present p k old files u.1 in
    elim (Bool-cases (rel == p)) [
      | inl same ↦
          let is = (string_eq.beq_iff rel p).0 same in
          let none_more : get p files ≡ none = subst (λ q. get q files ≡ none) is u.0 in
          let at_rel : get p old ≡ get rel old = ap (λ q. get q old) (sym is) in
          rw (same, at_rel) (head ∙ rw (same, rest, none_more) (omega arith))
      | inr other ↦ rw other (head ∙ rw (other, rest) (omega arith))
    ]

reports-absent :
    (p : String) (k : ChangeType) (current old : Files)
    → IsUnique old
    → reports p k (absent_changes current old)
      ≡ (if is_kind k (gone (get p old) (get p current)) then 1 else 0)
unfolding absent_changes get
reports-absent p k current [] u = ground arith
reports-absent p k current ((rel, was) ∷ old) u =
    let head = reports-absent_change p rel k was (get rel current) (absent_changes current old) in
    let rest = reports-absent p k current old u.1 in
    elim (Bool-cases (rel == p)) [
      | inl same ↦
          let is = (string_eq.beq_iff rel p).0 same in
          let none_more : get p old ≡ none = subst (λ q. get q old ≡ none) is u.0 in
          let at_rel : get p current ≡ get rel current = ap (λ q. get q current) (sym is) in
          rw (same, at_rel) (head ∙ rw (same, rest, none_more) (omega arith))
      | inr other ↦ rw other (head ∙ rw (other, rest) (omega arith))
    ]

parts :
    (k : ChangeType) (a b : Option Fingerprint)
    → (if is_kind k (here_now a b) then 1 else 0) + (if is_kind k (gone a b) then 1 else 0)
      ≡ (if is_kind k (change_of a b) then 1 else 0)
parts k none none = ground arith
parts k none (some b) = ground arith
parts k (some a) none = ground arith
parts k (some a) (some b) = ground arith

pub reports-file_changes :
    (p : String) (k : ChangeType) (old files : Files)
    → IsUnique old
    → IsUnique files
    → reports p k (file_changes old files)
      ≡ (if is_kind k (change_of (get p old) (get p files)) then 1 else 0)
unfolding file_changes
reports-file_changes p k old files u v = omega (
  arith,
  reports-sort p k (present_changes old files ++ absent_changes files old),
  reports-append p k (present_changes old files) (absent_changes files old),
  reports-present p k old files v,
  reports-absent p k files old u,
  parts k (get p old) (get p files),
)
