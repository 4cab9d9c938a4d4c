-- ===== src/Storage/Saver/Tests.antt =====
-- Checkpoints of one session.
use dev_harness.Common.{
  ◌≤◌, String, ◌≡◌, refl, ◌≢◌, inl, inr, Bool, true, false, none, some, List, [], ◌∷◌, arith, ◌==◌,
  nat_eq, string_eq, Bool-cases,
}
use mathlib.Core.Path.{subst}
use dev_harness.Contracts.State.{HarnessState, fresh_state}
use dev_harness.Engine.WorkerPool.Tests.{strokes, strokes_distinct}
use dev_harness.Storage.Saver.{Scope, Row, is_row, get_tuple, new_id, new_row, put}
use dev_harness.Storage.Saver.Laws.{unnamed, IsCounted, put_reads, unnamed_puts}
use dev_harness.Storage.Saver.Rows.{tally}
use dev_harness.Storage.Retention.{prune}
use dev_harness.Storage.Retention.Laws.{IsKeyed, Prunes, prune_keeps}
use dev_harness.Storage.Integrity.{Tables, get_verified_tuple}
use dev_harness.Storage.Integrity.Laws.{IsRead, get_verified_tuple-IsRead}

abbrev scope : Scope
scope = record { project_id = "p"; thread_id = "t" }

abbrev state : HarnessState
state = fresh_state "p" "/w" "t"

abbrev dump : HarnessState → String
dump s = s.thread_id

abbrev digest : String → String
digest text = text

abbrev row : String → Bool → String → Row
row id seal sha = record {
  project_id = "p";
  thread_id = "t";
  checkpoint_id = id;
  state_json = "t";
  state_sha256 = sha;
  git_commit_hash = none;
  is_paused = seal;
  created_at = 0;
  worktree_head = none;
  worktree_diff = none;
}

abbrev empty : List Row
empty = []

empty-free : get_tuple scope (new_id dump digest strokes scope unnamed empty) empty ≡ none
unfolding get_tuple
empty-free = refl

empty-IsCounted : IsCounted dump digest strokes scope 0 empty
unfolding get_tuple
empty-IsCounted = record {
  size = refl;
  there = λ i below. absurd (omega arith);
  only = λ i above. refl;
}

put_reads_example :
    (get_tuple scope (new_id dump digest strokes scope unnamed empty) empty ≢ none
      → put dump digest strokes scope state unnamed empty ≡ none)
    × (get_tuple scope (new_id dump digest strokes scope unnamed empty) empty ≡ none
        → (rows' : List Row) × (put dump digest strokes scope state unnamed empty ≡ some rows')
          × (get_tuple scope (new_id dump digest strokes scope unnamed empty) rows'
              ≡ some (
                  new_row dump digest strokes scope state unnamed
                    (new_id dump digest strokes scope unnamed empty)))
          × (dump state ≡ dump state)
          × (digest (dump state) ≡ digest (dump state))
          × ((u : Scope) (id : String)
              → is_row u id (
                  new_row dump digest strokes scope state unnamed
                    (new_id dump digest strokes scope unnamed empty))
                ≡ false
              → get_tuple u id rows' ≡ get_tuple u id empty))
put_reads_example = put_reads dump digest strokes scope state unnamed empty

unnamed_puts_example :
    (0 ≤ 100
      → (rows' : List Row) × (put dump digest strokes scope state unnamed empty ≡ some rows')
        × IsCounted dump digest strokes scope 1 rows')
    × (101 ≤ 0 → put dump digest strokes scope state unnamed empty ≡ none)
unnamed_puts_example =
    unnamed_puts dump digest strokes strokes_distinct scope state 0 empty empty-IsCounted

-- Two checkpoints and a seal; the digest of the second is broken.
abbrev rows : List Row
rows = row "cp_0" false "t" ∷ row "cp_1" false "x" ∷ row "shutdown" true "t" ∷ []

rows-IsKeyed : IsKeyed scope rows
rows-IsKeyed id = elim (Bool-cases ("cp_0" == id)) [
  | inl is ↦ at "cp_0" (omega arith) is
  | inr not_0 ↦ elim (Bool-cases ("cp_1" == id)) [
    | inl is ↦ at "cp_1" (omega arith) is
    | inr not_1 ↦ rw (not_0, not_1) (ground arith)
  ]
]
  where
    at :
        (j : String)
        → tally (is_row scope j) rows ≤ 1
        → (j == id) ≡ true
        → tally (is_row scope id) rows ≤ 1
    at j h same = subst (λ i. tally (is_row scope i) rows ≤ 1) ((string_eq.beq_iff j id).0 same) h

prune_keeps_example : Prunes 1 scope rows (prune 1 scope rows)
prune_keeps_example = prune_keeps 1 scope rows rows-IsKeyed

abbrev tables : Tables
tables = record { rows = rows; quarantine = [] }

get_verified_tuple-IsRead_example :
    IsRead digest scope "cp_1" tables (get_verified_tuple digest scope "cp_1" 7 tables)
get_verified_tuple-IsRead_example =
    get_verified_tuple-IsRead digest scope "cp_1" 7 tables rows-IsKeyed
