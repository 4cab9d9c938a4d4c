-- ===== src/Recovery/Sessions/Tests.antt =====
-- A session that crashed after an earlier one was shut down.
use mathlib.Core.Path.{subst}
use dev_harness.Common.{
  ◌≤◌, ◌==◌, Bool-cases, String, ◌≡◌, refl, inl, inr, Bool, true, false, Option, none, some, [],
  ◌∷◌, arith, nat_eq, string_eq,
}
use dev_harness.Dict.{Dict}
use dev_harness.Contracts.State.{HarnessState, fresh_state}
use dev_harness.Storage.Saver.{Row, is_row, insert_row, newest_first}
use dev_harness.Storage.Saver.Rows.{tally}
use dev_harness.Storage.Retention.Laws.{IsKeyed}
use dev_harness.Storage.Integrity.{Tables}
use dev_harness.Recovery.Sessions.{
  finalized, newest_checkpoint, scope_of, detect_unfinalized_session,
}
use dev_harness.Recovery.Sessions.Laws.{seal_hides}
use dev_harness.Recovery.Sessions.Offers.{Detects, detection_offers}

abbrev row : String → String → Bool → Row
row thread id seal = record {
  project_id = "p";
  thread_id = thread;
  checkpoint_id = id;
  state_json = thread;
  state_sha256 = thread;
  git_commit_hash = none;
  is_paused = seal;
  created_at = 0;
  worktree_head = none;
  worktree_diff = none;
}

abbrev digest : String → String
digest text = text

abbrev load : String → Option HarnessState
load thread = some (fresh_state "p" "/w" thread)

abbrev loads : String → Option (Dict String String)
loads text = some []

-- The first session was shut down, the second one crashed after its checkpoint.
abbrev crashed : Tables
crashed = record { rows = row "t1" "shutdown" true ∷ row "t2" "cp_0" false ∷ []; quarantine = [] }

seal_hides_example : detect_unfinalized_session digest load loads 0 crashed ≡ (crashed, finalized)
seal_hides_example =
    seal_hides digest load loads 0 crashed ((refl, refl, inl refl), ((refl, refl, inr refl), tt))
      (omega arith)

-- The newest checkpoint is corrupt, the one before it is not.
abbrev torn : Tables
torn = record {
  rows = row "t2" "cp_0" false ∷ record (row "t2" "cp_1" false) { state_sha256 = "torn" } ∷ [];
  quarantine = [];
}

abbrev torn_row : Row
torn_row = record (row "t2" "cp_1" false) { state_sha256 = "torn" }

newest : newest_checkpoint torn.rows ≡ some torn_row
unfolding newest_checkpoint newest_first insert_row
newest = refl

torn-IsKeyed : IsKeyed (scope_of torn_row) torn.rows
torn-IsKeyed id = elim (Bool-cases ("cp_0" == id)) [
  | inl same ↦
      subst (λ i. tally (is_row (scope_of torn_row) i) torn.rows ≤ 1)
        ((string_eq.beq_iff "cp_0" id).0 same) (omega arith)
  | inr other ↦ ground (arith, other)
]

detection_offers_example :
    Detects digest load loads 0 torn torn_row torn-IsKeyed newest refl
      (detect_unfinalized_session digest load loads 0 torn)
detection_offers_example =
    detection_offers digest load loads 0 torn torn_row torn-IsKeyed newest refl
