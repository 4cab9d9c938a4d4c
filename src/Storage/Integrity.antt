-- ===== src/Storage/Integrity.antt =====
-- storage/integrity.py: reads that verify the digest, and the quarantine of the rows that fail it. The
-- reason that is stored with a quarantined row is always the same and is left out.
pub mod Laws
use dev_harness.Common.{
  ℕ, String, Bool, not, ◌&&◌, Option, none, some, List, [], ◌∷◌, Eq, ◌==◌, nat_eq, string_eq,
  if◌then◌else◌, keep,
}
use dev_harness.Storage.Saver.{Scope, Row, in_scope, is_row, first_row, fetch_rows, get_tuple}

pub record Quarantined : Type 0 where
  pub row : Row
  pub quarantined_at : ℕ

pub record Tables : Type 0 where
  pub rows : List Row
  pub quarantine : List Quarantined

pub data Verified : Type 0 where
  missing : Verified
  served : Option Row → Verified
  corrupt_checkpoint : Verified

-- INSERT OR REPLACE
unfoldable pub replace : Row → ℕ → List Quarantined → List Quarantined
replace r at [] = record { row = r; quarantined_at = at } ∷ []
replace r at (q ∷ qs) =
    if q.row.project_id == r.project_id
      && q.row.thread_id == r.thread_id
      && q.row.checkpoint_id == r.checkpoint_id
    then record { row = r; quarantined_at = at } ∷ qs
    else q ∷ replace r at qs

module _ (sha256 : String → String) where
  abbrev pub verify_row : Row → Bool
  verify_row r = sha256 r.state_json == r.state_sha256

  -- `_quarantine` of a row that the scope's query gave.
  unfoldable pub quarantine_row : Scope → Row → ℕ → Tables → Tables
  unfolding replace
  quarantine_row s r at t = record {
    rows = keep (λ q. not (is_row s r.checkpoint_id q)) t.rows;
    quarantine = replace r at t.quarantine;
  }

  -- The newest other row that verifies.
  abbrev pub is_fallback : String → Row → Bool
  is_fallback id r = not (r.checkpoint_id == id) && verify_row r

  unfoldable pub fall_back : Scope → Option Row → Tables → Tables × Verified
  fall_back s none t = (t, corrupt_checkpoint)
  fall_back s (some r) t = (t, served (get_tuple s r.checkpoint_id t.rows))

  unfoldable pub verified_target : Scope → String → ℕ → Option Row → Tables → Tables × Verified
  unfolding fall_back
  verified_target s id at none t = (t, missing)
  verified_target s id at (some r) t =
      if verify_row r
      then (t, served (get_tuple s id t.rows))
      else fall_back s (first_row (is_fallback id) (fetch_rows s t.rows)) (quarantine_row s r at t)

  -- `get_verified_tuple`, at the time `at`
  unfoldable pub get_verified_tuple : Scope → String → ℕ → Tables → Tables × Verified
  unfolding verified_target quarantine_row
  get_verified_tuple s id at t =
      verified_target s id at (first_row (λ r. r.checkpoint_id == id) (fetch_rows s t.rows)) t

  -- The loop of `quarantine_corrupt`; all rows are moved at the time `at` here.
  unfoldable pub quarantine_all : Scope → ℕ → List Row → Tables → Tables × List String
  unfolding quarantine_row
  quarantine_all s at [] t = (t, [])
  quarantine_all s at (r ∷ rs) t =
      let moved = quarantine_all s at rs (quarantine_row s r at t) in
      let kept = quarantine_all s at rs t in
      if verify_row r then kept else (moved.0, r.checkpoint_id ∷ moved.1)

  unfoldable pub quarantine_corrupt : Scope → ℕ → Tables → Tables × List String
  unfolding quarantine_all
  quarantine_corrupt s at t = quarantine_all s at (fetch_rows s t.rows) t
