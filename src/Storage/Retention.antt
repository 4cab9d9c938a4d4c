-- ===== src/Storage/Retention.antt =====
-- storage/retention.py: the pruning of the checkpoints of a session. VACUUM and the connection are
-- SQLite's.
pub mod Laws
use dev_harness.Common.{
  ℕ, ◌+◌, String, Bool, false, not, ◌&&◌, ◌||◌, List, [], ◌∷◌, Eq, ◌==◌, nat_eq, string_eq,
  if◌then◌else◌, take, drop, keep,
}
use dev_harness.Storage.Saver.{Scope, Row, in_scope, newest_first}

abbrev pub unsealed : Scope → Row → Bool
unsealed s r = in_scope s r && not r.is_paused

-- The inner SELECT without its limit.
unfoldable pub candidates : Scope → List Row → List Row
candidates s rows = newest_first (keep (unsealed s) rows)

-- checkpoint_id IN (...)
unfoldable pub has_id : String → List Row → Bool
has_id id [] = false
has_id id (r ∷ rs) = r.checkpoint_id == id || has_id id rs

-- The condition of the DELETE.
abbrev pub doomed : Scope → List Row → Row → Bool
doomed s newest r = unsealed s r && not (has_id r.checkpoint_id newest)

unfoldable pub count_doomed : (Row → Bool) → List Row → ℕ
count_doomed p [] = 0
count_doomed p (r ∷ rs) = (if p r then 1 else 0) + count_doomed p rs

-- `RetentionPolicy.prune`: the table after it, and the number of deleted rows.
unfoldable pub prune : ℕ → Scope → List Row → List Row × ℕ
unfolding candidates has_id count_doomed
prune n s rows =
    let newest = take n (candidates s rows) in
    elim (drop n (candidates s rows)) [
      | [] ↦ (rows, 0)
      | _ ∷ _ ↦ (keep (λ r. not (doomed s newest r)) rows, count_doomed (doomed s newest) rows)
    ]
