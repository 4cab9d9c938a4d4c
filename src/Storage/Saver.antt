-- ===== src/Storage/Saver.antt =====
-- storage/sqlite_saver.py: the checkpoints table and its queries, over the rows of the table. Times are
-- numbers. The JSON of a state, the digest of a text and the text of `cp_n` are parameters. Rows that
-- ORDER BY leaves equal keep their places.
pub mod Rows
pub mod Order
pub mod Laws
mod Tests
use dev_harness.Common.{
  ℕ, ◌+◌, String, Bool, ◌&&◌, Option, none, some, List, [], ◌∷◌, ◌++◌, ltb, Eq, ◌==◌, nat_eq,
  string_eq, if◌then◌else◌, length, take, drop, keep,
}
use dev_harness.Contracts.State.{HarnessState}
use dev_harness.Sorted.{str_leb}

pub record Scope : Type 0 where
  pub project_id : String
  pub thread_id : String

pub record Row : Type 0 where
  pub project_id : String
  pub thread_id : String
  pub checkpoint_id : String
  pub state_json : String
  pub state_sha256 : String
  pub git_commit_hash : Option String
  pub is_paused : Bool
  pub created_at : ℕ
  pub worktree_head : Option String
  pub worktree_diff : Option String

-- WHERE project_id=? AND thread_id=?
abbrev pub in_scope : Scope → Row → Bool
in_scope s r = r.project_id == s.project_id && r.thread_id == s.thread_id

-- ... AND checkpoint_id=?
abbrev pub is_row : Scope → String → Row → Bool
is_row s id r = in_scope s r && r.checkpoint_id == id

-- ORDER BY created_at DESC, checkpoint_id DESC: whether `a` may stand before `b`.
abbrev pub newer : Row → Row → Bool
newer a b =
    if a.created_at == b.created_at
    then str_leb b.checkpoint_id a.checkpoint_id
    else ltb b.created_at a.created_at

unfoldable pub insert_row : Row → List Row → List Row
insert_row r [] = r ∷ []
insert_row r (q ∷ qs) = if newer r q then r ∷ q ∷ qs else q ∷ insert_row r qs

unfoldable pub newest_first : List Row → List Row
unfolding insert_row
newest_first [] = []
newest_first (r ∷ rs) = insert_row r (newest_first rs)

-- The first row that passes a test.
unfoldable pub first_row : (Row → Bool) → List Row → Option Row
first_row p [] = none
first_row p (r ∷ rs) = if p r then some r else first_row p rs

-- `_fetch_rows`, and the rows of `list` before its limit.
unfoldable pub fetch_rows : Scope → List Row → List Row
unfolding newest_first
fetch_rows s rows = newest_first (keep (in_scope s) rows)

-- `SqliteSaver.list`
unfoldable pub list : Scope → (limit offset : ℕ) → List Row → List Row
unfolding fetch_rows
list s limit offset rows = take limit (drop offset (fetch_rows s rows))

-- `SqliteSaver.get_tuple`
unfoldable pub get_tuple : Scope → String → List Row → Option Row
unfolding first_row
get_tuple s id rows = first_row (is_row s id) rows

-- The keywords of `put`.
pub record Keywords : Type 0 where
  pub checkpoint_id : Option String
  pub git_commit_hash : Option String
  pub is_paused : Bool
  pub created_at : Option ℕ
  pub worktree_head : Option String
  pub worktree_diff : Option String

-- `checkpoint_id or ...`: an empty text counts as none.
abbrev or_default : Option String → String → String
or_default none d = d
or_default (some id) d = if id == "" then d else id

abbrev or_zero : Option ℕ → ℕ
or_zero none = 0
or_zero (some n) = n

-- The primary key refuses a second row of one id in a scope: `none` is the error, after the rollback.
unfoldable pub insert : Scope → Row → List Row → Option (List Row)
unfolding get_tuple
insert s r rows = elim (get_tuple s r.checkpoint_id rows) [
  | none ↦ some (rows ++ r ∷ [])
  | some _ ↦ none
]

module _ (dump : HarnessState → String) (sha256 : String → String) (cp_text : ℕ → String) where
  abbrev pub new_id : Scope → Keywords → List Row → String
  new_id s k rows = or_default k.checkpoint_id (cp_text (length (list s 100 0 rows)))

  abbrev pub new_row : Scope → HarnessState → Keywords → String → Row
  new_row s state k id = record {
    project_id = s.project_id;
    thread_id = s.thread_id;
    checkpoint_id = id;
    state_json = dump state;
    state_sha256 = sha256 (dump state);
    git_commit_hash = k.git_commit_hash;
    is_paused = k.is_paused;
    created_at = or_zero k.created_at;
    worktree_head = k.worktree_head;
    worktree_diff = k.worktree_diff;
  }

  -- `SqliteSaver.put`: the table after it; the id that it returns is `new_id`.
  unfoldable pub put : Scope → HarnessState → Keywords → List Row → Option (List Row)
  unfolding insert list
  put s state k rows = insert s (new_row s state k (new_id s k rows)) rows
