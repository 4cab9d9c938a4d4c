-- ===== src/Storage/Retention/Laws.antt =====
-- storage/retention.py: what is deleted and what stays.
use dev_harness.Common.{
  ℕ, zero, suc, ◌+◌, ◌≤◌, String, ◌≡◌, refl, ap, ◌∙◌, inl, inr, Bool, true, false, not, ◌&&◌, ◌||◌,
  List, [], ◌∷◌, arith, ◌==◌, nat_eq, string_eq, beq_refl, List-cases, length, take, drop, keep,
  length-drop, take_nil, take_all, sym,
}
use dev_harness.Storage.Saver.{Scope, Row, is_row}
use dev_harness.Storage.Saver.Rows.{
  tally, tally-newest_first, tally-keep, length-tally, tally_same, tally_mono,
}
use dev_harness.Storage.Saver.Order.{IsNewestFirst, newest_first-IsNewestFirst}
use dev_harness.Storage.Retention.{unsealed, candidates, has_id, doomed, count_doomed, prune}

-- No two rows of a scope have one id, as the primary key demands.
abbrev pub IsKeyed : Scope → List Row → Type 0
IsKeyed s rows = (id : String) → tally (is_row s id) rows ≤ 1

-- No two rows have one id.
abbrev IsSingle : List Row → Type 0
IsSingle rows = (id : String) → tally (λ r. r.checkpoint_id == id) rows ≤ 1

tally_skip :
    (p : Row → Bool) (id : String) (newest rows : List Row)
    → tally (λ r. r.checkpoint_id == id) rows ≡ 0
    → tally (λ r. (id == r.checkpoint_id || has_id r.checkpoint_id newest) && p r) rows
      ≡ tally (λ r. has_id r.checkpoint_id newest && p r) rows
tally_skip p id newest [] h = refl
tally_skip p id newest (r ∷ rs) h = ground (
  arith,
  tally_skip p id newest rs,
  string_eq.beq_iff id r.checkpoint_id,
  string_eq.beq_iff r.checkpoint_id id,
)

-- Of rows with different ids, those with the id of one of the first `n` are the first `n`.
tally-take :
    (p : Row → Bool) (n : ℕ) (rows : List Row)
    → IsSingle rows
    → tally (λ r. has_id r.checkpoint_id (take n rows) && p r) rows ≡ tally p (take n rows)
unfolding has_id
tally-take p n [] single = rw take_nil refl
tally-take p zero (r ∷ rs) single = ground (arith, no_id rs)
  where
    no_id : (xs : List Row) → tally (λ (q : Row). false) xs ≡ 0
    no_id [] = refl
    no_id (x ∷ xs) = omega (arith, no_id xs)
tally-take p (suc n) (r ∷ rs) single =
    let rest = tally-take p n rs (λ id. omega (arith, single id)) in
    let none_like : tally (λ q. q.checkpoint_id == r.checkpoint_id) rs ≡ 0 =
      ground (arith, single r.checkpoint_id, beq_refl r.checkpoint_id) in
    ground
      (arith, tally_skip p r.checkpoint_id (take n rs) rs none_like, rest, beq_refl r.checkpoint_id)

module _ (n : ℕ) (s : Scope) (rows : List Row) where
  length-candidates : length (candidates s rows) ≡ tally (unsealed s) rows
  unfolding candidates
  length-candidates = omega (
    arith,
    length-tally (candidates s rows),
    tally-newest_first (λ r. true) (keep (unsealed s) rows),
    tally-keep (λ r. true) (unsealed s) rows,
    tally_same (λ r. unsealed s r && true) (unsealed s) rows (λ r. ground arith),
  )

  tally-candidates :
      (p : Row → Bool) → tally p (candidates s rows) ≡ tally (λ r. unsealed s r && p r) rows
  unfolding candidates
  tally-candidates p =
      tally-newest_first p (keep (unsealed s) rows) ∙ tally-keep p (unsealed s) rows

  candidates-IsSingle : IsKeyed s rows → IsSingle (candidates s rows)
  candidates-IsSingle keyed id = omega (
    arith,
    keyed id,
    tally-candidates (λ r. r.checkpoint_id == id),
    tally_mono (λ r. unsealed s r && r.checkpoint_id == id) (is_row s id) rows
        (λ r h. ground arith),
  )

  abbrev newest : List Row
  newest = take n (candidates s rows)

  abbrev kept : List Row
  kept = keep (λ r. not (doomed s newest r)) rows

  kept-newest :
      IsKeyed s rows → (p : Row → Bool) → tally (λ r. unsealed s r && p r) kept ≡ tally p newest
  kept-newest keyed p =
      tally-keep (λ r. unsealed s r && p r) (λ r. not (doomed s newest r)) rows
      ∙ tally_same (λ r. not (doomed s newest r) && (unsealed s r && p r))
          (λ r. unsealed s r && (has_id r.checkpoint_id newest && p r)) rows (λ r. ground arith)
      ∙ sym (tally-candidates (λ r. has_id r.checkpoint_id newest && p r))
      ∙ tally-take p n (candidates s rows) (candidates-IsSingle keyed)

  kept-others :
      (p : Row → Bool)
      → ((r : Row) → p r ≡ true → unsealed s r ≡ false)
      → tally p kept ≡ tally p rows
  kept-others p other =
      tally-keep p (λ r. not (doomed s newest r)) rows
      ∙ tally_same (λ r. not (doomed s newest r) && p r) p rows
          (λ r. let is = other r in ground arith)

  counted :
      (p : Row → Bool) (rs : List Row)
      → length (keep (λ r. not (p r)) rs) + count_doomed p rs ≡ length rs
  unfolding count_doomed
  counted p [] = refl
  counted p (r ∷ rs) = ground (arith, counted p rs)

  prune_few : drop n (candidates s rows) ≡ [] → prune n s rows ≡ (rows, 0)
  unfolding prune
  prune_few few = rw (few, prune) refl

  prune_many :
      (r : Row) (rs : List Row)
      → drop n (candidates s rows) ≡ r ∷ rs
      → prune n s rows ≡ (kept, count_doomed (doomed s newest) rows)
  unfolding prune
  prune_many r rs many = rw (many, prune) refl

  -- What the pruning of a session to `n` checkpoints comes to: `order` holds its rows that are no seals,
  -- the newest first; of them the first `n` stay, and nothing else of them; every other row stays; and
  -- the number returned is that of the rows gone.
  abbrev pub Prunes : List Row × ℕ → Type 0
  Prunes (rows', deleted) =
      (order : List Row) × IsNewestFirst order
      × ((p : Row → Bool) → tally p order ≡ tally (λ r. unsealed s r && p r) rows)
      × ((p : Row → Bool) → tally (λ r. unsealed s r && p r) rows' ≡ tally p (take n order))
      × ((p : Row → Bool)
          → ((r : Row) → p r ≡ true → unsealed s r ≡ false)
          → tally p rows' ≡ tally p rows)
      × (length rows' + deleted ≡ length rows)

  candidates-IsNewestFirst : IsNewestFirst (candidates s rows)
  unfolding candidates
  candidates-IsNewestFirst = newest_first-IsNewestFirst (keep (unsealed s) rows)

  -- Pruning a session to `n` checkpoints leaves of its rows that are no seals exactly the `n` newest, in
  -- the order of their times and then their ids; it leaves every seal and every row of another session;
  -- and it returns the number of rows that it deleted. No two rows of the session have one id.
  pub prune_keeps : IsKeyed s rows → Prunes (prune n s rows)
  prune_keeps keyed = elim (List-cases (drop n (candidates s rows))) [
    | inl few ↦
        let all : take n (candidates s rows) ≡ candidates s rows =
          take_all n (candidates s rows)
            (omega (arith, length-drop n (candidates s rows), ap length few)) in
        rw (prune_few few) (
          candidates s rows,
          candidates-IsNewestFirst,
          tally-candidates,
          λ p. rw all (sym (tally-candidates p)),
          (λ p other. refl),
          omega arith,
        )
    | inr (r, rs, many) ↦ rw (prune_many r rs many) (
      candidates s rows,
      candidates-IsNewestFirst,
      tally-candidates,
      kept-newest keyed,
      kept-others,
      counted (doomed s newest) rows,
    )
  ]
