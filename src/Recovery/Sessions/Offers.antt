-- ===== src/Recovery/Sessions/Offers.antt =====
-- recovery/session_recovery.py: what is offered of a session that was not shut down.
use dev_harness.Common.{
  ℕ, ◌≤◌, String, ◌≡◌, refl, sym, ap, ◌∙◌, inl, inr, Bool, true, false, ◌&&◌, not, Option, none,
  some, List, arith, ◌==◌, nat_eq, string_eq, beq_refl, List-cases, keep,
}
use dev_harness.Contracts.State.{HarnessState}
use dev_harness.Dict.{Dict}
use dev_harness.Storage.Saver.{
  Scope, Row, in_scope, is_row, newest_first, first_row, fetch_rows, get_tuple,
}
use dev_harness.Storage.Saver.Rows.{
  tally, tally-fetch_rows, tally-keep, first_row_same, first_row-some, first_row-keep,
  first_row_unique, first_row-newest_first,
}
use dev_harness.Storage.Saver.Order.{IsNewestFirst, newest_first-IsNewestFirst}
use dev_harness.Storage.Retention.Laws.{IsKeyed}
use dev_harness.Storage.Integrity.{
  Tables, Verified, served, verify_row, is_fallback, quarantine_row, fall_back, verified_target,
  get_verified_tuple,
}
use dev_harness.Recovery.Sessions.{
  Snapshot, Detection, finalized, corrupt, invalid_state, invalid_worktrees, unfinalized,
  newest_checkpoint, scope_of, deserialize_worktree_state, with_worktrees, planned, offered,
  detected, detect_unfinalized_session,
}
use dev_harness.Recovery.Sessions.Laws.{is_seal}

module _ (s : Scope) (rows : List Row) (keyed : IsKeyed s rows) where
  fetch_same :
      (id : String)
      → first_row (λ q. q.checkpoint_id == id) (fetch_rows s rows) ≡ get_tuple s id rows
  unfolding fetch_rows get_tuple
  fetch_same id =
      let named : Row → Bool = λ q. q.checkpoint_id == id in
      first_row-newest_first named (keep (in_scope s) rows)
        (omega (arith, keyed id, tally-keep named (in_scope s) rows))
      ∙ first_row-keep named (in_scope s) rows

  fetched_once : (id : String) → tally (λ q. q.checkpoint_id == id) (fetch_rows s rows) ≤ 1
  fetched_once id = omega (arith, keyed id, tally-fetch_rows (λ q. q.checkpoint_id == id) s rows)

  -- A row that a query of the session gives is the row that is read under its id.
  read_again :
      (p : Row → Bool) (y : Row)
      → first_row p (fetch_rows s rows) ≡ some y
      → get_tuple s y.checkpoint_id rows ≡ some y
  read_again p y e =
      sym (fetch_same y.checkpoint_id)
      ∙ first_row_unique p (λ q. q.checkpoint_id == y.checkpoint_id) (fetch_rows s rows) y
          (fetched_once y.checkpoint_id) e (beq_refl y.checkpoint_id)

-- The newest row of all sessions is the one that is read under its id.
newest_read :
    (rows : List Row) (r : Row)
    → IsKeyed (scope_of r) rows
    → newest_checkpoint rows ≡ some r
    → get_tuple (scope_of r) r.checkpoint_id rows ≡ some r
unfolding get_tuple newest_checkpoint first_row
newest_read rows r keyed e =
    let its : Row → Bool = is_row (scope_of r) r.checkpoint_id in
    let hit : its r ≡ true =
      ground (arith, beq_refl r.project_id, beq_refl r.thread_id, beq_refl r.checkpoint_id) in
    sym (first_row-newest_first its rows (keyed r.checkpoint_id))
    ∙ elim (List-cases (newest_first rows)) [
      | inl none_there ↦ absurd (cc (rw (none_there, newest_checkpoint) at e))
      | inr (q, qs, is) ↦
          let same : q ≡ r = ground (arith, rw (is, newest_checkpoint) at e) in
          rw is (rw same (rw hit refl))
    ]

module _ (sha256 : String → String) (load : String → Option HarnessState)
    (loads : String → Option (Dict String String)) where
  -- What is answered for the row `y` of a session: nothing if it is a seal, else the state that it
  -- holds, with its worktrees, if both can be read.
  abbrev pub Offers : Scope → Row → Detection → Type 0
  Offers s y d =
      (is_seal y ≡ true → d ≡ finalized)
      × (is_seal y ≡ false → load y.state_json ≡ none → d ≡ invalid_state)
      × ((state : HarnessState)
          → is_seal y ≡ false
          → load y.state_json ≡ some state
          → (deserialize_worktree_state loads y ≡ none → d ≡ invalid_worktrees)
            × ((worktrees : Dict String Snapshot)
                → deserialize_worktree_state loads y ≡ some worktrees
                → d
                  ≡ unfinalized (record {
                    scope = s;
                    checkpoint_id = y.checkpoint_id;
                    state = state;
                    worktrees = worktrees;
                  })))

  offered-Offers :
      (s : Scope) (y : Row) → Offers s y (offered sha256 load loads s (served (some y)))
  unfolding offered planned with_worktrees
  offered-Offers s y = (
    λ seal. rw seal refl,
    λ going unread. rw (going, unread) refl,
    λ state going read.
        (λ unread. rw (going, read, unread) refl, λ worktrees trees. rw (going, read, trees) refl),
  )

  module _ (at : ℕ) (t : Tables) (r : Row) (keyed : IsKeyed (scope_of r) t.rows)
      (newest : newest_checkpoint t.rows ≡ some r) (going : is_seal r ≡ false) where
    abbrev s : Scope
    s = scope_of r

    abbrev id : String
    id = r.checkpoint_id

    abbrev order : List Row
    order = fetch_rows s t.rows

    order-IsNewestFirst : IsNewestFirst order
    unfolding fetch_rows
    order-IsNewestFirst = newest_first-IsNewestFirst (keep (in_scope s) t.rows)

    target : first_row (λ q. q.checkpoint_id == id) order ≡ some r
    target = fetch_same s t.rows keyed id ∙ newest_read t.rows r keyed newest

    detect_lem :
        (read : Tables × Verified)
        → get_verified_tuple sha256 s id at t ≡ read
        → detect_unfinalized_session sha256 load loads at t
          ≡ (read.0, offered sha256 load loads s read.1)
    unfolding detect_unfinalized_session detected
    detect_lem read e = ap (detected sha256 load loads at t) newest ∙ rw going (rw e refl)

    read_good :
        verify_row sha256 r ≡ true → get_verified_tuple sha256 s id at t ≡ (t, served (some r))
    unfolding get_verified_tuple verified_target
    read_good good =
        rw target (rw good (ap (λ o. (t, served o)) (newest_read t.rows r keyed newest)))

    read_bad :
        verify_row sha256 r ≡ false
        → get_verified_tuple sha256 s id at t
          ≡ fall_back sha256 s
              (first_row (is_fallback sha256 id) order)
              (quarantine_row sha256 s r at t)
    unfolding get_verified_tuple verified_target
    read_bad bad = rw target (rw bad refl)

    -- The fallback is still there once the corrupt row is gone.
    fallback_read :
        (y : Row)
        → first_row (is_fallback sha256 id) order ≡ some y
        → get_tuple s y.checkpoint_id (quarantine_row sha256 s r at t).rows ≡ some y
    unfolding get_tuple quarantine_row
    fallback_read y e =
        let (passes, _) = first_row-some (is_fallback sha256 id) order y e in
        first_row-keep (is_row s y.checkpoint_id) (λ q. not (is_row s id q)) t.rows
        ∙ first_row_same (λ q. not (is_row s id q) && is_row s y.checkpoint_id q)
            (is_row s y.checkpoint_id) t.rows
            (λ q. ground (
              arith,
              passes,
              string_eq.beq_iff q.checkpoint_id id,
              string_eq.beq_iff q.checkpoint_id y.checkpoint_id,
              string_eq.beq_iff y.checkpoint_id id,
            ))
        ∙ read_again s t.rows keyed (is_fallback sha256 id) y e

    -- What the detection comes to by the row `r`: `order` holds the rows of its session, newest first.
    abbrev pub Detects : Tables × Detection → Type 0
    Detects d =
        (verify_row sha256 r ≡ true → (d.0 ≡ t) × Offers s r d.1)
        × (verify_row sha256 r ≡ false
            → (d.0 ≡ quarantine_row sha256 s r at t)
              × ((order : List Row) × IsNewestFirst order
                  × ((p : Row → Bool) → tally p order ≡ tally (λ q. in_scope s q && p q) t.rows)
                  × (first_row (is_fallback sha256 id) order ≡ none → d.1 ≡ corrupt)
                  × ((y : Row)
                      → first_row (is_fallback sha256 id) order ≡ some y
                      → Offers s y d.1)))

    fallen : Option Row → Detection
    fallen none = corrupt
    fallen (some y) = offered sha256 load loads s (served (some y))

    abbrev answered : Tables × Verified → Tables × Detection
    answered (u, v) = (u, offered sha256 load loads s v)

    abbrev after : Option Row → Tables × Detection
    after o = (quarantine_row sha256 s r at t, fallen o)

    fall_back_lem :
        (o : Option Row)
        → first_row (is_fallback sha256 id) order ≡ o
        → after o ≡ answered (fall_back sha256 s o (quarantine_row sha256 s r at t))
    unfolding fall_back fallen
    fall_back_lem none e = unfold offered in refl
    fall_back_lem (some y) e = rw (fallback_read y e) refl

    detect_bad :
        (o : Option Row)
        → first_row (is_fallback sha256 id) order ≡ o
        → verify_row sha256 r ≡ false
        → detect_unfinalized_session sha256 load loads at t ≡ after o
    detect_bad o e bad =
        detect_lem (fall_back sha256 s o (quarantine_row sha256 s r at t))
          (read_bad bad ∙ ap (λ x. fall_back sha256 s x (quarantine_row sha256 s r at t)) e)
        ∙ sym (fall_back_lem o e)

    -- When the newest row of a workspace is no seal, the detection answers by it if its digest verifies,
    -- and changes nothing. If not, the row is quarantined, and the answer goes by the newest other row of
    -- its session whose digest verifies, or is the error of a corrupt session if there is none. By a row:
    -- a seal means that the session was shut down, and else its state and worktrees are offered under its
    -- id, if both can be read. No two rows of the session have one id.
    pub detection_offers : Detects (detect_unfinalized_session sha256 load loads at t)
    unfolding fallen
    detection_offers = (
      λ good.
          let is = detect_lem (t, served (some r)) (read_good good) in
          rw is (refl, offered-Offers s r),
      λ bad. (
        ap (λ (x : Tables × Detection). x.0)
            (detect_bad (first_row (is_fallback sha256 id) order) refl bad),
        (
          order,
          order-IsNewestFirst,
          λ p. tally-fetch_rows p s t.rows,
          λ nobody. ap (λ (x : Tables × Detection). x.1) (detect_bad none nobody bad),
          λ y found. rw (detect_bad (some y) found bad) (offered-Offers s y),
        ),
      ),
    )
