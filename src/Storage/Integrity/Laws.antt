-- ===== src/Storage/Integrity/Laws.antt =====
-- storage/integrity.py: what is served verifies, and what does not is moved aside.
use dev_harness.Common.{
  ℕ, ◌≤◌, String, ◌≡◌, refl, sym, ap, ◌∙◌, inl, inr, Bool, true, false, not, ◌&&◌, Option, none,
  some, List, [], ◌∷◌, ◌++◌, arith, leb, leb→le, ◌==◌, nat_eq, string_eq, beq_refl, Bool-cases,
  keep,
}
use dev_harness.Storage.Saver.{Scope, Row, in_scope, is_row, first_row, fetch_rows, get_tuple}
use dev_harness.Storage.Saver.Rows.{
  tally, tally-keep, tally-fetch_rows, tally_same, tally_and, tally_mono, first_row-some,
  first_row-none, first_row_only, first_row_zero, first_row_both,
}
use dev_harness.Storage.Retention.Laws.{IsKeyed}
use dev_harness.Storage.Integrity.{
  Quarantined, Tables, Verified, missing, served, corrupt_checkpoint, replace, verify_row,
  quarantine_row, is_fallback, fall_back, verified_target, get_verified_tuple, quarantine_all,
  quarantine_corrupt,
}

-- The row stands in quarantine.
abbrev pub IsAside : Row → List Quarantined → Type 0
IsAside r qs =
    (at : ℕ) × (before after : List Quarantined) × (qs
      ≡ before ++ record { row = r; quarantined_at = at } ∷ after)

replace-IsAside : (r : Row) (at : ℕ) (qs : List Quarantined) → IsAside r (replace r at qs)
unfolding replace
replace-IsAside r at [] = (at, [], [], refl)
replace-IsAside r at (q ∷ qs) =
    elim (Bool-cases (
      q.row.project_id == r.project_id
      && q.row.thread_id == r.thread_id
      && q.row.checkpoint_id == r.checkpoint_id)) [
        | inl same ↦ rw same (at, [], qs, refl)
        | inr other ↦
            let (t, before, after, is) = replace-IsAside r at qs in
            rw other (t, q ∷ before, after, ap (λ l. q ∷ l) is)
      ]

module _ (sha256 : String → String) where
  abbrev verifies : Row → Bool
  verifies r = verify_row sha256 r

  -- The row of an id, when a row of that id in the scope's query verifies.
  served_row :
      (s : Scope) (id : String) (rows : List Row)
      → IsKeyed s rows
      → 1 ≤ tally (λ r. is_row s id r && verifies r) rows
      → (r : Row) × (get_tuple s id rows ≡ some r) × (is_row s id r ≡ true) × (verifies r ≡ true)
  unfolding get_tuple
  served_row s id rows keyed some_row =
      first_row_only (is_row s id) verifies rows (keyed id) some_row

  -- What a verified read may end with, of the tables `t`.
  abbrev pub IsRead : Scope → String → Tables → Tables × Verified → Type 0
  IsRead s id t (u, missing) = (u ≡ t) × (get_tuple s id t.rows ≡ none)
  IsRead s id t (u, served o) =
      (r : Row) × (o ≡ some r)
      × (in_scope s r ≡ true)
      × (verifies r ≡ true)
      × (get_tuple s r.checkpoint_id u.rows ≡ some r)
  IsRead s id t (u, corrupt_checkpoint) =
      (get_tuple s id u.rows ≡ none) × (tally (λ r. in_scope s r && verifies r) u.rows ≡ 0)

  module _ (s : Scope) (id : String) (at : ℕ) (t : Tables) (keyed : IsKeyed s t.rows) where
    abbrev fetched : List Row
    fetched = fetch_rows s t.rows

    by_fetch :
        (p q : Row → Bool)
        → ((r : Row) → (in_scope s r && p r) ≡ q r)
        → tally p fetched ≡ tally q t.rows
    by_fetch p q same =
        tally-fetch_rows p s t.rows ∙ tally_same (λ r. in_scope s r && p r) q t.rows same

    absent-IsRead :
        first_row (λ r. r.checkpoint_id == id) fetched ≡ none → get_tuple s id t.rows ≡ none
    unfolding get_tuple
    absent-IsRead e = first_row_zero (is_row s id) t.rows (
        sym (by_fetch (λ r. r.checkpoint_id == id) (is_row s id) (λ r. refl))
        ∙ first_row-none (λ r. r.checkpoint_id == id) fetched e)

    good-IsRead :
        (r : Row)
        → first_row (λ q. q.checkpoint_id == id) fetched ≡ some r
        → verifies r ≡ true
        → IsRead s id t (t, served (get_tuple s id t.rows))
    good-IsRead r e good =
        let some_row = first_row_both (λ q. q.checkpoint_id == id) verifies fetched r e good in
        let (q, found, is, v) = served_row s id t.rows keyed (
          omega (
            arith,
            some_row,
            by_fetch (λ q. q.checkpoint_id == id && verifies q) (λ q. is_row s id q && verifies q)
                (λ q. ground arith),
          )) in
        let named : id ≡ q.checkpoint_id = ground (arith, string_eq.beq_iff q.checkpoint_id id) in
        (q, found, ground arith, v, rw (← named) found)

    pub get_verified_good :
        (r : Row)
        → first_row (λ q. q.checkpoint_id == id) fetched ≡ some r
        → verifies r ≡ true
        → get_verified_tuple sha256 s id at t ≡ (t, served (get_tuple s id t.rows))
    unfolding get_verified_tuple verified_target
    get_verified_good r e good = rw (e, good) refl

    abbrev left : Row → List Row
    left r = keep (λ q. not (is_row s r.checkpoint_id q)) t.rows

    left-IsKeyed : (r : Row) → IsKeyed s (left r)
    left-IsKeyed r x = omega (
      arith,
      keyed x,
      tally-keep (is_row s x) (λ q. not (is_row s r.checkpoint_id q)) t.rows,
      tally_mono (λ q. not (is_row s r.checkpoint_id q) && is_row s x q) (is_row s x) t.rows
          (λ q h. ground arith),
    )

    by_left :
        (r : Row) (p q : Row → Bool)
        → ((x : Row) → (not (is_row s r.checkpoint_id x) && p x) ≡ q x)
        → tally p (left r) ≡ tally q t.rows
    by_left r p q same =
        tally-keep p (λ x. not (is_row s r.checkpoint_id x)) t.rows
        ∙ tally_same (λ x. not (is_row s r.checkpoint_id x) && p x) q t.rows same

    none_pass : (rows : List Row) → tally (λ x. false) rows ≡ 0
    none_pass [] = refl
    none_pass (x ∷ rows) = omega (arith, none_pass rows)

    gone : (r : Row) → get_tuple s r.checkpoint_id (left r) ≡ none
    unfolding get_tuple
    gone r =
        first_row_zero (is_row s r.checkpoint_id) (left r)
          (by_left r (is_row s r.checkpoint_id) (λ x. false) (λ x. ground arith) ∙ none_pass t.rows)

    fall_back-IsRead :
        (r : Row) (o : Option Row)
        → r.checkpoint_id ≡ id
        → first_row (is_fallback sha256 id) fetched ≡ o
        → IsRead s id t (fall_back sha256 s o (quarantine_row sha256 s r at t))
    unfolding fall_back quarantine_row
    fall_back-IsRead r none named e = (
      rw (← named) (gone r),
      by_left r (λ q. in_scope s q && verifies q) (λ q. in_scope s q && is_fallback sha256 id q)
            (λ q. rw named (ground arith))
          ∙ sym (
              by_fetch (is_fallback sha256 id) (λ q. in_scope s q && is_fallback sha256 id q)
                (λ q. refl))
          ∙ first_row-none (is_fallback sha256 id) fetched e,
    )
    fall_back-IsRead r (some b) named e =
        let some_row =
          first_row_both (is_fallback sha256 id) (λ q. q.checkpoint_id == b.checkpoint_id) fetched b
            e (beq_refl b.checkpoint_id) in
        let (fresh, _) = first_row-some (is_fallback sha256 id) fetched b e in
        let (q, found, is, v) = served_row s b.checkpoint_id (left r) (left-IsKeyed r) (
          omega (
            arith,
            some_row,
            by_fetch (λ q. is_fallback sha256 id q && q.checkpoint_id == b.checkpoint_id)
                (λ q.
                  in_scope s q && (is_fallback sha256 id q && q.checkpoint_id == b.checkpoint_id))
                (λ q. refl),
            by_left r (λ q. is_row s b.checkpoint_id q && verifies q)
                (λ q.
                  in_scope s q && (is_fallback sha256 id q && q.checkpoint_id == b.checkpoint_id))
                (λ q. rw named (
                  ground (
                    arith,
                    string_eq.beq_iff q.checkpoint_id id,
                    string_eq.beq_iff q.checkpoint_id b.checkpoint_id,
                  ))),
          )) in
        let same : b.checkpoint_id ≡ q.checkpoint_id =
          ground (arith, string_eq.beq_iff q.checkpoint_id b.checkpoint_id) in
        (q, found, ground arith, v, rw (← same) found)

    target-IsRead :
        (o : Option Row)
        → first_row (λ r. r.checkpoint_id == id) fetched ≡ o
        → IsRead s id t (verified_target sha256 s id at o t)
    unfolding verified_target
    target-IsRead none e = (refl, absent-IsRead e)
    target-IsRead (some r) e = elim (Bool-cases (verifies r)) [
      | inl good ↦ rw good (good-IsRead r e good)
      | inr bad ↦
          let (same, _) = first_row-some (λ q. q.checkpoint_id == id) fetched r e in
          rw bad (
            fall_back-IsRead r (first_row (is_fallback sha256 id) fetched)
              ((string_eq.beq_iff r.checkpoint_id id).0 same) refl)
    ]

    -- A verified read of a checkpoint answers that it is missing, and changes nothing, only when no row
    -- has its id; what it serves is a row of the session that is still in the table and whose digest
    -- verifies; and it raises only when the row is gone and no row of the session verifies. No two rows
    -- of the session have one id.
    pub get_verified_tuple-IsRead : IsRead s id t (get_verified_tuple sha256 s id at t)
    unfolding get_verified_tuple
    get_verified_tuple-IsRead = target-IsRead (first_row (λ r. r.checkpoint_id == id) fetched) refl

  -- The scan leaves only rows that verify, and the others where they were.
  quarantine_all_lem :
      (s : Scope) (at : ℕ) (rs : List Row) (t : Tables) (p : Row → Bool)
      → ((r : Row) → p r ≡ true → in_scope s r ≡ false)
      → (tally p (quarantine_all sha256 s at rs t).0.rows ≡ tally p t.rows)
        × ((q : Row → Bool) → tally q (quarantine_all sha256 s at rs t).0.rows ≤ tally q t.rows)
  unfolding quarantine_all quarantine_row
  quarantine_all_lem s at [] t p other = (refl, λ q. omega arith)
  quarantine_all_lem s at (r ∷ rs) t p other = elim (Bool-cases (verifies r)) [
    | inl good ↦ rw good (quarantine_all_lem s at rs t p other)
    | inr bad ↦
        let t' = quarantine_row sha256 s r at t in
        let rest = quarantine_all_lem s at rs t' p other in
        rw bad (
          rest.0
              ∙ tally-keep p (λ q. not (is_row s r.checkpoint_id q)) t.rows
              ∙ tally_same (λ q. not (is_row s r.checkpoint_id q) && p q) p t.rows
                  (λ q. let o = other q in ground arith),
          λ q. omega (
            arith,
            rest.1 q,
            tally-keep q (λ x. not (is_row s r.checkpoint_id x)) t.rows,
            tally_mono (λ x. not (is_row s r.checkpoint_id x) && q x) q t.rows
                (λ x h. ground arith),
          ),
        )
  ]

  moved_out :
      (s : Scope) (at : ℕ) (rs : List Row) (t : Tables) (id : String)
      → 1 ≤ tally (λ r. r.checkpoint_id == id && not (verifies r)) rs
      → tally (is_row s id) (quarantine_all sha256 s at rs t).0.rows ≡ 0
  unfolding quarantine_all quarantine_row
  moved_out s at [] t id m = absurd (omega arith)
  moved_out s at (r ∷ rs) t id m = elim (Bool-cases (verifies r)) [
    | inl good ↦ rw good (moved_out s at rs t id (ground arith))
    | inr bad ↦ elim (Bool-cases (r.checkpoint_id == id)) [
      | inr other ↦ rw bad (moved_out s at rs (quarantine_row sha256 s r at t) id (ground arith))
      | inl same ↦
          let t' = quarantine_row sha256 s r at t in
          let rest = quarantine_all_lem s at rs t' (λ q. false) (λ q h. cc h) in
          let is = (string_eq.beq_iff r.checkpoint_id id).0 same in
          rw bad (omega (arith, rest.1 (is_row s id), left_none s r id is t.rows))
    ]
  ]
    where
      left_none :
          (s : Scope) (r : Row) (id : String)
          → r.checkpoint_id ≡ id
          → (rows : List Row)
          → tally (is_row s id) (keep (λ q. not (is_row s r.checkpoint_id q)) rows) ≡ 0
      left_none s r id e [] = refl
      left_none s r id e (x ∷ xs) = rw e (ground (arith, left_none s r id e xs, e))

  -- Scanning a session moves every row of it whose digest does not verify out of the table, and touches
  -- no row of another session.
  pub quarantine_corrupt_clean :
      (s : Scope) (at : ℕ) (t : Tables)
      → ((id : String)
          → tally (λ r. is_row s id r && not (verifies r)) (quarantine_corrupt sha256 s at t).0.rows
            ≡ 0)
        × ((p : Row → Bool)
            → ((r : Row) → p r ≡ true → in_scope s r ≡ false)
            → tally p (quarantine_corrupt sha256 s at t).0.rows ≡ tally p t.rows)
  unfolding quarantine_corrupt
  quarantine_corrupt_clean s at t =
      let kept = quarantine_all_lem s at (fetch_rows s t.rows) t in
      let after = (quarantine_all sha256 s at (fetch_rows s t.rows) t).0.rows in
      (
        λ id.
            let bad : Row → Bool = λ r. is_row s id r && not (verifies r) in
            elim (Bool-cases (leb 1 (tally bad after))) [
              | inr clean ↦ ground arith
              | inl dirty ↦
                  let before = (kept (λ q. false) (λ q h. cc h)).1 bad in
                  let listed =
                    tally-fetch_rows (λ r. r.checkpoint_id == id && not (verifies r)) s t.rows
                    ∙ tally_same (λ r. in_scope s r && (r.checkpoint_id == id && not (verifies r)))
                        bad t.rows (λ r. ground arith) in
                  let many : 1 ≤ tally bad after = leb→le 1 (tally bad after) dirty in
                  absurd (
                    omega (
                      arith,
                      moved_out s at (fetch_rows s t.rows) t id
                          (omega (arith, listed, before, many)),
                      many,
                      tally_and (is_row s id) (λ r. not (verifies r)) after,
                    ))
            ],
        λ p other. (kept p other).0,
      )
