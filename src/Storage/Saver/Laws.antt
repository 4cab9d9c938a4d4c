-- ===== src/Storage/Saver/Laws.antt =====
-- storage/sqlite_saver.py: a checkpoint that is written is read back, and how long the ids that `put`
-- makes up last.
use dev_harness.Common.{
  ℕ, ◌+◌, ◌≤◌, ◌<◌, min, String, ◌≡◌, refl, sym, ap, ◌∙◌, ◌≢◌, inl, inr, true, false, none, some,
  List, [], ◌∷◌, ◌++◌, arith, ltb, ◌==◌, nat_eq, string_eq, beq_refl, Bool-cases, Option-cases,
  if◌then◌else◌, length, take, drop, keep, length-append, keep-append, length-take,
}
use dev_harness.Contracts.State.{HarnessState}
use dev_harness.Storage.Saver.{
  Scope, Row, in_scope, is_row, fetch_rows, list, get_tuple, Keywords, insert, new_id, new_row, put,
}
use dev_harness.Storage.Saver.Rows.{first_row-append, length-fetch_rows}

-- A call of `put` with a session and a state only.
abbrev pub unnamed : Keywords
unnamed = record {
  checkpoint_id = none;
  git_commit_hash = none;
  is_paused = false;
  created_at = none;
  worktree_head = none;
  worktree_diff = none;
}

insert_free :
    (s : Scope) (r : Row) (rows : List Row)
    → get_tuple s r.checkpoint_id rows ≡ none
    → insert s r rows ≡ some (rows ++ r ∷ [])
unfolding insert
insert_free s r rows e = rw (e, insert) refl

insert_taken :
    (s : Scope) (r q : Row) (rows : List Row)
    → get_tuple s r.checkpoint_id rows ≡ some q
    → insert s r rows ≡ none
unfolding insert
insert_taken s r q rows e = rw (e, insert) refl

module _ (dump : HarnessState → String) (sha256 : String → String) (cp_text : ℕ → String) where
  abbrev pub row_of : Scope → HarnessState → Keywords → List Row → Row
  row_of s state k rows =
      new_row dump sha256 cp_text s state k (new_id dump sha256 cp_text s k rows)

  abbrev id_of : Scope → Keywords → List Row → String
  id_of s k rows = new_id dump sha256 cp_text s k rows

  get-append :
      (s : Scope) (id : String) (rows : List Row) (r : Row)
      → get_tuple s id (rows ++ r ∷ []) ≡ elim (get_tuple s id rows) [
        | some q ↦ some q
        | none ↦ if is_row s id r then some r else none
      ]
  unfolding get_tuple
  get-append s id rows r = first_row-append (is_row s id) rows r

  put_free :
      (s : Scope) (state : HarnessState) (k : Keywords) (rows : List Row)
      → get_tuple s (id_of s k rows) rows ≡ none
      → put dump sha256 cp_text s state k rows ≡ some (rows ++ row_of s state k rows ∷ [])
  unfolding put
  put_free s state k rows free = insert_free s (row_of s state k rows) rows free

  put_taken :
      (s : Scope) (state : HarnessState) (k : Keywords) (rows : List Row) (r : Row)
      → get_tuple s (id_of s k rows) rows ≡ some r
      → put dump sha256 cp_text s state k rows ≡ none
  unfolding put
  put_taken s state k rows r taken = insert_taken s (row_of s state k rows) r rows taken

  -- A checkpoint is written exactly when its id is free in its session. Then it is read back under that
  -- id, with the state's JSON and a digest that verifies, and what every other id reads stays.
  pub put_reads :
      (s : Scope) (state : HarnessState) (k : Keywords) (rows : List Row)
      → (get_tuple s (id_of s k rows) rows ≢ none → put dump sha256 cp_text s state k rows ≡ none)
        × (get_tuple s (id_of s k rows) rows ≡ none
            → (rows' : List Row) × (put dump sha256 cp_text s state k rows ≡ some rows')
              × (get_tuple s (id_of s k rows) rows' ≡ some (row_of s state k rows))
              × ((row_of s state k rows).state_json ≡ dump state)
              × ((row_of s state k rows).state_sha256 ≡ sha256 (dump state))
              × ((u : Scope) (id : String)
                  → is_row u id (row_of s state k rows) ≡ false
                  → get_tuple u id rows' ≡ get_tuple u id rows))
  put_reads s state k rows = (
    λ taken. elim (Option-cases (get_tuple s (id_of s k rows) rows)) [
      | inl free ↦ absurd (taken free)
      | inr (r, there) ↦ put_taken s state k rows r there
    ],
    λ free. (
      rows ++ row_of s state k rows ∷ [],
      put_free s state k rows free,
      get-append s (id_of s k rows) rows (row_of s state k rows)
          ∙ rw free (
              ground
                (arith, beq_refl s.project_id, beq_refl s.thread_id, beq_refl (id_of s k rows))),
      refl,
      refl,
      λ u id other.
          get-append u id rows (row_of s state k rows) ∙ elim (Option-cases (get_tuple u id rows)) [
            | inl absent ↦ rw absent (ground (arith, other))
            | inr (q, there) ↦ rw there refl
          ],
    ),
  )

  -- The session has the rows cp_0 to cp_(n-1), and no other.
  pub record IsCounted (s : Scope) (n : ℕ) (rows : List Row) : Type 0 where
    pub size : length (keep (in_scope s) rows) ≡ n
    pub there : (i : ℕ) → i < n → get_tuple s (cp_text i) rows ≢ none
    pub only : (i : ℕ) → n ≤ i → get_tuple s (cp_text i) rows ≡ none

  unnamed_id :
      (s : Scope) (n : ℕ) (rows : List Row)
      → IsCounted s n rows
      → id_of s unnamed rows ≡ cp_text (min 100 n)
  unfolding list
  unnamed_id s n rows c =
      let size : length (take 100 (drop 0 (fetch_rows s rows))) ≡ min 100 n =
        length-take 100 (drop 0 (fetch_rows s rows))
        ∙ omega (arith, length-fetch_rows s rows, c.size) in
      ap cp_text size

  append-IsCounted :
      ((a b : ℕ) → cp_text a ≡ cp_text b → a ≡ b)
      → (s : Scope) (n : ℕ) (rows : List Row) (r : Row) → in_scope s r ≡ true
      → r.checkpoint_id ≡ cp_text n
      → IsCounted s n rows
      → IsCounted s (n + 1) (rows ++ r ∷ [])
  append-IsCounted apart s n rows r inside named c = record {
    size = omega (
      arith,
      ap length (keep-append (in_scope s) rows (r ∷ [])),
      length-append (keep (in_scope s) rows) (keep (in_scope s) (r ∷ [])),
      one,
      c.size,
    );
    there = λ i below gone. elim (Bool-cases (ltb i n)) [
      | inl old ↦ ground (
        arith,
        get-append s (cp_text i) rows r,
        c.there i,
        Option-cases (get_tuple s (cp_text i) rows),
        gone,
      )
      | inr new ↦
          let is : i ≡ n = ground arith in
          let hit : (r.checkpoint_id == cp_text i) ≡ true =
            (string_eq.beq_iff r.checkpoint_id (cp_text i)).1 (named ∙ ap cp_text (sym is)) in
          ground (arith, get-append s (cp_text i) rows r, c.only i, hit, inside, gone)
    ];
    only = λ i above.
        let miss : (r.checkpoint_id == cp_text i) ≡ false =
          elim (Bool-cases (r.checkpoint_id == cp_text i)) [
            | inr other ↦ other
            | inl same ↦ absurd (
                omega (
                  arith,
                  apart n i (sym named ∙ (string_eq.beq_iff r.checkpoint_id (cp_text i)).0 same),
                ))
          ] in
        ground (arith, get-append s (cp_text i) rows r, c.only i, miss);
  }
    where
      one : length (keep (in_scope s) (r ∷ [])) ≡ 1
      one = ground (arith, inside)

  -- From a session without checkpoints on, `put` without an id writes cp_0 to cp_100, one after the
  -- other; when these 101 rows are there, every further `put` without an id is refused and changes
  -- nothing. Different numbers have different texts.
  pub unnamed_puts :
      ((a b : ℕ) → cp_text a ≡ cp_text b → a ≡ b)
      → (s : Scope) (state : HarnessState) (n : ℕ) (rows : List Row) → IsCounted s n rows
      → (n ≤ 100
          → (rows' : List Row) × (put dump sha256 cp_text s state unnamed rows ≡ some rows')
            × IsCounted s (n + 1) rows')
        × (101 ≤ n → put dump sha256 cp_text s state unnamed rows ≡ none)
  unnamed_puts apart s state n rows c = (
    λ few.
        let least : min 100 n ≡ n = omega arith in
        let named : id_of s unnamed rows ≡ cp_text n = rw least at (unnamed_id s n rows c) in
        let free : get_tuple s (id_of s unnamed rows) rows ≡ none =
          rw named (c.only n (omega arith)) in
        (
          rows ++ row_of s state unnamed rows ∷ [],
          put_free s state unnamed rows free,
          append-IsCounted apart s n rows (row_of s state unnamed rows)
              (ground (arith, beq_refl s.project_id, beq_refl s.thread_id)) named c,
        ),
    λ many.
        let least : min 100 n ≡ 100 = omega arith in
        let named : id_of s unnamed rows ≡ cp_text 100 = rw least at (unnamed_id s n rows c) in
        elim (Option-cases (get_tuple s (id_of s unnamed rows) rows)) [
          | inl absent ↦ absurd (c.there 100 (omega arith) (rw named at absent))
          | inr (r, taken) ↦ put_taken s state unnamed rows r taken
        ],
  )
