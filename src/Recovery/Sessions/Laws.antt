-- ===== src/Recovery/Sessions/Laws.antt =====
-- recovery/session_recovery.py: what is offered, and when nothing is.
use dev_harness.Common.{
  ℕ, ◌≤◌, String, ◌≡◌, refl, ap, ◌∙◌, ◌⊎◌, inl, inr, Bool, true, false, Option, some, List, [], ◌∷◌,
  arith, ltb, ◌==◌, nat_eq, string_eq, Bool-cases, if◌then◌else◌,
}
use dev_harness.Contracts.State.{HarnessState}
use dev_harness.Dict.{Dict}
use dev_harness.Sorted.{str_leb}
use dev_harness.Storage.Saver.{Row, insert_row, newest_first}
use dev_harness.Storage.Saver.Rows.{tally}
use dev_harness.Storage.Integrity.{Tables}
use dev_harness.Recovery.Sessions.{
  seal_checkpoint_id, finalized, newest_checkpoint, detected, detect_unfinalized_session,
}

-- In the order of ids the id is the seal's or stands below it.
abbrev pub IsBelowSeal : Row → Type 0
IsBelowSeal r =
    (r.created_at ≡ 0)
    × (str_leb r.checkpoint_id seal_checkpoint_id ≡ true)
    × (((r.checkpoint_id == seal_checkpoint_id) ≡ true)
        ⊎ (str_leb seal_checkpoint_id r.checkpoint_id ≡ false))

abbrev pub AllBelowSeal : List Row → Type 0
AllBelowSeal [] = Unit
AllBelowSeal (r ∷ rs) = IsBelowSeal r × AllBelowSeal rs

abbrev pub is_seal : Row → Bool
is_seal r = r.checkpoint_id == seal_checkpoint_id

-- The first row is a seal.
abbrev Leads : List Row → Type 0
Leads rows = (r : Row) × (rs : List Row) × (rows ≡ r ∷ rs) × (is_seal r ≡ true)

insert_seal :
    (r : Row) (rows : List Row)
    → AllBelowSeal rows
    → IsBelowSeal r
    → is_seal r ≡ true
    → Leads (insert_row r rows)
unfolding insert_row
insert_seal r [] all b seal = (r, [], refl, seal)
insert_seal r (q ∷ qs) all b seal =
    let same = (string_eq.beq_iff r.checkpoint_id seal_checkpoint_id).0 seal in
    let first : (if nat_eq.beq r.created_at q.created_at
          then str_leb q.checkpoint_id r.checkpoint_id
          else ltb q.created_at r.created_at)
        ≡ true =
      rw (b.0, all.0.0, same) all.0.1 in
    rw first (r, q ∷ qs, refl, seal)

insert_other :
    (r : Row) (rows : List Row)
    → AllBelowSeal rows
    → IsBelowSeal r
    → is_seal r ≡ false
    → Leads rows
    → Leads (insert_row r rows)
unfolding insert_row
insert_other r [] all b other (q, qs, e, seal) = absurd (cc e)
insert_other r (x ∷ xs) all b other (q, qs, e, seal) =
    let is : x ≡ q = cc e in
    let seal_first : is_seal x ≡ true = rw is seal in
    let same = (string_eq.beq_iff x.checkpoint_id seal_checkpoint_id).0 seal_first in
    let above : str_leb seal_checkpoint_id r.checkpoint_id ≡ false = ground (arith, b.2, other) in
    let later : (if nat_eq.beq r.created_at x.created_at
          then str_leb x.checkpoint_id r.checkpoint_id
          else ltb x.created_at r.created_at)
        ≡ false =
      rw (b.0, all.0.0, same) above in
    rw later (x, insert_row r xs, refl, seal_first)

newest-AllBelowSeal : (rows : List Row) → AllBelowSeal rows → AllBelowSeal (newest_first rows)
unfolding newest_first insert_row
newest-AllBelowSeal [] all = tt
newest-AllBelowSeal (r ∷ rs) all = inserted r (newest_first rs) all.0 (newest-AllBelowSeal rs all.1)
  where
    inserted :
        (r : Row) (rows : List Row)
        → IsBelowSeal r
        → AllBelowSeal rows
        → AllBelowSeal (insert_row r rows)
    inserted r [] b all = (b, tt)
    inserted r (q ∷ qs) b all =
        elim (Bool-cases (
          if nat_eq.beq r.created_at q.created_at
          then str_leb q.checkpoint_id r.checkpoint_id
          else ltb q.created_at r.created_at)) [
            | inl first ↦ rw first (b, all)
            | inr later ↦ rw later (all.0, inserted r qs b all.1)
          ]

newest_first-Leads :
    (rows : List Row) → AllBelowSeal rows → 1 ≤ tally is_seal rows → Leads (newest_first rows)
unfolding newest_first
newest_first-Leads [] all some_seal = absurd (omega arith)
newest_first-Leads (r ∷ rs) all some_seal = elim (Bool-cases (is_seal r)) [
  | inl seal ↦ insert_seal r (newest_first rs) (newest-AllBelowSeal rs all.1) all.0 seal
  | inr other ↦
      insert_other r (newest_first rs) (newest-AllBelowSeal rs all.1) all.0 other
        (newest_first-Leads rs all.1 (ground arith))
]

pub newest_of :
    (rows : List Row) (r : Row) (rs : List Row)
    → newest_first rows ≡ r ∷ rs
    → newest_checkpoint rows ≡ some r
unfolding newest_checkpoint
newest_of rows r rs e = rw (e, newest_checkpoint) refl

module _ (sha256 : String → String) (load : String → Option HarnessState)
    (loads : String → Option (Dict String String)) where
  detected_seal :
      (at : ℕ) (t : Tables) (r : Row)
      → is_seal r ≡ true
      → detected sha256 load loads at t (some r) ≡ (t, finalized)
  unfolding detected
  detected_seal at t r seal = rw seal refl

  -- Where every row of a workspace has the time 0, which is what `put_bound` writes, and an id that is
  -- the seal's or stands below it in the order of texts, one seal of any session makes the detection
  -- answer that the last session was shut down, whatever was written after the seal.
  pub seal_hides :
      (at : ℕ) (t : Tables)
      → AllBelowSeal t.rows
      → 1 ≤ tally is_seal t.rows
      → detect_unfinalized_session sha256 load loads at t ≡ (t, finalized)
  unfolding detect_unfinalized_session
  seal_hides at t all some_seal =
      let (r, rs, e, seal) = newest_first-Leads t.rows all some_seal in
      ap (detected sha256 load loads at t) (newest_of t.rows r rs e) ∙ detected_seal at t r seal
