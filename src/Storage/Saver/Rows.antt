-- ===== src/Storage/Saver/Rows.antt =====
-- storage/sqlite_saver.py: what the queries keep of the rows.
use dev_harness.Common.{
  ℕ, ◌+◌, ◌≤◌, ◌≡◌, refl, inl, inr, Bool, true, ◌&&◌, none, some, List, [], ◌∷◌, ◌++◌, arith,
  nat_eq, string_eq, Bool-cases, if◌then◌else◌, ap, ◌∙◌, length, keep,
}
use dev_harness.Storage.Saver.{
  Scope, Row, in_scope, newer, insert_row, newest_first, first_row, fetch_rows,
}

-- How many rows pass a test.
abbrev pub tally : (Row → Bool) → List Row → ℕ
tally p [] = 0
tally p (r ∷ rs) = (if p r then 1 else 0) + tally p rs

pub tally-append :
    (p : Row → Bool) (xs ys : List Row) → tally p (xs ++ ys) ≡ tally p xs + tally p ys
tally-append p [] ys = omega arith
tally-append p (x ∷ xs) ys = omega (arith, tally-append p xs ys)

tally-insert_row :
    (p : Row → Bool) (r : Row) (rs : List Row) → tally p (insert_row r rs) ≡ tally p (r ∷ rs)
unfolding insert_row
tally-insert_row p r [] = refl
tally-insert_row p r (q ∷ qs) = ground (arith, tally-insert_row p r qs)

pub tally-newest_first : (p : Row → Bool) (rs : List Row) → tally p (newest_first rs) ≡ tally p rs
unfolding newest_first
tally-newest_first p [] = refl
tally-newest_first p (r ∷ rs) =
    omega (arith, tally-insert_row p r (newest_first rs), tally-newest_first p rs)

pub tally-keep :
    (p q : Row → Bool) (rs : List Row) → tally p (keep q rs) ≡ tally (λ r. q r && p r) rs
tally-keep p q [] = refl
tally-keep p q (r ∷ rs) = ground (arith, tally-keep p q rs)

pub length-tally : (rs : List Row) → tally (λ r. true) rs ≡ length rs
length-tally [] = refl
length-tally (r ∷ rs) = omega (arith, length-tally rs)

pub tally-fetch_rows :
    (p : Row → Bool) (s : Scope) (rs : List Row)
    → tally p (fetch_rows s rs) ≡ tally (λ r. in_scope s r && p r) rs
unfolding fetch_rows
tally-fetch_rows p s rs =
    omega (arith, tally-newest_first p (keep (in_scope s) rs), tally-keep p (in_scope s) rs)

pub length-fetch_rows :
    (s : Scope) (rs : List Row) → length (fetch_rows s rs) ≡ length (keep (in_scope s) rs)
unfolding fetch_rows
length-fetch_rows s rs = omega (
  arith,
  length-tally (fetch_rows s rs),
  length-tally (keep (in_scope s) rs),
  tally-newest_first (λ r. true) (keep (in_scope s) rs),
  length-tally (newest_first (keep (in_scope s) rs)),
)

pub first_row-append :
    (p : Row → Bool) (xs : List Row) (r : Row)
    → first_row p (xs ++ r ∷ [])
      ≡ elim (first_row p xs) [ some q ↦ some q | none ↦ if p r then some r else none ]
unfolding first_row
first_row-append p [] r = refl
first_row-append p (x ∷ xs) r = ground (arith, first_row-append p xs r)

pub first_row-some :
    (p : Row → Bool) (rs : List Row) (r : Row)
    → first_row p rs ≡ some r
    → (p r ≡ true) × (1 ≤ tally p rs)
unfolding first_row
first_row-some p [] r e = absurd (cc e)
first_row-some p (x ∷ xs) r e = elim (Bool-cases (p x)) [
  | inl hit ↦ let is : x ≡ r = ground (arith, rw hit at e) in (rw (← is) hit, ground arith)
  | inr miss ↦ let rest = first_row-some p xs r (rw miss at e) in (rest.0, ground (arith, rest.1))
]

pub first_row-none : (p : Row → Bool) (rs : List Row) → first_row p rs ≡ none → tally p rs ≡ 0
unfolding first_row
first_row-none p [] e = refl
first_row-none p (x ∷ xs) e = ground (arith, first_row-none p xs)

pub tally_and : (p q : Row → Bool) (rs : List Row) → tally (λ r. p r && q r) rs ≤ tally p rs
tally_and p q [] = omega arith
tally_and p q (r ∷ rs) = ground (arith, tally_and p q rs)

-- Where at most one row passes `p`, and one passes both tests, the first that passes `p` passes `q`.
pub first_row_only :
    (p q : Row → Bool) (rs : List Row)
    → tally p rs ≤ 1
    → 1 ≤ tally (λ r. p r && q r) rs
    → (r : Row) × (first_row p rs ≡ some r) × (p r ≡ true) × (q r ≡ true)
unfolding first_row
first_row_only p q [] once some_row = absurd (omega arith)
first_row_only p q (x ∷ xs) once some_row = elim (Bool-cases (p x)) [
  | inr miss ↦ rw miss (first_row_only p q xs (ground arith) (ground arith))
  | inl hit ↦ elim (Bool-cases (q x)) [
    | inl good ↦ rw hit (x, refl, hit, good)
    | inr bad ↦ absurd (ground (arith, tally_and p q xs))
  ]
]

pub tally_same :
    (p q : Row → Bool) (rs : List Row) → ((r : Row) → p r ≡ q r) → tally p rs ≡ tally q rs
tally_same p q [] h = refl
tally_same p q (r ∷ rs) h = rw (h r, tally_same p q rs h) refl

pub tally_mono :
    (p q : Row → Bool) (rs : List Row)
    → ((r : Row) → p r ≡ true → q r ≡ true)
    → tally p rs ≤ tally q rs
tally_mono p q [] h = omega arith
tally_mono p q (r ∷ rs) h = ground (arith, tally_mono p q rs h, h r)

pub first_row_zero : (p : Row → Bool) (rs : List Row) → tally p rs ≡ 0 → first_row p rs ≡ none
unfolding first_row
first_row_zero p [] h = refl
first_row_zero p (r ∷ rs) h = ground (arith, first_row_zero p rs)

pub first_row_both :
    (p q : Row → Bool) (rs : List Row) (r : Row)
    → first_row p rs ≡ some r
    → q r ≡ true
    → 1 ≤ tally (λ x. p x && q x) rs
unfolding first_row
first_row_both p q [] r e h = absurd (cc e)
first_row_both p q (x ∷ xs) r e h = elim (Bool-cases (p x)) [
  | inl hit ↦
      let is : r ≡ x = ground (arith, rw hit at e) in
      let good : q x ≡ true = rw (← is) h in ground arith
  | inr miss ↦ let rest = first_row_both p q xs r (rw miss at e) h in ground arith
]

pub first_row_same :
    (p q : Row → Bool) (rs : List Row) → ((r : Row) → p r ≡ q r) → first_row p rs ≡ first_row q rs
unfolding first_row
first_row_same p q [] h = refl
first_row_same p q (r ∷ rs) h = rw (h r, first_row_same p q rs h) refl

pub first_row-keep :
    (p q : Row → Bool) (rs : List Row) → first_row p (keep q rs) ≡ first_row (λ r. q r && p r) rs
unfolding first_row
first_row-keep p q [] = refl
first_row-keep p q (r ∷ rs) = elim (Bool-cases (q r)) [
  | inl in_it ↦ rw in_it (rw (first_row-keep p q rs) refl)
  | inr out ↦ rw out (first_row-keep p q rs)
]

-- Where at most one row passes a test, any row that passes it is the first that does.
pub first_row_unique :
    (p q : Row → Bool) (rs : List Row) (r : Row)
    → tally q rs ≤ 1
    → first_row p rs ≡ some r
    → q r ≡ true
    → first_row q rs ≡ some r
unfolding first_row
first_row_unique p q [] r once e h = absurd (cc e)
first_row_unique p q (x ∷ xs) r once e h = elim (Bool-cases (p x)) [
  | inl hit ↦
      let is : x ≡ r = ground (arith, rw hit at e) in
      let good : q x ≡ true = rw is h in rw good (ap some is)
  | inr miss ↦
      let later = rw miss at e in
      let there = first_row_both p q xs r later h in
      elim (Bool-cases (q x)) [
        | inl first ↦
            absurd (ground (arith, tally_mono (λ y. p y && q y) q xs (λ y g. ground arith)))
        | inr other ↦ rw other (first_row_unique p q xs r (ground arith) later h)
      ]
]

first_row-insert_row :
    (p : Row → Bool) (r : Row) (rs : List Row)
    → tally p (r ∷ rs) ≤ 1
    → first_row p (insert_row r rs) ≡ first_row p (r ∷ rs)
unfolding first_row insert_row
first_row-insert_row p r [] once = refl
first_row-insert_row p r (q ∷ qs) once =
    let rest = first_row-insert_row p r qs (ground arith) in
    elim (Bool-cases (newer r q)) [
      | inl first ↦ rw first refl
      | inr later ↦ rw later (elim (Bool-cases (p q)) [
        | inl hit ↦ elim (Bool-cases (p r)) [
          | inl both ↦ absurd (ground arith)
          | inr miss ↦ rw (hit, miss) refl
        ]
        | inr miss ↦ rw miss rest
      ])
    ]

-- Sorting does not change which row is found, where at most one can be.
pub first_row-newest_first :
    (p : Row → Bool) (rs : List Row)
    → tally p rs ≤ 1
    → first_row p (newest_first rs) ≡ first_row p rs
unfolding newest_first first_row
first_row-newest_first p [] once = refl
first_row-newest_first p (r ∷ rs) once =
    first_row-insert_row p r (newest_first rs) (omega (arith, tally-newest_first p rs))
    ∙ ap (λ o. if p r then some r else o) (first_row-newest_first p rs (ground arith))
