-- ===== src/Broker/Reservation/Laws.antt =====
-- The life of a reservation: created, committed or released, or reaped.
use dev_harness.Common.{
  ℕ, ◌+◌, ◌-◌, ◌≤◌, ◌<◌, String, ◌≡◌, refl, ◌∙◌, inl, inr, Bool, false, ◌&&◌, ◌||◌, Option, none,
  some, List, [], ◌∷◌, arith, ◌==◌, nat_eq, string_eq, Bool-cases, Option-cases, if◌then◌else◌,
}
use dev_harness.Dict
use dev_harness.Dict.{Dict, dict_laws, get-put, get-remove}
use dev_harness.Contracts.Enums.{ProviderId}
use dev_harness.Broker.Reservation.{
  Reservation, ReservationStore, create, has_expired, get, commit, release, reap_items,
  reap_expired,
}

abbrev pub lookup : String → ReservationStore → Option Reservation
lookup id s = Dict.get id s.reservations

module _ (now : ℕ) (id : String) (p : ProviderId) (t : ℕ) (callback : String)
    (s : ReservationStore) where
  abbrev pub created : ReservationStore
  created = (create now id p t callback s).0

  lookup-create : lookup id created ≡ some (create now id p t callback s).1
  unfolding create
  lookup-create = simp dict_laws

  -- A reservation is found until its time to live has passed and then no more; releasing it returns
  -- the tokens that were reserved, and leaves nothing to release a second time.
  pub create_life :
      ((later : ℕ)
        → later ≤ now + s.ttl
        → (get later id created).1 ≡ some (create now id p t callback s).1)
      × ((later : ℕ) → now + s.ttl < later → (get later id created).1 ≡ none)
      × ((release id created).1 ≡ t)
      × ((release id (release id created).0).1 ≡ 0)
  unfolding create get release
  create_life = (
    λ later h. simp dict_laws (ground arith),
    λ later h. simp dict_laws (ground arith),
    simp dict_laws,
    simp dict_laws,
  )

-- The reservations that have expired.
abbrev pub unexpired : ℕ → Option Reservation → Option Reservation
unexpired now none = none
unexpired now (some r) = if has_expired now r then none else some r

-- One of the items has this id and has expired.
abbrev listed : ℕ → String → List (String × Reservation) → Bool
listed now id [] = false
listed now id ((j, r) ∷ items) = (j == id && has_expired now r) || listed now id items

get-reap_items :
    (now : ℕ) (id : String) (items : List (String × Reservation)) (d : Dict String Reservation)
    → Dict.get id (reap_items now items d).0 ≡ (if listed now id items then none else Dict.get id d)
unfolding reap_items
get-reap_items now id [] d = refl
get-reap_items now id ((j, r) ∷ items) d = elim (Bool-cases (has_expired now r)) [
  | inl late ↦
      rw (late, get-reap_items now id items (Dict.remove j d)) (simp get-remove (ground arith))
  | inr early ↦ rw (early, get-reap_items now id items d) (ground arith)
]

listed_absent :
    (now : ℕ) (id : String) (d : Dict String Reservation)
    → Dict.get id d ≡ none
    → listed now id d ≡ false
unfolding Dict.get
listed_absent now id [] h = refl
listed_absent now id ((j, r) ∷ d) h = ground (arith, listed_absent now id d)

listed-IsUnique :
    (now : ℕ) (id : String) (d : Dict String Reservation)
    → Dict.IsUnique d
    → (if listed now id d then none else Dict.get id d) ≡ unexpired now (Dict.get id d)
unfolding Dict.get
listed-IsUnique now id [] u = refl
listed-IsUnique now id ((j, r) ∷ d) u = elim (Bool-cases (j == id)) [
  | inl same ↦
      let absent = listed_absent now id d (rw ((string_eq.beq_iff j id).0 same) at u.0) in
      rw same (ground arith)
  | inr other ↦ rw other (listed-IsUnique now id d u.1)
]

-- After `reap_expired` a lookup finds exactly the reservations that have not expired, unchanged.
pub lookup-reap_expired :
    (now : ℕ) (id : String) (s : ReservationStore)
    → Dict.IsUnique s.reservations
    → lookup id (reap_expired now s).0 ≡ unexpired now (lookup id s)
unfolding reap_expired
lookup-reap_expired now id s u =
    get-reap_items now id s.reservations s.reservations ∙ listed-IsUnique now id s.reservations u

-- What a client gives back over a COMMIT and a later RELEASE of one reservation: the commit returns
-- what was not used, and the release returns all that was reserved once more. So the two together
-- return more than was reserved whenever less was used than reserved.
pub commit-release :
    (id : String) (actual : ℕ) (s : ReservationStore) (r : Reservation)
    → lookup id s ≡ some r
    → let (s', unused) = commit id actual s in
      (unused ≡ r.tokens - actual) × ((release id s').1 ≡ r.tokens)
unfolding commit release
commit-release id actual s r h = rw h (refl, simp dict_laws)

-- The store stays a dict, with each id once.
abbrev pub IsStore : ReservationStore → Type 0
IsStore s = Dict.IsUnique s.reservations

pub create-IsStore :
    (now : ℕ) (id : String) (p : ProviderId) (t : ℕ) (callback : String) (s : ReservationStore)
    → IsStore s
    → IsStore (create now id p t callback s).0
unfolding create
create-IsStore now id p t callback s u = Dict.put-IsUnique id _ s.reservations u

pub commit-IsStore :
    (id : String) (actual : ℕ) (s : ReservationStore) → IsStore s → IsStore (commit id actual s).0
unfolding commit
commit-IsStore id actual s u = elim (Option-cases (lookup id s)) [
  | inl absent ↦ rw (absent, commit) u
  | inr (r, present) ↦ rw (present, commit) (Dict.put-IsUnique id _ s.reservations u)
]

pub release-IsStore : (id : String) (s : ReservationStore) → IsStore s → IsStore (release id s).0
unfolding release
release-IsStore id s u = elim (Option-cases (lookup id s)) [
  | inl absent ↦ rw (absent, release) u
  | inr (r, present) ↦ rw (present, release) (Dict.remove-IsUnique id s.reservations u)
]
