-- ===== src/Broker/Reservation.antt =====
-- broker/reservation.py: the store of reservations. A reading of the clock and the fresh id of
-- `uuid4` are arguments.
pub mod Laws
mod Tests
use dev_harness.Common.{
  ℕ, zero, suc, ◌+◌, ◌-◌, String, Bool, true, false, Option, none, some, List, [], ◌∷◌, map, ltb,
  length, string_eq, if◌then◌else◌,
}
use dev_harness.Dict
use dev_harness.Dict.{Dict}
use dev_harness.Contracts.Enums.{ProviderId}

abbrev pub ttl_seconds : ℕ
ttl_seconds = 120000

pub record Reservation : Type 0 where
  pub reservation_id : String
  pub provider : ProviderId
  pub tokens : ℕ
  pub callback_endpoint : String
  pub created_at : ℕ
  pub expires_at : ℕ
  pub committed : Bool
  pub released : Bool

pub record ReservationStore : Type 0 where
  pub ttl : ℕ
  pub reservations : Dict String Reservation

abbrev pub new_store : ReservationStore
new_store = record { ttl = ttl_seconds; reservations = [] }

unfoldable pub create :
    ℕ → String → ProviderId → ℕ → String → ReservationStore → ReservationStore × Reservation
create now id provider tokens callback s =
    let r : Reservation = record {
      reservation_id = id;
      provider = provider;
      tokens = tokens;
      callback_endpoint = callback;
      created_at = now;
      expires_at = now + s.ttl;
      committed = false;
      released = false;
    } in
    (record s { reservations = Dict.put id r s.reservations }, r)

abbrev pub has_expired : ℕ → Reservation → Bool
has_expired now r = ltb r.expires_at now

-- `get` drops a reservation that it finds expired.
found : ℕ → String → ReservationStore → Option Reservation → ReservationStore × Option Reservation
found now id s none = (s, none)
found now id s (some r) =
    if has_expired now r
    then (record s { reservations = Dict.remove id s.reservations }, none)
    else (s, some r)

unfoldable pub get : ℕ → String → ReservationStore → ReservationStore × Option Reservation
unfolding found
get now id s = found now id s (Dict.get id s.reservations)

-- `max(0.0, tokens - actual)` is the truncated difference.
commit_found : String → ℕ → ReservationStore → Option Reservation → ReservationStore × ℕ
commit_found id actual s none = (s, 0)
commit_found id actual s (some r) = (
  record s { reservations = Dict.put id (record r { committed = true }) s.reservations },
  r.tokens - actual,
)

unfoldable pub commit : String → ℕ → ReservationStore → ReservationStore × ℕ
unfolding commit_found
commit id actual s = commit_found id actual s (Dict.get id s.reservations)

release_found : String → ReservationStore → Option Reservation → ReservationStore × ℕ
release_found id s none = (s, 0)
release_found id s (some r) = (record s { reservations = Dict.remove id s.reservations }, r.tokens)

unfoldable pub release : String → ReservationStore → ReservationStore × ℕ
unfolding release_found
release id s = release_found id s (Dict.get id s.reservations)

-- The loop of `reap_expired` over a snapshot of the items; what is left of the dict comes beside.
unfoldable pub reap_items :
    ℕ
    → List (String × Reservation)
    → Dict String Reservation
    → Dict String Reservation × List Reservation
reap_items now [] d = (d, [])
reap_items now ((id, r) ∷ items) d =
    let (d', expired) = reap_items now items (if has_expired now r then Dict.remove id d else d) in
    (d', if has_expired now r then r ∷ expired else expired)

unfoldable pub reap_expired : ℕ → ReservationStore → ReservationStore × List Reservation
unfolding reap_items
reap_expired now s =
    let (d, expired) = reap_items now s.reservations s.reservations in
    (record s { reservations = d }, expired)

unfoldable pub live_count : ReservationStore → ℕ
live_count s = length s.reservations

unfoldable pub all : ReservationStore → List Reservation
all s = map (λ (item : String × Reservation). item.1) s.reservations
