-- ===== src/Broker/Reservation/Tests.antt =====
-- One reservation of a store.
use dev_harness.Common.{◌-◌, ◌≡◌, some, [], nat_eq, string_eq}
use dev_harness.Dict
use dev_harness.Contracts.Enums.{ollama}
use dev_harness.Broker.Reservation.{
  Reservation, ReservationStore, new_store, create, commit, release,
}
use dev_harness.Broker.Reservation.Laws.{lookup, created, commit-release}

abbrev held : ReservationStore
held = created 5 "r1" ollama 60000 "/run/a" new_store

abbrev granted : Reservation
granted = (create 5 "r1" ollama 60000 "/run/a" new_store).1

held_found : lookup "r1" held ≡ some granted
unfolding create
held_found = Dict.get-put_self "r1" granted []

commit-release_example :
    let (s', unused) = commit "r1" 10000 held in
    (unused ≡ granted.tokens - 10000) × ((release "r1" s').1 ≡ granted.tokens)
commit-release_example = commit-release "r1" 10000 held granted held_found
