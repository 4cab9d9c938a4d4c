-- ===== src/Broker/KillSwitch/Laws.antt =====
-- The switch emits one interrupt and stays tripped.
use dev_harness.Common.{String, ◌≡◌, refl, true, false, List, [], ◌∷◌, nat_eq, string_eq}
use dev_harness.Broker.KillSwitch.{KillSwitch, new_switch, stop_request, trip, check}

unfoldable pub trip_all : List String → KillSwitch → KillSwitch
trip_all [] k = k
trip_all (c ∷ cs) k = trip_all cs (trip c k)

trip_all_tripped : (cs : List String) (k : KillSwitch) → k.tripped ≡ true → trip_all cs k ≡ k
unfolding trip_all
trip_all_tripped [] k h = refl
trip_all_tripped (c ∷ cs) k h =
    let same : trip c k ≡ k = unfold trip in rw h in rw (same, trip_all) (trip_all_tripped cs k h)

-- However often a new switch is tripped after the first time, it has emitted exactly one interrupt,
-- the STOP request to the first callback endpoint, and refuses every check.
pub trip_all_once :
    (c : String) (cs : List String)
    → let k = trip_all (c ∷ cs) new_switch in
      (k.sent ≡ stop_request c ∷ []) × (k.emitted ≡ 1) × (check k ≡ false)
unfolding trip_all trip check
trip_all_once c cs = rw (trip_all_tripped cs (trip c new_switch) refl) (refl, refl, refl)
