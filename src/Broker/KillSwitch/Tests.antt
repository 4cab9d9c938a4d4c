-- ===== src/Broker/KillSwitch/Tests.antt =====
-- The switch tripped by two callers.
use dev_harness.Common.{◌≡◌, refl, [], ◌∷◌}
use dev_harness.Broker.KillSwitch.{new_switch, stop_request, trip}

first_caller_only : (trip "/run/b" (trip "/run/a" new_switch)).sent ≡ stop_request "/run/a" ∷ []
unfolding trip
first_caller_only = refl
