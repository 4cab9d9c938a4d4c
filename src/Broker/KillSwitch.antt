-- ===== src/Broker/KillSwitch.antt =====
-- broker/kill_switch.py. `sent` is what the switch has handed to its `emit`, oldest first.
pub mod Laws
mod Tests
use Prim.Native.String.{◌++◌ as ◌<>◌}
use dev_harness.Common.{
  ℕ, zero, suc, ◌+◌, ◌-◌, ◌*◌, ◌/◌, ◌%◌, ◌^◌, ◌≤◌, ◌<◌, min, String, ◌≡◌, refl, sym, ap, ◌∙◌, ◌≢◌,
  ◌↔◌, ◌⊎◌, inl, inr, Bool, true, false, not, ◌&&◌, ◌||◌, Option, none, some, List, [], ◌∷◌, ◌++◌,
  map, append-nil, append_assoc, arith, ltb, leb, ltb→lt, leb→le, le→leb, lt→leb_false, Eq, ◌==◌,
  nat_eq, string_eq, beq_refl, beq_sym_false, Bool-cases, Option-cases, if◌then◌else◌, length, take,
  drop, keep, length-append, keep-append,
}
use dev_harness.Contracts.Enums.{stop, interrupt_request}
use dev_harness.Contracts.Events.{Envelope, interrupt_request_payload}

pub record KillSwitch : Type 0 where
  pub tripped : Bool
  pub emitted : ℕ
  pub sent : List Envelope

abbrev pub new_switch : KillSwitch
new_switch = record { tripped = false; emitted = 0; sent = [] }

abbrev pub stop_request : String → Envelope
stop_request callback = record {
  type = interrupt_request;
  seq = 0;
  payload = interrupt_request_payload stop (◌<>◌ "BUDGET:" callback);
}

unfoldable pub trip : String → KillSwitch → KillSwitch
trip callback k = if k.tripped then k else record {
  tripped = true;
  emitted = k.emitted + 1;
  sent = k.sent ++ stop_request callback ∷ [];
}

-- `false` is the raised `BudgetExceededError`.
unfoldable pub check : KillSwitch → Bool
check k = not k.tripped
