-- ===== src/Broker/Protocol/Tests.antt =====
-- A message of one byte.
use dev_harness.Common.{
  ℕ, ◌≡◌, refl, true, Option, none, some, List, [], ◌∷◌, arith, nat_eq, string_eq,
}
use dev_harness.Ipc.Framing.{Stream, frame, message}
use dev_harness.Ipc.Framing.Bytes.{IsFlowing}
use dev_harness.Broker.Protocol.{BrokerMessage, encode}

abbrev health : ℕ → BrokerMessage ℕ
health n = record { op = "HEALTH"; ok = true; body = n }

abbrev to_byte : BrokerMessage ℕ → List ℕ
to_byte m = m.body ∷ []

abbrev from_byte : List ℕ → Option (BrokerMessage ℕ)
from_byte (n ∷ []) = some (health n)
from_byte _ = none

made : encode to_byte from_byte (health 7) ≡ frame (0 ∷ 0 ∷ 0 ∷ 1 ∷ 7 ∷ [])
unfolding encode dev_harness.Ipc.Framing.encode_with
made = refl

abbrev arriving : Stream
arriving = (0 ∷ 0 ∷ []) ∷ (0 ∷ 1 ∷ 7 ∷ 9 ∷ []) ∷ []

arriving-IsFlowing : IsFlowing arriving
arriving-IsFlowing = (omega arith, (omega arith, tt))
