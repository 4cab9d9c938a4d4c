-- ===== src/Broker/Protocol.antt =====
-- broker/protocol.py: the broker's messages and their frames, by the same framing as ipc/framing.py
-- with one limit. Every decoding error is a `ValueError`. The JSON codec and the type of a message's
-- `data` are parameters.
pub mod Laws
mod Tests
use dev_harness.Common.{ℕ, String, Bool, Option, List}
use dev_harness.Ipc.Framing.{Encoded, Decoded, Stream, encode_with, decode_with, read_with}

abbrev pub max_broker_frame : ℕ
max_broker_frame = 1048576

pub record BrokerMessage (D : Type 0) : Type 0 where
  pub op : String
  pub ok : Bool
  pub body : D

module _ {D : Type 0} (to_json : BrokerMessage D → List ℕ)
    (from_json : List ℕ → Option (BrokerMessage D)) where
  abbrev pub broker_limit : BrokerMessage D → ℕ
  broker_limit m = max_broker_frame

  unfoldable pub encode : BrokerMessage D → Encoded
  encode = encode_with to_json from_json broker_limit max_broker_frame

  unfoldable pub decode_frame : List ℕ → Decoded (BrokerMessage D)
  decode_frame = decode_with to_json from_json broker_limit max_broker_frame

  unfoldable pub read_frame : Stream → Decoded (BrokerMessage D) × Stream
  read_frame = read_with to_json from_json broker_limit max_broker_frame
