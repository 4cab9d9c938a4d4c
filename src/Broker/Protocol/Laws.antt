-- ===== src/Broker/Protocol/Laws.antt =====
-- broker/protocol.py: a message that is written is read back.
use dev_harness.Common.{ℕ, ◌≡◌, ap, ◌∙◌, Option, some, List, ◌++◌, arith, nat_eq, string_eq}
use dev_harness.Ipc.Framing.{Stream, frame, message, decode_with}
use dev_harness.Ipc.Framing.Bytes.{bytes, IsFlowing}
use dev_harness.Ipc.Framing.Laws.{decode-encode, read-decode}
use dev_harness.Broker.Protocol.{BrokerMessage, max_broker_frame, broker_limit, encode, read_frame}

module _ {D : Type 0} (to_json : BrokerMessage D → List ℕ)
    (from_json : List ℕ → Option (BrokerMessage D)) where
  -- A broker message that `encode` accepts is what `read_frame` reads from a stream that begins with
  -- its frame, however the stream is split into segments and whatever follows the frame, when the JSON
  -- codec reads back what it wrote.
  pub read_frame-encode :
      (m : BrokerMessage D) (f rest : List ℕ) (s : Stream)
      → from_json (to_json m) ≡ some m
      → encode to_json from_json m ≡ frame f
      → IsFlowing s
      → bytes s ≡ f ++ rest
      → (read_frame to_json from_json s).0 ≡ message m
  unfolding encode read_frame
  read_frame-encode m f rest s parsed made flowing arrives =
      let limit = broker_limit to_json from_json in
      read-decode to_json from_json limit max_broker_frame s flowing
      ∙ ap (decode_with to_json from_json limit max_broker_frame) arrives
      ∙ decode-encode to_json from_json limit max_broker_frame m f rest (omega arith) parsed made
