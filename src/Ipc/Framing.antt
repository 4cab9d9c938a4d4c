-- ===== src/Ipc/Framing.antt =====
-- ipc/framing.py: frames of a 4-byte big-endian length and a body. Bytes are numbers below 256. The
-- JSON codec of the message type is a parameter; `none` of `from_json` is the validation error.
pub mod Bytes
pub mod Laws
mod Tests
use dev_harness.Common.{
  ℕ, zero, suc, ◌+◌, ◌-◌, ◌*◌, ◌/◌, ◌%◌, ◌^◌, ◌≤◌, ◌<◌, min, String, ◌≡◌, refl, sym, ap, ◌∙◌, ◌≢◌,
  ◌↔◌, ◌⊎◌, inl, inr, Bool, true, false, not, ◌&&◌, ◌||◌, Option, none, some, List, [], ◌∷◌, ◌++◌,
  map, append-nil, append_assoc, arith, ltb, leb, ltb→lt, leb→le, le→leb, lt→leb_false, Eq, ◌==◌,
  nat_eq, string_eq, beq_refl, beq_sym_false, Bool-cases, Option-cases, if◌then◌else◌, length, take,
  drop, keep, length-append, keep-append,
}
use dev_harness.Contracts.Enums.{EventType, snapshot, event_eq}
use dev_harness.Contracts.Events.{Envelope}

abbrev pub prefix_len : ℕ
prefix_len = 4

abbrev pub max_stream_frame : ℕ
max_stream_frame = 1048576

abbrev pub max_snapshot_frame : ℕ
max_snapshot_frame = 16777216

abbrev pub global_max_frame : ℕ
global_max_frame = max_snapshot_frame

abbrev pub max_frame_for : EventType → ℕ
max_frame_for t = if t == snapshot then max_snapshot_frame else max_stream_frame

-- `struct.Struct(">I")`: `none` is the `struct.error` of a number that does not fit.
abbrev pub pack : ℕ → Option (List ℕ)
pack n =
    if ltb n 4294967296
    then some (n / 16777216 ∷ n / 65536 % 256 ∷ n / 256 % 256 ∷ n % 256 ∷ [])
    else none

abbrev pub unpack : List ℕ → ℕ
unpack (a ∷ b ∷ c ∷ d ∷ _) = a * 16777216 + b * 65536 + c * 256 + d
unpack _ = 0

pub data Encoded : Type 0 where
  frame : List ℕ → Encoded
  struct_error : Encoded
  frame_too_large : Encoded

pub data Decoded (M : Type 0) : Type 0 where
  message : M → Decoded M
  incomplete : Decoded M
  too_large : Decoded M
  invalid : Decoded M

-- What is left to read of a byte stream: the segments in which it arrives. A `recv` gives at most the
-- bytes of one segment, and no bytes at the end of the stream.
abbrev pub Stream : Type 0
Stream = List (List ℕ)

unfoldable pub recv : ℕ → Stream → List ℕ × Stream
recv n [] = ([], [])
recv n (segment ∷ s) =
    if leb (length segment) n then (segment, s) else (take n segment, drop n segment ∷ s)

-- The loop of `read_exactly`; `n` rounds are enough for `n` bytes, since no round but the last is
-- without a byte.
unfoldable pub read_loop : ℕ → ℕ → Stream → List ℕ × Stream
unfolding recv
read_loop zero remaining s = ([], s)
read_loop (suc fuel) remaining s =
    let (chunk, s') = recv remaining s in
    let (later, s'') = read_loop fuel (remaining - length chunk) s' in
    if remaining == 0
    then ([], s)
    else if length chunk == 0
    then ([], s')
    else (chunk ++ later, s'')

unfoldable pub read_exactly : ℕ → Stream → List ℕ × Stream
unfolding read_loop
read_exactly n s = read_loop n n s

module _ {M : Type 0} (to_json : M → List ℕ) (from_json : List ℕ → Option M) (limit : M → ℕ)
    (ceiling : ℕ) where
  encode_body : M → List ℕ → Option (List ℕ) → Encoded
  encode_body m body none = struct_error
  encode_body m body (some prefix) =
      if ltb (limit m) (length (prefix ++ body)) then frame_too_large else frame (prefix ++ body)

  unfoldable pub encode_with : M → Encoded
  unfolding encode_body
  encode_with m = let body = to_json m in encode_body m body (pack (length body))

  validated : Option M → Decoded M
  validated none = invalid
  validated (some m) = message m

  unfoldable pub decode_with : List ℕ → Decoded M
  unfolding validated
  decode_with input =
      let n = unpack input in
      if ltb (length input) prefix_len
      then incomplete
      else if ltb ceiling n
      then too_large
      else if ltb (length input) (prefix_len + n)
      then incomplete
      else validated (from_json (take n (drop prefix_len input)))

  unfoldable pub read_with : Stream → Decoded M × Stream
  unfolding validated
  read_with s =
      let (prefix, s') = read_exactly prefix_len s in
      let n = unpack prefix in
      let (body, s'') = read_exactly n s' in
      if ltb (length prefix) prefix_len
      then (incomplete, s')
      else if ltb ceiling n
      then (too_large, s')
      else (if ltb (length body) n then incomplete else validated (from_json body), s'')

-- The frames of the engine: an envelope's type gives the limit of its frame.
module _ (to_json : Envelope → List ℕ) (from_json : List ℕ → Option Envelope) where
  abbrev pub frame_limit : Envelope → ℕ
  frame_limit e = max_frame_for e.type

  unfoldable pub encode : Envelope → Encoded
  encode = encode_with to_json from_json frame_limit global_max_frame

  unfoldable pub decode_frame : List ℕ → Decoded Envelope
  decode_frame = decode_with to_json from_json frame_limit global_max_frame

  unfoldable pub read_frame : Stream → Decoded Envelope × Stream
  read_frame = read_with to_json from_json frame_limit global_max_frame
