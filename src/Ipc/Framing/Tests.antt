-- ===== src/Ipc/Framing/Tests.antt =====
-- Frames of a concrete codec: a message is one byte.
use dev_harness.Common.{
  ℕ, ◌≡◌, refl, Option, none, some, List, [], ◌∷◌, ◌++◌, arith, nat_eq, string_eq,
}
use dev_harness.Ipc.Framing.{frame, message, encode_with, decode_with, read_with}
use dev_harness.Ipc.Framing.Bytes.{bytes, IsFlowing}
use dev_harness.Ipc.Framing.Laws.{decode-encode, read-decode}

abbrev to_byte : ℕ → List ℕ
to_byte n = n ∷ []

abbrev from_byte : List ℕ → Option ℕ
from_byte (n ∷ []) = some n
from_byte _ = none

abbrev limit : ℕ → ℕ
limit n = 16

made : encode_with to_byte from_byte limit 16 7 ≡ frame (0 ∷ 0 ∷ 0 ∷ 1 ∷ 7 ∷ [])
unfolding encode_with
made = refl

abbrev arriving : List (List ℕ)
arriving = (0 ∷ 0 ∷ []) ∷ (0 ∷ 1 ∷ 7 ∷ 0 ∷ []) ∷ []

arriving-IsFlowing : IsFlowing arriving
arriving-IsFlowing = (omega arith, (omega arith, tt))

decode-encode_example :
    decode_with to_byte from_byte limit 16 ((0 ∷ 0 ∷ 0 ∷ 1 ∷ 7 ∷ []) ++ (9 ∷ [])) ≡ message 7
decode-encode_example =
    decode-encode to_byte from_byte limit 16 7 (0 ∷ 0 ∷ 0 ∷ 1 ∷ 7 ∷ []) (9 ∷ []) (omega arith) refl
      made

read-decode_example :
    (read_with to_byte from_byte limit 16 arriving).0
    ≡ decode_with to_byte from_byte limit 16 (bytes arriving)
read-decode_example = read-decode to_byte from_byte limit 16 arriving arriving-IsFlowing
