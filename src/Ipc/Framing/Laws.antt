-- ===== src/Ipc/Framing/Laws.antt =====
-- ipc/framing.py and broker/protocol.py: the round trip of a frame, over a byte string and over a
-- stream, and its truncation.
use dev_harness.Common.{
  ℕ, ◌+◌, ◌-◌, ◌≤◌, ◌<◌, min, ◌≡◌, refl, sym, ap, ◌∙◌, inl, inr, true, false, Option, none, some,
  List, ◌++◌, append_assoc, arith, ltb, le_or_lt, Bool-cases, length, take, drop, length-append,
  length-take, length-drop, take-append, take_all, take-append_length, drop-append_length,
}
use dev_harness.Ipc.Framing.{
  Stream, pack, unpack, frame, message, incomplete, encode_body, encode_with, validated,
  decode_with, read_with, read_exactly,
}
use dev_harness.Ipc.Framing.Bytes.{
  bytes, IsFlowing, pack-unpack, pack-length, unpack-append, unpack-take, read_exactly-IsRead,
}

module _ {M : Type 0} (to_json : M → List ℕ) (from_json : List ℕ → Option M) (limit : M → ℕ)
    (ceiling : ℕ) where
  -- What a frame that was encoded is made of.
  record IsFrame (m : M) (f : List ℕ) : Type 0 where
    prefix : List ℕ
    packed : pack (length (to_json m)) ≡ some prefix
    whole : f ≡ prefix ++ to_json m
    fits : length f ≤ limit m

  encode_body-IsFrame :
      (m : M) (p : Option (List ℕ)) (f : List ℕ)
      → pack (length (to_json m)) ≡ p
      → encode_body to_json from_json limit ceiling m (to_json m) p ≡ frame f
      → IsFrame m f
  unfolding encode_body
  encode_body-IsFrame m none f packed h = ground arith
  encode_body-IsFrame m (some p) f packed h = record {
    prefix = p;
    packed = packed;
    whole = ground arith;
    fits = ground arith;
  }

  encode-IsFrame :
      (m : M) (f : List ℕ) → encode_with to_json from_json limit ceiling m ≡ frame f → IsFrame m f
  unfolding encode_with
  encode-IsFrame m f h = encode_body-IsFrame m _ f refl h

  decode_whole :
      (m : M) (p rest : List ℕ)
      → pack (length (to_json m)) ≡ some p
      → length (to_json m) ≤ ceiling
      → from_json (to_json m) ≡ some m
      → decode_with to_json from_json limit ceiling (p ++ (to_json m ++ rest)) ≡ message m
  unfolding decode_with validated
  decode_whole m p rest packed fits parsed =
      let body = to_json m in
      let four = pack-length (length body) packed in
      let n : unpack (p ++ (body ++ rest)) ≡ length body =
        unpack-append p _ four ∙ pack-unpack (length body) packed in
      let total : length (p ++ (body ++ rest)) ≡ 4 + (length body + length rest) =
        omega (arith, length-append p (body ++ rest), length-append body rest) in
      let behind : drop 4 (p ++ (body ++ rest)) ≡ body ++ rest =
        rw (sym four) (drop-append_length p (body ++ rest)) in
      let long : ltb (4 + (length body + length rest)) 4 ≡ false = ground arith in
      let small : ltb ceiling (length body) ≡ false = ground arith in
      let there : ltb (4 + (length body + length rest)) (4 + length body) ≡ false = ground arith in
      rw (n, total, behind, long, small, there, take-append_length, parsed)

  -- A frame that `encode` makes of a message decodes to that message, whatever bytes follow it, when
  -- the message's limit is within the ceiling and the JSON codec reads back what it wrote.
  pub decode-encode :
      (m : M) (f rest : List ℕ)
      → limit m ≤ ceiling
      → from_json (to_json m) ≡ some m
      → encode_with to_json from_json limit ceiling m ≡ frame f
      → decode_with to_json from_json limit ceiling (f ++ rest) ≡ message m
  decode-encode m f rest under parsed made =
      let w = encode-IsFrame m f made in
      let size : length (to_json m) ≤ ceiling =
        omega (arith, w.fits, ap length w.whole, length-append w.prefix (to_json m)) in
      rw (w.whole, append_assoc) (decode_whole m w.prefix rest w.packed size parsed)

  -- Reading a frame from a stream gives what decoding all of the stream's bytes gives, errors
  -- included, however the bytes are split over the stream's segments.
  pub read-decode :
      (s : Stream)
      → IsFlowing s
      → (read_with to_json from_json limit ceiling s).0
        ≡ decode_with to_json from_json limit ceiling (bytes s)
  unfolding read_with decode_with
  read-decode s flowing =
      let head = read_exactly-IsRead 4 s flowing in
      let size : length (read_exactly 4 s).0 ≡ min 4 (length (bytes s)) =
        ap length head.read ∙ length-take 4 (bytes s) in
      elim (le_or_lt 4 (length (bytes s))) [
        | inr short ↦
            let ended : ltb (length (read_exactly 4 s).0) 4 ≡ true = ground arith in
            let few : ltb (length (bytes s)) 4 ≡ true = ground arith in rw (ended, few)
        | inl long ↦
            let n = unpack (bytes s) in
            let whole : ltb (length (read_exactly 4 s).0) 4 ≡ false = ground arith in
            let many : ltb (length (bytes s)) 4 ≡ false = ground arith in
            let declared : unpack (read_exactly 4 s).0 ≡ n =
              ap unpack head.read ∙ unpack-take (bytes s) long in
            let tail = read_exactly-IsRead n (read_exactly 4 s).1 head.flows in
            let got : (read_exactly n (read_exactly 4 s).1).0 ≡ take n (drop 4 (bytes s)) =
              tail.read ∙ ap (take n) head.left in
            let same : ltb (length (take n (drop 4 (bytes s)))) n ≡ ltb (length (bytes s)) (4 + n) =
              ground (arith, length-take n (drop 4 (bytes s)), length-drop 4 (bytes s)) in
            elim (Bool-cases (ltb ceiling n)) [
              | inl over ↦ rw (whole, many, declared, over)
              | inr under ↦ rw (whole, many, declared, under, got, same)
            ]
      ]

  decode_cut :
      (p part : List ℕ) (n : ℕ)
      → length p ≡ 4
      → unpack p ≡ n
      → n ≤ ceiling
      → length part < n
      → decode_with to_json from_json limit ceiling (p ++ part) ≡ incomplete
  unfolding decode_with
  decode_cut p part n four declared under cut =
      let total : length (p ++ part) ≡ 4 + length part = omega (arith, length-append p part) in
      let enough : ltb (4 + length part) 4 ≡ false = ground arith in
      let small : ltb ceiling n ≡ false = ground arith in
      let short : ltb (4 + length part) (4 + n) ≡ true = ground arith in
      rw (unpack-append p part four, declared, total, enough, small, short)

  -- A proper prefix of a frame that `encode` makes decodes to no message: it is incomplete.
  pub decode-take_encode :
      (m : M) (f : List ℕ) (k : ℕ)
      → limit m ≤ ceiling
      → encode_with to_json from_json limit ceiling m ≡ frame f
      → k < length f
      → decode_with to_json from_json limit ceiling (take k f) ≡ incomplete
  decode-take_encode m f k under made cut =
      let w = encode-IsFrame m f made in
      let four = pack-length (length (to_json m)) w.packed in
      let size : length f ≡ 4 + length (to_json m) =
        omega (arith, ap length w.whole, length-append w.prefix (to_json m)) in
      let small : length (to_json m) ≤ ceiling = omega (arith, w.fits) in
      elim (le_or_lt 4 k) [
        | inl long ↦
            let split : take k f ≡ w.prefix ++ take (k - 4) (to_json m) =
              rw (w.whole, take-append, four, take_all k w.prefix (omega arith)) in
            rw split (
              decode_cut w.prefix (take (k - 4) (to_json m)) (length (to_json m)) four
                (pack-unpack _ w.packed) small (omega (arith, length-take (k - 4) (to_json m))))
        | inr short ↦
            let few : ltb (length (take k f)) 4 ≡ true = ground (arith, length-take k f) in
            unfold decode_with in rw few
      ]
