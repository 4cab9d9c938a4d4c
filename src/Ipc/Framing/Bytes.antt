-- ===== src/Ipc/Framing/Bytes.antt =====
-- ipc/framing.py: what `read_exactly` reads, however the bytes arrive, and the length prefix.
use dev_harness.Common.{
  ℕ, zero, suc, ◌-◌, ◌≤◌, ◌<◌, ◌≡◌, refl, ◌≢◌, inl, inr, false, some, List, [], ◌∷◌, ◌++◌,
  append-nil, arith, leb, lt→leb_false, le_or_lt, ◌==◌, nat_eq, string_eq, length, take, drop,
  length-take, length-drop, take-append, drop-append, take_all, drop_all,
}
use dev_harness.Ipc.Framing.{Stream, read_loop, read_exactly, pack, unpack}

-- The bytes that are still to come.
abbrev pub bytes : Stream → List ℕ
bytes [] = []
bytes (segment ∷ s) = segment ++ bytes s

-- No segment is empty, as on a socket, where an empty read is the end.
abbrev pub IsFlowing : Stream → Type 0
IsFlowing [] = Unit
IsFlowing (segment ∷ s) = (1 ≤ length segment) × IsFlowing s

pub pack-unpack : (n : ℕ) {p : List ℕ} → pack n ≡ some p → unpack p ≡ n
pack-unpack n h = ground arith

pub pack-length : (n : ℕ) {p : List ℕ} → pack n ≡ some p → length p ≡ 4
pack-length n h = ground arith

pub unpack-append : (p xs : List ℕ) → length p ≡ 4 → unpack (p ++ xs) ≡ unpack p
unpack-append [] xs h = ground arith
unpack-append (a ∷ []) xs h = ground arith
unpack-append (a ∷ b ∷ []) xs h = ground arith
unpack-append (a ∷ b ∷ c ∷ []) xs h = ground arith
unpack-append (a ∷ b ∷ c ∷ d ∷ p) xs h = refl

pub unpack-take : (xs : List ℕ) → 4 ≤ length xs → unpack (take 4 xs) ≡ unpack xs
unpack-take [] h = ground arith
unpack-take (a ∷ []) h = ground arith
unpack-take (a ∷ b ∷ []) h = ground arith
unpack-take (a ∷ b ∷ c ∷ []) h = ground arith
unpack-take (a ∷ b ∷ c ∷ d ∷ p) h = refl

-- What one `read_exactly` of `n` bytes makes of a stream.
pub record IsRead (n : ℕ) (s : Stream) (r : List ℕ × Stream) : Type 0 where
  pub read : r.0 ≡ take n (bytes s)
  pub left : bytes r.1 ≡ drop n (bytes s)
  pub flows : IsFlowing r.1

read_loop_end : (fuel : ℕ) (s : Stream) → read_loop fuel 0 s ≡ ([], s)
unfolding read_loop
read_loop_end zero s = refl
read_loop_end (suc fuel) s = refl

read_segment :
    (fuel remaining : ℕ) (segment : List ℕ) (s : Stream)
    → remaining ≢ 0
    → length segment ≤ remaining
    → 1 ≤ length segment
    → read_loop (suc fuel) remaining (segment ∷ s) ≡ (
      segment ++ (read_loop fuel (remaining - length segment) s).0,
      (read_loop fuel (remaining - length segment) s).1,
    )
unfolding read_loop
read_segment fuel remaining segment s more fits full = ground arith

read_part :
    (fuel remaining : ℕ) (segment : List ℕ) (s : Stream)
    → remaining ≢ 0
    → remaining < length segment
    → read_loop (suc fuel) remaining (segment ∷ s)
      ≡ (take remaining segment, drop remaining segment ∷ s)
unfolding read_loop
read_part fuel remaining segment s more fits =
    let asked : (remaining == 0) ≡ false = ground arith in
    let short : leb (length segment) remaining ≡ false = lt→leb_false _ _ fits in
    let got : length (take remaining segment) ≡ remaining =
      omega (arith, length-take remaining segment) in
    let done : remaining - remaining ≡ 0 = omega arith in
    rw (asked, short, got, asked, done, read_loop_end fuel, append-nil)

nothing-IsRead : (s : Stream) → IsFlowing s → IsRead 0 s ([], s)
nothing-IsRead s flowing = record { read = refl; left = refl; flows = flowing }

segment-IsRead :
    (n : ℕ) (segment : List ℕ) (s : Stream) (r : List ℕ × Stream)
    → length segment ≤ n
    → IsRead (n - length segment) s r
    → IsRead n (segment ∷ s) (segment ++ r.0, r.1)
segment-IsRead n segment s r fits done = record {
  read = rw (take-append, take_all n segment fits, done.read);
  left = rw (drop-append, drop_all n segment fits, done.left);
  flows = done.flows;
}

part-IsRead :
    (n : ℕ) (segment : List ℕ) (s : Stream)
    → n < length segment
    → IsFlowing s
    → IsRead n (segment ∷ s) (take n segment, drop n segment ∷ s)
part-IsRead n segment s fits flowing =
    let spent : n - length segment ≡ 0 = omega arith in
    record {
      read = rw (take-append, spent, append-nil);
      left = rw (drop-append, spent);
      flows = (omega (arith, length-drop n segment), flowing);
    }

read_end : (fuel n : ℕ) → read_loop fuel n [] ≡ ([], [])
unfolding read_loop
read_end zero n = refl
read_end (suc fuel) n = ground arith

loop-IsRead :
    (fuel remaining : ℕ) (s : Stream)
    → remaining ≤ fuel
    → IsFlowing s
    → IsRead remaining s (read_loop fuel remaining s)
loop-IsRead zero zero s enough flowing = unfold read_loop in nothing-IsRead s flowing
loop-IsRead zero (suc n) s enough flowing = ground arith
loop-IsRead (suc fuel) zero s enough flowing =
    rw (read_loop_end (suc fuel) s) (nothing-IsRead s flowing)
loop-IsRead (suc fuel) (suc n) [] enough flowing =
    rw (read_end (suc fuel) (suc n)) (record { read = refl; left = refl; flows = tt })
loop-IsRead (suc fuel) (suc n) (segment ∷ s) enough flowing =
    elim (le_or_lt (length segment) (suc n)) [
      | inl fits ↦ rw (read_segment fuel (suc n) segment s (ground arith) fits flowing.0) (
          segment-IsRead (suc n) segment s _ fits
            (loop-IsRead fuel (suc n - length segment) s (omega arith) flowing.1))
      | inr part ↦
          rw (read_part fuel (suc n) segment s (ground arith) part)
            (part-IsRead (suc n) segment s part flowing.1)
    ]

-- However the bytes of a stream are split over its segments, `read_exactly` reads the next `n` bytes,
-- or all of them when there are fewer, and leaves the bytes behind them to be read.
pub read_exactly-IsRead : (n : ℕ) (s : Stream) → IsFlowing s → IsRead n s (read_exactly n s)
unfolding read_exactly
read_exactly-IsRead n s flowing = loop-IsRead n n s (omega arith) flowing
