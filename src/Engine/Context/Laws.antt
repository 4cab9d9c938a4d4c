-- ===== src/Engine/Context/Laws.antt =====
-- engine/context.py: the size of a capped trace.
use dev_harness.Common.{
  ℕ, zero, suc, ◌+◌, ◌-◌, ◌≤◌, ◌<◌, String, ◌≡◌, refl, ap, true, false, List, [], ◌∷◌, ◌++◌, arith,
  leb, le→leb, lt→leb_false, ◌==◌, nat_eq, string_eq, length, take, drop, length-append,
  length-take, length-drop,
}
use dev_harness.Engine.Context.{slice_last, window, cap_trace}

take-append_take :
    (n : ℕ) (xs ys : List String) → n ≤ length xs → take n (take n xs ++ ys) ≡ take n xs
take-append_take zero xs ys h = refl
take-append_take (suc n) [] ys h = ground arith
take-append_take (suc n) (x ∷ xs) ys h = ap (λ l. x ∷ l) (take-append_take n xs ys (omega arith))

module _ (split_lines : String → List String) (join_lines : List String → String)
    (marker : ℕ → String) where
  -- A trace of no more lines than the window is not changed. A longer one is replaced by a text that is
  -- joined from its first `head` lines, one marker and a tail: its last `tail` lines, and so as many
  -- lines as the window and one, if `tail` is positive; but all of its lines if `tail` is 0.
  pub cap_trace_window :
      (head tail : ℕ) (text : String)
      → (length (split_lines text) ≤ head + tail
          → cap_trace split_lines join_lines marker head tail text ≡ text)
        × (head + tail < length (split_lines text)
            → (w : List String) × (cap_trace split_lines join_lines marker head tail text
                ≡ join_lines w)
              × (take head w ≡ take head (split_lines text))
              × (1 ≤ tail → length w ≡ head + tail + 1)
              × (tail ≡ 0 → length w ≡ head + 1 + length (split_lines text)))
  unfolding cap_trace window slice_last
  cap_trace_window head tail text = (
    λ few. let fits = le→leb _ _ few in rw fits,
    λ many.
        let long : leb (length (split_lines text)) (head + tail) ≡ false = lt→leb_false _ _ many in
        let ls = split_lines text in
        let w = window split_lines join_lines marker head tail ls in
        let front = length-take head ls in
        (
          w,
          rw long,
          take-append_take head ls _ (omega arith),
          λ some_tail.
              let cut : (tail == 0) ≡ false = ground arith in
              rw cut (
                omega (
                  arith,
                  front,
                  length-drop (length ls - tail) ls,
                  length-append (take head ls)
                      (marker (length ls - head - tail) ∷ drop (length ls - tail) ls),
                )),
          λ no_tail.
              let whole : (tail == 0) ≡ true = ground arith in
              rw whole (
                omega (
                  arith,
                  front,
                  length-append (take head ls) (marker (length ls - head - tail) ∷ ls),
                )),
        ),
  )
