-- ===== src/Tui/Scrollback/Laws.antt =====
-- tui/scrollback.py: the history is complete and the live part is bounded.
use dev_harness.Common.{
  ◌≤◌, String, ◌≡◌, refl, sym, ap, ◌∙◌, inl, inr, some, List, [], ◌∷◌, ◌++◌, append-nil,
  append_assoc, arith, ltb, nat_eq, string_eq, Bool-cases, length,
}
use dev_harness.Tui.Scrollback.{
  ScrollbackBuffer, spill_into, spill_line, spill_loop, append, spilled, all_lines,
}

unfoldable pub append_all : List String → ScrollbackBuffer → ScrollbackBuffer
append_all [] b = b
append_all (l ∷ ls) b = append_all ls (append l b)

-- A buffer with a sink whose history is `h`.
pub record IsHistory (h : List String) (b : ScrollbackBuffer) : Type 0 where
  pub entries : List String
  pub sink : b.spill ≡ some entries
  pub whole : entries ++ b.live ≡ h
  pub bounded : length b.live ≤ b.max_lines

loop-IsHistory :
    (live entries : List String) (b : ScrollbackBuffer)
    → b.spill ≡ some entries
    → IsHistory (entries ++ live) (spill_loop live b)
unfolding spill_loop spill_line spill_into
loop-IsHistory [] entries b sink = record {
  entries = entries;
  sink = sink;
  whole = refl;
  bounded = omega arith;
}
loop-IsHistory (oldest ∷ rest) entries b sink =
    elim (Bool-cases (ltb b.max_lines (length (oldest ∷ rest)))) [
      | inl over ↦
          rw (over, sink, sym (append_assoc entries (oldest ∷ []) rest))
            (loop-IsHistory rest (entries ++ oldest ∷ []) _ refl)
      | inr within ↦
          rw within
            (record { entries = entries; sink = sink; whole = refl; bounded = ground arith })
    ]

append-IsHistory :
    (l : String) (h : List String) (b : ScrollbackBuffer)
    → IsHistory h b
    → IsHistory (h ++ l ∷ []) (append l b)
unfolding append
append-IsHistory l h b k =
    rw (sym k.whole, append_assoc) (loop-IsHistory (b.live ++ l ∷ []) k.entries b k.sink)

append_all-IsHistory :
    (ls h : List String) (b : ScrollbackBuffer)
    → IsHistory h b
    → IsHistory (h ++ ls) (append_all ls b)
unfolding append_all
append_all-IsHistory [] h b k = rw append-nil k
append_all-IsHistory (l ∷ ls) h b k =
    rw (sym (append_assoc h (l ∷ []) ls))
      (append_all-IsHistory ls (h ++ l ∷ []) (append l b) (append-IsHistory l h b k))

all_lines_of :
    (b : ScrollbackBuffer) (entries : List String)
    → b.spill ≡ some entries
    → all_lines b ≡ entries ++ b.live
unfolding all_lines spilled
all_lines_of b entries sink = rw sink

-- However many lines are appended to a buffer with a sink, the spilled lines followed by the live ones
-- are the history before and the appended lines, in order, and at most `max_lines` are live.
pub append_all-history :
    (ls entries : List String) (b : ScrollbackBuffer)
    → b.spill ≡ some entries
    → length b.live ≤ b.max_lines
    → (all_lines (append_all ls b) ≡ all_lines b ++ ls)
      × (length (append_all ls b).live ≤ (append_all ls b).max_lines)
append_all-history ls entries b sink bounded =
    let k =
      append_all-IsHistory ls (entries ++ b.live) b
        (record { entries = entries; sink = sink; whole = refl; bounded = bounded }) in
    (
      all_lines_of _ k.entries k.sink
          ∙ k.whole
          ∙ ap (λ l. l ++ ls) (sym (all_lines_of b entries sink)),
      k.bounded,
    )
