-- ===== src/Engine/Context.antt =====
-- engine/context.py: the window that bounds a trace. Splitting a text into lines, joining lines and the
-- text of the marker are parameters.
pub mod Laws
use dev_harness.Common.{
  ℕ, ◌+◌, ◌-◌, String, List, ◌∷◌, ◌++◌, leb, Eq, ◌==◌, nat_eq, string_eq, if◌then◌else◌, length,
  take, drop,
}

abbrev pub trace_head : ℕ
trace_head = 30

abbrev pub trace_tail : ℕ
trace_tail = 20

-- `lines[-tail:]`, where `lines[-0:]` is the whole list.
unfoldable pub slice_last : ℕ → List String → List String
slice_last tail ls = if tail == 0 then ls else drop (length ls - tail) ls

module _ (split_lines : String → List String) (join_lines : List String → String)
    (marker : ℕ → String) where
  unfoldable pub window : ℕ → ℕ → List String → List String
  unfolding slice_last
  window head tail ls = take head ls ++ marker (length ls - head - tail) ∷ slice_last tail ls

  unfoldable pub cap_trace : ℕ → ℕ → String → String
  cap_trace head tail text =
      let ls = split_lines text in
      if leb (length ls) (head + tail) then text else join_lines (window head tail ls)
