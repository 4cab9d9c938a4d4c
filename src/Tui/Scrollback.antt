-- ===== src/Tui/Scrollback.antt =====
-- tui/scrollback.py: a bounded buffer of lines that spills the oldest. `spill` holds the lines of the
-- artifact sink, `none` without one.
pub mod Laws
mod Tests
use dev_harness.Common.{
  ℕ, ◌+◌, String, Option, none, some, List, [], ◌∷◌, ◌++◌, ltb, if◌then◌else◌, length,
}

pub record ScrollbackBuffer : Type 0 where
  pub max_lines : ℕ
  pub live : List String
  pub spill : Option (List String)
  pub spilled_count : ℕ

-- `none` is the `ScrollbackError`.
unfoldable pub new_buffer : ℕ → Option (List String) → Option ScrollbackBuffer
new_buffer max_lines spill =
    if ltb max_lines 1
    then none
    else some (record { max_lines = max_lines; live = []; spill = spill; spilled_count = 0 })

spill_into : String → Option (List String) → ScrollbackBuffer → ScrollbackBuffer
spill_into line none b = b
spill_into line (some entries) b = record b {
  spill = some (entries ++ line ∷ []);
  spilled_count = b.spilled_count + 1;
}

-- `_spill_line`
unfoldable pub spill_line : String → ScrollbackBuffer → ScrollbackBuffer
unfolding spill_into
spill_line line b = spill_into line b.spill b

-- The loop of `append`, over the lines that are live.
unfoldable pub spill_loop : List String → ScrollbackBuffer → ScrollbackBuffer
spill_loop [] b = record b { live = [] }
spill_loop (oldest ∷ rest) b =
    let later = spill_loop rest (spill_line oldest b) in
    if ltb b.max_lines (length (oldest ∷ rest)) then later else record b { live = oldest ∷ rest }

unfoldable pub append : String → ScrollbackBuffer → ScrollbackBuffer
unfolding spill_loop
append line b = spill_loop (b.live ++ line ∷ []) b

or_empty : Option (List String) → List String
or_empty none = []
or_empty (some entries) = entries

-- `_read_spilled`
unfoldable pub spilled : ScrollbackBuffer → List String
unfolding or_empty
spilled b = or_empty b.spill

unfoldable pub all_lines : ScrollbackBuffer → List String
unfolding spilled
all_lines b = spilled b ++ b.live
