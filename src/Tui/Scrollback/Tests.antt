-- ===== src/Tui/Scrollback/Tests.antt =====
-- A scrollback of two lines.
use dev_harness.Common.{String, ◌≡◌, refl, some, List, [], ◌∷◌, nat_eq, string_eq}
use dev_harness.Tui.Scrollback.{ScrollbackBuffer, append, all_lines}
use dev_harness.Tui.Scrollback.Laws.{append_all}

abbrev small : ScrollbackBuffer
small = record { max_lines = 2; live = []; spill = some []; spilled_count = 0 }

abbrev added : List String
added = "a" ∷ "b" ∷ "c" ∷ []

live_part : (append_all added small).live ≡ "b" ∷ "c" ∷ []
unfolding append_all append dev_harness.Tui.Scrollback.spill_line
live_part = refl
