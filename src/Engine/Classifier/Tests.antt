-- ===== src/Engine/Classifier/Tests.antt =====
-- A report of two chunks, the second of which fails.
use dev_harness.Common.{String, ◌≡◌, true, false, none, some, List, [], ◌∷◌, nat_eq, string_eq}
use dev_harness.Contracts.State.{chunk_implementation_bug}
use dev_harness.Engine.Classifier.{
  Line, blank, chunk_line, e2e_line, first_failing, classified, classify_report,
}
use dev_harness.Engine.Classifier.Laws.{verdicts, last_e2e, AllRead, Blames, classify_report-Blames}

abbrev read_lines : String → List Line
read_lines text = chunk_line "a" true ∷ blank ∷ chunk_line "b" false ∷ e2e_line false ∷ []

classify_report-Blames_example :
    (Blames (classify_report read_lines "log") "b"
      → AllRead (read_lines "log")
        × (last_e2e none (read_lines "log") ≡ some false)
        × (first_failing (verdicts (read_lines "log")) ≡ some "b"))
    × (AllRead (read_lines "log")
        → last_e2e none (read_lines "log") ≡ some false
        → first_failing (verdicts (read_lines "log")) ≡ some "b"
        → classify_report read_lines "log"
          ≡ classified (some chunk_implementation_bug) (some "b") "log")
classify_report-Blames_example = classify_report-Blames read_lines "log" "b"
