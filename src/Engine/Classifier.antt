-- ===== src/Engine/Classifier.antt =====
-- engine/classifier.py: the classification of an end-to-end report. How one line reads, which regular
-- expressions decide, and the splitting of the text are parameters.
pub mod Laws
mod Tests
use dev_harness.Common.{
  ◌+◌, String, Bool, true, false, Option, none, some, List, [], ◌∷◌, ◌++◌, if◌then◌else◌,
}
use dev_harness.Contracts.State.{
  E2eReport, Classification, chunk_implementation_bug, integration_spec_mismatch,
}
use dev_harness.Engine.Routing.{RouteDecision, hitl}

-- A stripped line, by `_CHUNK_RE` and `_E2E_RE`; `true` is PASS.
pub data Line : Type 0 where
  blank : Line
  chunk_line : (id : String) (passed : Bool) → Line
  e2e_line : (passed : Bool) → Line
  malformed : Line

pub record ClassificationResult : Type 0 where
  pub report : Option E2eReport
  pub decision : Option RouteDecision
  pub unparseable : Bool

-- `_hitl_decision`
abbrev pub hitl_decision : RouteDecision
hitl_decision = record {
  next_node = some hitl;
  terminal = none;
  outcome = none;
  escalate_to_hitl = true;
}

finish_parse : List (String × Bool) → Option Bool → Option (List (String × Bool) × Bool)
finish_parse chunks none = none
finish_parse chunks (some e2e) = some (chunks, e2e)

-- The loop of `_parse`, with the verdicts found so far.
unfoldable pub parse_lines :
    List Line → List (String × Bool) → Option Bool → Option (List (String × Bool) × Bool)
unfolding finish_parse
parse_lines [] chunks e2e = finish_parse chunks e2e
parse_lines (blank ∷ ls) chunks e2e = parse_lines ls chunks e2e
parse_lines (chunk_line id passed ∷ ls) chunks e2e =
    parse_lines ls (chunks ++ (id, passed) ∷ []) e2e
parse_lines (e2e_line passed ∷ ls) chunks e2e = parse_lines ls chunks (some passed)
parse_lines (malformed ∷ ls) chunks e2e = none

unfoldable pub first_failing : List (String × Bool) → Option String
first_failing [] = none
first_failing ((id, passed) ∷ cs) = if passed then first_failing cs else some id

abbrev pub unreadable : ClassificationResult
unreadable = record { report = none; decision = some hitl_decision; unparseable = true }

abbrev pub classified : Option Classification → Option String → String → ClassificationResult
classified classification chunk text = record {
  report =
      some
        (record { classification = classification; stack_trace = text; failed_chunk_id = chunk });
  decision = none;
  unparseable = false;
}

classify_failing : Option String → String → ClassificationResult
classify_failing none text = classified (some integration_spec_mismatch) none text
classify_failing (some id) text = classified (some chunk_implementation_bug) (some id) text

classify_failed : List (String × Bool) → String → ClassificationResult
classify_failed [] text = unreadable
classify_failed (c ∷ cs) text = classify_failing (first_failing (c ∷ cs)) text

classify_parsed : Option (List (String × Bool) × Bool) → String → ClassificationResult
classify_parsed none text = unreadable
classify_parsed (some (chunks, true)) text = classified none none text
classify_parsed (some (chunks, false)) text = classify_failed chunks text

unfoldable pub classify_report : (String → List Line) → String → ClassificationResult
unfolding classify_parsed classify_failed classify_failing parse_lines
classify_report read_lines text = classify_parsed (parse_lines (read_lines text) [] none) text
