-- ===== src/Engine/Classifier/Laws.antt =====
-- engine/classifier.py: which chunk is blamed, and when.
use dev_harness.Common.{
  String, ◌≡◌, refl, sym, ap, ◌∙◌, Bool, true, false, Option, none, some, List, [], ◌∷◌, ◌++◌,
  append-nil, append_assoc, arith, nat_eq, string_eq,
}
use dev_harness.Contracts.State.{E2eReport, chunk_implementation_bug}
use dev_harness.Engine.Classifier.{
  Line, blank, chunk_line, e2e_line, malformed, ClassificationResult, finish_parse, parse_lines,
  first_failing, classified, classify_failing, classify_failed, classify_parsed, classify_report,
}

-- The verdicts of the chunk lines, and the last end-to-end verdict, if any, after `v`.
abbrev pub verdicts : List Line → List (String × Bool)
verdicts [] = []
verdicts (chunk_line id passed ∷ ls) = (id, passed) ∷ verdicts ls
verdicts (_ ∷ ls) = verdicts ls

abbrev pub last_e2e : Option Bool → List Line → Option Bool
last_e2e v [] = v
last_e2e v (e2e_line passed ∷ ls) = last_e2e (some passed) ls
last_e2e v (_ ∷ ls) = last_e2e v ls

abbrev pub AllRead : List Line → Type 0
AllRead [] = Unit
AllRead (malformed ∷ ls) = ⊥
AllRead (_ ∷ ls) = AllRead ls

parse_sound :
    (ls : List Line) (cs chunks : List (String × Bool)) (e : Option Bool) (v : Bool)
    → parse_lines ls cs e ≡ some (chunks, v)
    → AllRead ls × (chunks ≡ cs ++ verdicts ls) × (last_e2e e ls ≡ some v)
unfolding parse_lines finish_parse
parse_sound [] cs chunks none v h = ground arith
parse_sound [] cs chunks (some w) v h = (tt, rw append-nil (ground arith), ground arith)
parse_sound (blank ∷ ls) cs chunks e v h = parse_sound ls cs chunks e v h
parse_sound (chunk_line id passed ∷ ls) cs chunks e v h =
    let later = parse_sound ls (cs ++ (id, passed) ∷ []) chunks e v h in
    (later.0, later.1 ∙ append_assoc cs ((id, passed) ∷ []) (verdicts ls), later.2)
parse_sound (e2e_line passed ∷ ls) cs chunks e v h = parse_sound ls cs chunks (some passed) v h
parse_sound (malformed ∷ ls) cs chunks e v h = ground arith

parse_complete :
    (ls : List Line) (cs : List (String × Bool)) (e : Option Bool) (v : Bool)
    → AllRead ls
    → last_e2e e ls ≡ some v
    → parse_lines ls cs e ≡ some (cs ++ verdicts ls, v)
unfolding parse_lines finish_parse
parse_complete [] cs none v read last = ground arith
parse_complete [] cs (some w) v read last = rw append-nil (ground arith)
parse_complete (blank ∷ ls) cs e v read last = parse_complete ls cs e v read last
parse_complete (chunk_line id passed ∷ ls) cs e v read last =
    parse_complete ls (cs ++ (id, passed) ∷ []) e v read last
    ∙ ap (λ l. some (l, v)) (append_assoc cs ((id, passed) ∷ []) (verdicts ls))
parse_complete (e2e_line passed ∷ ls) cs e v read last =
    parse_complete ls cs (some passed) v read last
parse_complete (malformed ∷ ls) cs e v read last = elim read [ ]

-- A result that blames a chunk.
abbrev pub Blames : ClassificationResult → String → Type 0
Blames r id = (report : E2eReport) × (r.report ≡ some report) × (report.failed_chunk_id ≡ some id)

failing-Blames :
    (f : Option String) (text id : String) → Blames (classify_failing f text) id → f ≡ some id
unfolding classify_failing
failing-Blames none text id (report, is, blamed) = ground arith
failing-Blames (some j) text id (report, is, blamed) = ground arith

parsed-Blames :
    (parsed : Option (List (String × Bool) × Bool)) (text id : String)
    → Blames (classify_parsed parsed text) id
    → (chunks : List (String × Bool)) × (parsed ≡ some (chunks, false))
      × (first_failing chunks ≡ some id)
unfolding classify_parsed classify_failed
parsed-Blames none text id (report, is, blamed) = ground arith
parsed-Blames (some (chunks, true)) text id (report, is, blamed) = ground arith
parsed-Blames (some ([], false)) text id (report, is, blamed) = ground arith
parsed-Blames (some (c ∷ cs, false)) text id b =
    (c ∷ cs, refl, failing-Blames (first_failing (c ∷ cs)) text id b)

first_failing-nil : first_failing [] ≡ none
unfolding first_failing
first_failing-nil = refl

found_failing :
    (chunks : List (String × Bool)) (text id : String)
    → first_failing chunks ≡ some id
    → classify_failed chunks text ≡ classified (some chunk_implementation_bug) (some id) text
unfolding classify_failed classify_failing
found_failing [] text id h = ground (arith, first_failing-nil)
found_failing (c ∷ cs) text id h = rw h

-- A report blames a chunk exactly when every line of it can be read, its last end-to-end verdict is
-- FAIL, and the chunk is the first with a FAIL verdict; it is then classified as the chunk's bug.
pub classify_report-Blames :
    (read_lines : String → List Line) (text id : String)
    → (Blames (classify_report read_lines text) id
        → AllRead (read_lines text)
          × (last_e2e none (read_lines text) ≡ some false)
          × (first_failing (verdicts (read_lines text)) ≡ some id))
      × (AllRead (read_lines text)
          → last_e2e none (read_lines text) ≡ some false
          → first_failing (verdicts (read_lines text)) ≡ some id
          → classify_report read_lines text
            ≡ classified (some chunk_implementation_bug) (some id) text)
unfolding classify_report classify_parsed
classify_report-Blames read_lines text id = (
  λ b.
      let (chunks, parsed, failing) =
        parsed-Blames (parse_lines (read_lines text) [] none) text id b in
      let (read, all, last) = parse_sound (read_lines text) [] chunks none false parsed in
      (read, last, ap first_failing (sym all) ∙ failing),
  λ read last failing.
      rw (parse_complete (read_lines text) [] none false read last)
        (found_failing (verdicts (read_lines text)) text id failing),
)
