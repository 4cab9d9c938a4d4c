-- ===== src/Engine/Validators/Laws.antt =====
-- engine/personas/validators.py: how many calls a validation makes, for any number of repairs.
use dev_harness.Common.{
  ℕ, ◌+◌, ◌≤◌, String, ◌≡◌, ◌⊎◌, inl, Option, none, some, List, [], ◌∷◌, nat_eq, string_eq, length,
}
use dev_harness.Engine.Validators.{
  Message, Validation, valid, persona_output_error, client_error, max_repairs,
}

abbrev pub last : List (List Message) → Option (List Message)
last [] = none
last (m ∷ []) = some m
last (m ∷ n ∷ ms) = last (n ∷ ms)

module _ {V : Type 0} (parse : String → V ⊎ String) (repair_prompt : String → String → String)
    (answer : ℕ → List Message → Option String) where
  -- What comes of the calls that follow on `retries` retries, of which `left` may be made: a value is
  -- what the last of them answered, the error for a malformed output comes when no call is left, and the
  -- client's error when it raised at the last of them.
  abbrev pub Counts : ℕ → ℕ → Validation V × List (List Message) → Type 0
  Counts left retries (valid v n, calls) =
      (n ≡ retries + length calls)
      × (length calls ≤ left)
      × ((asked : List Message) × (text : String) × (last calls ≡ some asked)
          × (answer n asked ≡ some text)
          × (parse text ≡ inl v))
  Counts left retries (persona_output_error e n, calls) =
      (n ≡ retries + length calls) × (length calls ≡ left)
  Counts left retries (client_error, calls) =
      (length calls ≤ left)
      × ((asked : List Message) × (last calls ≡ some asked)
          × (answer (retries + length calls) asked ≡ none))

  -- What a validation may come to, and with how many calls of the client.
  abbrev pub Validates : List Message → Validation V × List (List Message) → Type 0
  Validates messages (valid v n, calls) =
      (length calls ≡ n + 1)
      × (n ≤ max_repairs)
      × ((asked : List Message) × (text : String) × (last calls ≡ some asked)
          × (answer n asked ≡ some text)
          × (parse text ≡ inl v))
  Validates messages (persona_output_error e n, calls) = (length calls ≡ n + 1) × (n ≡ max_repairs)
  Validates messages (client_error, calls) =
      (n : ℕ) × (length calls ≡ n + 1)
      × (n ≤ max_repairs)
      × ((asked : List Message) × (last calls ≡ some asked) × (answer n asked ≡ none))
