-- ===== src/Engine/Validators/Tests.antt =====
-- A client that is right the second time.
use dev_harness.Common.{
  Option, some, none, ℕ, String, ◌⊎◌, inl, inr, List, [], ◌∷◌, ◌==◌, nat_eq, string_eq,
  if◌then◌else◌,
}
use dev_harness.Engine.Validators.{Message, user}

abbrev parse_ok : String → ℕ ⊎ String
parse_ok text = if text == "ok" then inl 1 else inr "invalid JSON"

abbrev second_try : ℕ → List Message → Option String
second_try n messages = if n == 0 then some "prose" else some "ok"

abbrev question : List Message
question = record { role = user; content = "groom"; name = none } ∷ []
