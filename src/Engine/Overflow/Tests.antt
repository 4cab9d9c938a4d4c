-- ===== src/Engine/Overflow/Tests.antt =====
-- A client that overflows on long conversations.
use dev_harness.Common.{
  ◌≡◌, refl, ℕ, List, [], ◌∷◌, ltb, nat_eq, string_eq, if◌then◌else◌, length, take,
}
use dev_harness.Engine.Overflow.{Answer, completed, overflowed, complete_with_recovery}

abbrev client : ℕ → List ℕ → Answer ℕ
client n messages = if ltb 1 (length messages) then overflowed else completed "text" 5

abbrev shorten : List ℕ → List ℕ
shorten messages = take 1 messages

second_call : (complete_with_recovery client shorten (1 ∷ 2 ∷ [])).1 ≡ (1 ∷ 2 ∷ []) ∷ (1 ∷ []) ∷ []
unfolding complete_with_recovery
second_call = refl
