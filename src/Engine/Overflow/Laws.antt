-- ===== src/Engine/Overflow/Laws.antt =====
-- engine/overflow.py: at most one retry, and the escalation after it.
use dev_harness.Common.{ℕ, ◌≡◌, refl, none, some, List, [], ◌∷◌, nat_eq, string_eq}
use dev_harness.Engine.Routing.{escalation, route, route_e2e}
use dev_harness.Engine.Overflow.{
  Answer, completed, overflowed, failed, Completion, outcome, raised, escalate, second_answer,
  first_answer, complete_with_recovery,
}

escalate_lem : escalate ≡ escalation
unfolding escalate route route_e2e
escalate_lem = refl

-- What a completion says and what the client was asked, by what it answered to the first call and to
-- the retry on the summarized messages: two calls at most, the second one exactly after an overflow,
-- and the end of the run at the human gate exactly after a second overflow.
abbrev pub Recovered :
    {M U : Type 0} → List M → List M → Answer U → Answer U → Completion U × List (List M) → Type 0
Recovered messages shorter (completed text usage) second r = r ≡ (
  outcome (record { text = some text; usage = some usage; retries = 0; decision = none }),
  messages ∷ [],
)
Recovered messages shorter (failed error) second r = r ≡ (raised error, messages ∷ [])
Recovered messages shorter overflowed (completed text usage) r = r ≡ (
  outcome (record { text = some text; usage = some usage; retries = 1; decision = none }),
  messages ∷ shorter ∷ [],
)
Recovered messages shorter overflowed (failed error) r = r ≡ (raised error, messages ∷ shorter ∷ [])
Recovered messages shorter overflowed overflowed r = r ≡ (
  outcome (record { text = none; usage = none; retries = 1; decision = some escalation }),
  messages ∷ shorter ∷ [],
)

module _ {M U : Type 0} (complete : ℕ → List M → Answer U) (summarize : List M → List M) where
  second-Recovered :
      (messages : List M) (second : Answer U)
      → Recovered messages
          (summarize messages)
          overflowed
          second
          (second_answer complete summarize second, messages ∷ summarize messages ∷ [])
  unfolding second_answer
  second-Recovered messages (completed text usage) = refl
  second-Recovered messages (failed error) = refl
  second-Recovered messages overflowed = rw escalate_lem

  first-Recovered :
      (messages : List M) (first : Answer U)
      → Recovered messages
          (summarize messages)
          first
          (complete 1 (summarize messages))
          (first_answer complete summarize messages first)
  unfolding first_answer second_answer
  first-Recovered messages (completed text usage) = refl
  first-Recovered messages (failed error) = refl
  first-Recovered messages overflowed = second-Recovered messages (complete 1 (summarize messages))

  -- However the wrapped client answers: it is called at most twice, the second time with the
  -- summarized messages and exactly if the first call overflowed; a second overflow gives no text but
  -- the router's escalation to the human gate; any other exception passes through.
  pub complete_recovers :
      (messages : List M)
      → Recovered messages
          (summarize messages)
          (complete 0 messages)
          (complete 1 (summarize messages))
          (complete_with_recovery complete summarize messages)
  unfolding complete_with_recovery
  complete_recovers messages = first-Recovered messages (complete 0 messages)
