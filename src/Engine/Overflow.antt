-- ===== src/Engine/Overflow.antt =====
-- engine/overflow.py: one summarize-and-retry after a context overflow. The wrapped client and the
-- summarizer are parameters; the client may answer differently at each call.
pub mod Laws
mod Tests
use dev_harness.Common.{ℕ, String, Option, none, some, List, [], ◌∷◌}
use dev_harness.Engine.Routing.{e2e_ceiling, e2e, Counters, RouteDecision, route}

-- What a call of the wrapped client gives; `failed` is any other exception.
pub data Answer (U : Type 0) : Type 0 where
  completed : (text : String) (usage : U) → Answer U
  overflowed : Answer U
  failed : (error : String) → Answer U

pub record OverflowOutcome (U : Type 0) : Type 0 where
  pub text : Option String
  pub usage : Option U
  pub retries : ℕ
  pub decision : Option RouteDecision

pub data Completion (U : Type 0) : Type 0 where
  outcome : OverflowOutcome U → Completion U
  raised : (error : String) → Completion U

-- `_escalate`
unfoldable pub escalate : RouteDecision
escalate = route (record { inner_loop_retry_count = none; e2e_retry_count = some e2e_ceiling }) e2e

-- `complete` of the client is asked for its `n`th call; what it was asked comes with the completion.
module _ {M U : Type 0} (complete : ℕ → List M → Answer U) (summarize : List M → List M) where
  abbrev pub success : String → U → ℕ → OverflowOutcome U
  success text usage retries = record {
    text = some text;
    usage = some usage;
    retries = retries;
    decision = none;
  }

  second_answer : Answer U → Completion U
  second_answer (completed text usage) = outcome (success text usage 1)
  second_answer overflowed =
      outcome (record { text = none; usage = none; retries = 1; decision = some escalate })
  second_answer (failed error) = raised error

  first_answer : List M → Answer U → Completion U × List (List M)
  first_answer messages (completed text usage) = (outcome (success text usage 0), messages ∷ [])
  first_answer messages overflowed =
      let summarized = summarize messages in
      (second_answer (complete 1 summarized), messages ∷ summarized ∷ [])
  first_answer messages (failed error) = (raised error, messages ∷ [])

  unfoldable pub complete_with_recovery : List M → Completion U × List (List M)
  unfolding first_answer second_answer
  complete_with_recovery messages = first_answer messages (complete 0 messages)
