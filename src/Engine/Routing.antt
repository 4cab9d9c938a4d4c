-- ===== src/Engine/Routing.antt =====
-- engine/routing.py: the retry router. `none` stands for a channel that the partial state lacks.
pub mod Develop
mod Tests
use dev_harness.Common.{ℕ, ◌+◌, Bool, true, false, Option, none, some, ltb, if◌then◌else◌}
use dev_harness.Contracts.Enums.{ExecutionState, stopped, RunOutcome, failed}

abbrev pub inner_loop_ceiling : ℕ
inner_loop_ceiling = 3

abbrev pub e2e_ceiling : ℕ
e2e_ceiling = 2

pub data Node : Type 0 where
  architect developer hitl : Node

pub data FailureKind : Type 0 where
  inner_loop e2e : FailureKind

-- The two channels of `HarnessStateChannels` that the router reads.
pub record Counters : Type 0 where
  pub inner_loop_retry_count : Option ℕ
  pub e2e_retry_count : Option ℕ

pub record RouteDecision : Type 0 where
  pub next_node : Option Node
  pub terminal : Option ExecutionState
  pub outcome : Option RunOutcome
  pub escalate_to_hitl : Bool

abbrev pub goes_to : Node → RouteDecision
goes_to n = record { next_node = some n; terminal = none; outcome = none; escalate_to_hitl = false }

abbrev pub count_or_zero : Option ℕ → ℕ
count_or_zero none = 0
count_or_zero (some n) = n

abbrev pub escalation : RouteDecision
escalation = record {
  next_node = some hitl;
  terminal = some stopped;
  outcome = some failed;
  escalate_to_hitl = true;
}

-- `_route_inner_loop`
unfoldable pub route_inner_loop : Counters → RouteDecision
route_inner_loop c =
    if ltb (count_or_zero c.inner_loop_retry_count) inner_loop_ceiling
    then goes_to developer
    else goes_to architect

-- `_route_e2e`
unfoldable pub route_e2e : Counters → RouteDecision
route_e2e c =
    if ltb (count_or_zero c.e2e_retry_count) e2e_ceiling then goes_to developer else escalation

unfoldable pub route : Counters → FailureKind → RouteDecision
unfolding route_inner_loop route_e2e
route c inner_loop = route_inner_loop c
route c e2e = route_e2e c

-- `add_counters` of engine/state.py, by which a node's update joins a counter's channel.
abbrev pub add_counters : ℕ → ℕ → ℕ
add_counters left right = left + right
