-- ===== src/Contracts/Events.antt =====
-- contracts/events.py: the payloads and the envelope. A payload is a constructor for each model of
-- the union. A float is a number of some fixed unit.
use dev_harness.Common.{ℕ, String, Bool, Option, ◌==◌}
use dev_harness.Contracts.Enums.{
  CriticCommand, FailureClass, EventType, file_change, git_status_update, agent_token_stream,
  test_progress, model_config_change, interrupt_request, interrupt_ack, metrics_update, snapshot,
  event_eq,
}
use dev_harness.Contracts.State.{HarnessState}

pub data ChangeType : Type 0 where
  modified created deleted : ChangeType

pub data EventPayload : Type 0 where
  file_change_payload : (path : String) (change_type : ChangeType) → EventPayload
  git_status_update_payload : (branch : String) (dirty_count : ℕ) → EventPayload
  agent_token_stream_payload : (seq : ℕ) (token agent : String) → EventPayload
  test_progress_payload :
      (chunk_id : String) (passed failures total : ℕ) (failure_class : Option FailureClass)
      → EventPayload
  model_config_change_payload : (provider model : String) → EventPayload
  interrupt_request_payload : (command : CriticCommand) (reason : String) → EventPayload
  interrupt_ack_payload : (command : CriticCommand) (already : Bool) → EventPayload
  metrics_update_payload :
      (p50_latency_ms p95_latency_ms tpm_burn cumulative_usd : ℕ) → EventPayload
  snapshot_payload : (state : HarnessState) → EventPayload

-- The literal `type` tag of each payload model.
unfoldable pub payload_type : EventPayload → EventType
payload_type (file_change_payload _ _) = file_change
payload_type (git_status_update_payload _ _) = git_status_update
payload_type (agent_token_stream_payload _ _ _) = agent_token_stream
payload_type (test_progress_payload _ _ _ _ _) = test_progress
payload_type (model_config_change_payload _ _) = model_config_change
payload_type (interrupt_request_payload _ _) = interrupt_request
payload_type (interrupt_ack_payload _ _) = interrupt_ack
payload_type (metrics_update_payload _ _ _ _) = metrics_update
payload_type (snapshot_payload _) = snapshot

pub record Envelope : Type 0 where
  pub type : EventType
  pub seq : ℕ
  pub payload : EventPayload

-- `_enforce_type_match`: `false` is the validation error.
unfoldable pub type_matches : Envelope → Bool
unfolding payload_type
type_matches e = e.type == payload_type e.payload
