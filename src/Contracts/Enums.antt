-- ===== src/Contracts/Enums.antt =====
-- contracts/enums.py: the closed vocabularies.
use dev_harness.Common.{ℕ, ◌≡◌, ◌↔◌, Bool, true, false, arith, nat_beq, Eq}

pub data ExecutionState : Type 0 where
  ready running paused stopped : ExecutionState

pub data CriticCommand : Type 0 where
  start pause resume stop : CriticCommand

pub data ChunkStatus : Type 0 where
  pending in_progress completed failed : ChunkStatus

pub data PanelId : Type 0 where
  workspace canvas registry critic : PanelId

pub data EventType : Type 0 where
  file_change git_status_update agent_token_stream test_progress model_config_change : EventType
  interrupt_request interrupt_ack metrics_update snapshot : EventType

pub data ProviderId : Type 0 where
  anthropic openrouter ollama : ProviderId

pub data ProviderHealth : Type 0 where
  healthy degraded : ProviderHealth

pub data FailureClass : Type 0 where
  timeout test_failure compile_error runtime_error unknown : FailureClass

pub data RunOutcome : Type 0 where
  success failed : RunOutcome

abbrev pub provider_beq : ProviderId → ProviderId → Bool
provider_beq anthropic anthropic = true
provider_beq openrouter openrouter = true
provider_beq ollama ollama = true
provider_beq _ _ = false

pub provider_beq_iff : (a b : ProviderId) → (provider_beq a b ≡ true) ↔ (a ≡ b)
provider_beq_iff a b = ground arith

instance abbrev pub provider_eq : Eq ProviderId
provider_eq = record { beq = provider_beq; beq_iff = provider_beq_iff }

-- A place in the enumeration, by which two event types are compared.
abbrev place : EventType → ℕ
place file_change = 0
place git_status_update = 1
place agent_token_stream = 2
place test_progress = 3
place model_config_change = 4
place interrupt_request = 5
place interrupt_ack = 6
place metrics_update = 7
place snapshot = 8

abbrev pub event_beq : EventType → EventType → Bool
event_beq a b = nat_beq (place a) (place b)

pub event_beq_iff : (a b : EventType) → (event_beq a b ≡ true) ↔ (a ≡ b)
event_beq_iff a b = ground arith

instance abbrev pub event_eq : Eq EventType
event_eq = record { beq = event_beq; beq_iff = event_beq_iff }
