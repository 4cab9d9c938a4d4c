-- ===== src/Contracts/State.antt =====
-- contracts/state.py: the session state. Python's `int` fields are counts and times, so numbers.
use dev_harness.Common.{ℕ, String, Bool, false, Option, none, List, []}
use dev_harness.Contracts.Enums.{ChunkStatus, ExecutionState, ready, PanelId, canvas}

-- The one value of `status` is "LOCKED", so it is not stored.
pub record GroomedRequirements : Type 0 where
  pub prd_content : String
  pub version : String
  pub locked_at_timestamp : ℕ

pub record InterfaceContracts : Type 0 where
  pub openapi_spec : String
  pub db_schema : String

pub data DesignStatus : Type 0 where
  approved pending rejected : DesignStatus

pub record TechnicalDesign : Type 0 where
  pub architecture_spec : String
  pub interface_contracts : InterfaceContracts
  pub status : DesignStatus

pub record Chunk : Type 0 where
  pub chunk_id : String
  pub title : String
  pub dependencies : List String
  pub status : ChunkStatus
  pub assigned_worker_id : Option String

pub record TuiState : Type 0 where
  pub active_panel : PanelId
  pub active_model_provider : String
  pub is_paused : Bool
  pub last_interrupt_timestamp : Option ℕ
  pub critic_gatekeeper_status : ExecutionState

pub record GitState : Type 0 where
  pub active_branch : String
  pub last_checkpoint_commit : Option String

pub record RateLimiting : Type 0 where
  pub allocated_tokens_tpm : ℕ
  pub current_rpm_count : ℕ

pub data Classification : Type 0 where
  chunk_implementation_bug integration_spec_mismatch : Classification

pub record E2eReport : Type 0 where
  pub classification : Option Classification
  pub stack_trace : String
  pub failed_chunk_id : Option String

pub record HarnessState : Type 0 where
  pub project_id : String
  pub workspace_path : String
  pub thread_id : String
  pub raw_input : String
  pub groomed_requirements : Option GroomedRequirements
  pub technical_design : Option TechnicalDesign
  pub chunk_dag : List Chunk
  pub tui_state : TuiState
  pub git_state : GitState
  pub rate_limiting : RateLimiting
  pub inner_loop_retry_count : ℕ
  pub e2e_retry_count : ℕ
  pub latest_e2e_report : Option E2eReport

-- The state that the constructor builds from the three required fields.
abbrev pub fresh_state : String → String → String → HarnessState
fresh_state project workspace thread = record {
  project_id = project;
  workspace_path = workspace;
  thread_id = thread;
  raw_input = "";
  groomed_requirements = none;
  technical_design = none;
  chunk_dag = [];
  tui_state = record {
    active_panel = canvas;
    active_model_provider = "";
    is_paused = false;
    last_interrupt_timestamp = none;
    critic_gatekeeper_status = ready;
  };
  git_state = record { active_branch = "main"; last_checkpoint_commit = none };
  rate_limiting = record { allocated_tokens_tpm = 0; current_rpm_count = 0 };
  inner_loop_retry_count = 0;
  e2e_retry_count = 0;
  latest_e2e_report = none;
}
