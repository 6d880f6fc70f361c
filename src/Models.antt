-- ===== src/Models.antt =====
-- src/app/models: the rows of the seven tables. Columns keep their names; `updated_at` is written by the
-- database layer alone and read by nothing, and is left out. A datetime is a number: an instant.
pub mod Enums
pub mod Checks
use saas_agent_lab.Common.{ℕ, String, Option}
use saas_agent_lab.Text.{Text}
use saas_agent_lab.Models.Enums.{
  UserStatus, PolicyDecision, AgentRunStatus, GoalType, DesiredState, OutcomeReason,
  DecisionProposalKind, CannotProceedReason, ModelCallStage, ModelCallStatus, ToolCallStatus,
}
use saas_agent_lab.Json.{Json, Fields}
use saas_agent_lab.Schemas.Agent.{DecisionContext, ToolOutput, ToolError, ModelCallError}

pub record User : Type 0 where
  pub id : ℕ
  pub email : Text
  pub name : Text
  pub status : UserStatus
  pub created_at : ℕ

pub record Licence : Type 0 where
  pub id : ℕ
  pub product : Text
  pub seats_total : ℕ
  pub agent_policy : PolicyDecision

pub record Assignment : Type 0 where
  pub id : ℕ
  pub user_id : ℕ
  pub licence_id : ℕ
  pub assigned_at : ℕ
  pub revoked_at : Option ℕ

pub record AuditEvent : Type 0 where
  pub id : ℕ
  pub actor : Text
  pub action : String
  pub entity_type : String
  pub entity_id : ℕ
  pub before : Option Json
  pub after : Option Json
  pub created_at : ℕ

pub record AgentRun : Type 0 where
  pub id : ℕ
  pub instruction : Text
  pub requesting_actor : Text
  pub status : AgentRunStatus
  pub goal_type : Option GoalType
  pub desired_state : Option DesiredState
  pub extracted_user_email : Option Text
  pub extracted_product : Option Text
  pub resolved_user_id : Option ℕ
  pub resolved_licence_id : Option ℕ
  pub outcome_reason : Option OutcomeReason
  pub outcome_detail : Option Fields
  pub last_sequence_no : ℕ
  pub decision_context : Option DecisionContext
  pub decision_proposal : Option DecisionProposalKind
  pub decision_reason_code : Option CannotProceedReason
  pub created_at : ℕ
  pub completed_at : Option ℕ

-- `output` holds the accepted output as JSON.
pub record ModelCall : Type 0 where
  pub id : ℕ
  pub agent_run_id : ℕ
  pub sequence_no : ℕ
  pub stage : ModelCallStage
  pub model_name : String
  pub status : ModelCallStatus
  pub input_tokens : Option ℕ
  pub output_tokens : Option ℕ
  pub latency_ms : ℕ
  pub output : Option Fields
  pub error : Option ModelCallError
  pub created_at : ℕ

-- `result` and `error` hold what `model_dump` writes of the typed value; the value stands here.
pub record ToolCall : Type 0 where
  pub id : ℕ
  pub agent_run_id : ℕ
  pub sequence_no : ℕ
  pub tool_name : String
  pub arguments : Fields
  pub status : ToolCallStatus
  pub policy_decision : Option PolicyDecision
  pub result : Option ToolOutput
  pub error : Option ToolError
  pub observation : Option Text
  pub created_at : ℕ
  pub completed_at : Option ℕ
