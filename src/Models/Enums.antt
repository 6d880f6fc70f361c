-- ===== src/Models/Enums.antt =====
-- The string enums of src/app/models, the members the source tests for, and the values it records.
use saas_agent_lab.Common.{String, Bool, true, false}

pub data UserStatus : Type 0 where
  active inactive : UserStatus

pub data PolicyDecision : Type 0 where
  allow require_approval deny : PolicyDecision

pub data AgentRunStatus : Type 0 where
  received resolved executing awaiting_approval verifying : AgentRunStatus
  completed needs_clarification blocked failed : AgentRunStatus

pub data GoalType : Type 0 where
  ensure_assignment : GoalType

pub data DesiredState : Type 0 where
  assigned : DesiredState

pub data OutcomeReason : Type 0 where
  goal_satisfied already_satisfied : OutcomeReason
  unsupported_request instruction_unclear : OutcomeReason
  invalid_input user_not_found licence_not_found licence_ambiguous : OutcomeReason
  no_seats_available user_inactive policy_denied : OutcomeReason
  planner_error goal_scope_violation tool_failed : OutcomeReason
  verification_failed step_limit unexpected_error : OutcomeReason

pub data DecisionProposalKind : Type 0 where
  goal_reached no_action_needed cannot_proceed : DecisionProposalKind

pub data CannotProceedReason : Type 0 where
  no_seats_available user_inactive : CannotProceedReason

pub data ModelCallStage : Type 0 where
  extraction decision : ModelCallStage

pub data ModelCallStatus : Type 0 where
  succeeded failed : ModelCallStatus

pub data ToolCallStatus : Type 0 where
  awaiting_approval started succeeded failed : ToolCallStatus

abbrev pub is_active : UserStatus → Bool
is_active UserStatus.active = true
is_active UserStatus.inactive = false

abbrev pub is_received : AgentRunStatus → Bool
is_received AgentRunStatus.received = true
is_received _ = false

abbrev pub is_resolved : AgentRunStatus → Bool
is_resolved AgentRunStatus.resolved = true
is_resolved _ = false

abbrev pub is_executing : AgentRunStatus → Bool
is_executing AgentRunStatus.executing = true
is_executing _ = false

abbrev pub is_failed_call : ToolCallStatus → Bool
is_failed_call ToolCallStatus.failed = true
is_failed_call _ = false

abbrev pub is_started : ToolCallStatus → Bool
is_started ToolCallStatus.started = true
is_started _ = false

abbrev pub is_succeeded : ToolCallStatus → Bool
is_succeeded ToolCallStatus.succeeded = true
is_succeeded _ = false

abbrev pub same_stage : ModelCallStage → ModelCallStage → Bool
same_stage ModelCallStage.extraction ModelCallStage.extraction = true
same_stage ModelCallStage.decision ModelCallStage.decision = true
same_stage _ _ = false

abbrev pub status_value : UserStatus → String
status_value UserStatus.active = "active"
status_value UserStatus.inactive = "inactive"

abbrev pub policy_value : PolicyDecision → String
policy_value PolicyDecision.allow = "allow"
policy_value PolicyDecision.require_approval = "require_approval"
policy_value PolicyDecision.deny = "deny"

abbrev pub stage_value : ModelCallStage → String
stage_value ModelCallStage.extraction = "extraction"
stage_value ModelCallStage.decision = "decision"

abbrev pub claim_value : CannotProceedReason → String
claim_value CannotProceedReason.no_seats_available = "no_seats_available"
claim_value CannotProceedReason.user_inactive = "user_inactive"
