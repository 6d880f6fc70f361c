-- ===== src/Models/Checks.antt =====
-- src/app/models/agent_run.py: the CHECK constraints of `agent_runs`, one function for each, over the
-- columns that it reads. A CHECK that evaluates to NULL passes, which is written out here.
use saas_agent_lab.Common.{
  ℕ, ◌≡◌, Bool, true, false, not, ◌&&◌, ◌||◌, Option, none, some, is_none, is_some, leb,
}
use saas_agent_lab.Text.{Text}
use saas_agent_lab.Models.{AgentRun, ModelCall}
use saas_agent_lab.Models.Enums.{
  AgentRunStatus, GoalType, DesiredState, OutcomeReason, DecisionProposalKind, CannotProceedReason,
  ModelCallStatus,
}
use saas_agent_lab.Schemas.Agent.{DecisionContext}

-- `=` of two truth values.
abbrev pub agree : Bool → Bool → Bool
agree true b = b
agree false b = not b

-- The statuses of a run that has ended.
abbrev pub is_terminal : AgentRunStatus → Bool
is_terminal AgentRunStatus.received = false
is_terminal AgentRunStatus.resolved = false
is_terminal AgentRunStatus.executing = false
is_terminal AgentRunStatus.awaiting_approval = false
is_terminal AgentRunStatus.verifying = false
is_terminal _ = true

abbrev pub resolved_ids_together : Option ℕ → Option ℕ → Bool
resolved_ids_together user licence = agree (is_none user) (is_none licence)

abbrev pub goal_columns_together :
    Option GoalType → Option DesiredState → Option Text → Option Text → Bool
goal_columns_together goal desired email product =
    agree (is_none goal) (is_none desired)
    && (agree (is_none goal) (is_none email) && agree (is_none goal) (is_none product))

abbrev pub resolved_ids_need_goal : Option ℕ → Option GoalType → Bool
resolved_ids_need_goal user goal = is_none user || is_some goal

abbrev pub is_extraction_outcome : Option OutcomeReason → Bool
is_extraction_outcome (some OutcomeReason.unsupported_request) = true
is_extraction_outcome (some OutcomeReason.instruction_unclear) = true
is_extraction_outcome _ = false

-- A NULL reason passes.
abbrev pub extraction_outcome_has_no_goal : Option OutcomeReason → Option GoalType → Bool
extraction_outcome_has_no_goal reason goal = not (is_extraction_outcome reason) || is_none goal

abbrev pub resolved_ids_match_status : AgentRunStatus → Option ℕ → Bool
resolved_ids_match_status AgentRunStatus.failed user = true
resolved_ids_match_status AgentRunStatus.received user = is_none user
resolved_ids_match_status AgentRunStatus.needs_clarification user = is_none user
resolved_ids_match_status _ user = is_some user

abbrev pub completed_at_iff_terminal : Option ℕ → AgentRunStatus → Bool
completed_at_iff_terminal completed_at status =
    agree (is_none completed_at) (not (is_terminal status))

-- The reasons that go with each ending.
abbrev pub goes_with : AgentRunStatus → OutcomeReason → Bool
goes_with AgentRunStatus.completed OutcomeReason.goal_satisfied = true
goes_with AgentRunStatus.completed OutcomeReason.already_satisfied = true
goes_with AgentRunStatus.needs_clarification OutcomeReason.unsupported_request = true
goes_with AgentRunStatus.needs_clarification OutcomeReason.instruction_unclear = true
goes_with AgentRunStatus.needs_clarification OutcomeReason.invalid_input = true
goes_with AgentRunStatus.needs_clarification OutcomeReason.user_not_found = true
goes_with AgentRunStatus.needs_clarification OutcomeReason.licence_not_found = true
goes_with AgentRunStatus.needs_clarification OutcomeReason.licence_ambiguous = true
goes_with AgentRunStatus.blocked OutcomeReason.no_seats_available = true
goes_with AgentRunStatus.blocked OutcomeReason.user_inactive = true
goes_with AgentRunStatus.blocked OutcomeReason.policy_denied = true
goes_with AgentRunStatus.failed OutcomeReason.planner_error = true
goes_with AgentRunStatus.failed OutcomeReason.goal_scope_violation = true
goes_with AgentRunStatus.failed OutcomeReason.tool_failed = true
goes_with AgentRunStatus.failed OutcomeReason.verification_failed = true
goes_with AgentRunStatus.failed OutcomeReason.step_limit = true
goes_with AgentRunStatus.failed OutcomeReason.unexpected_error = true
goes_with _ _ = false

abbrev pub outcome_matches_status : AgentRunStatus → Option OutcomeReason → Bool
outcome_matches_status status none = not (is_terminal status)
outcome_matches_status status (some reason) = goes_with status reason

abbrev pub decision_context_needs_resolution : Option DecisionContext → Option ℕ → Bool
decision_context_needs_resolution context user = is_none context || is_some user

abbrev pub decision_proposal_needs_context :
    Option DecisionProposalKind → Option DecisionContext → Bool
decision_proposal_needs_context proposal context = is_none proposal || is_some context

abbrev pub decision_reason_matches_proposal :
    Option DecisionProposalKind → Option CannotProceedReason → Bool
decision_reason_matches_proposal (some DecisionProposalKind.cannot_proceed) reason = is_some reason
decision_reason_matches_proposal _ reason = is_none reason

-- A row that the database accepts. `last_sequence_no >= 0` holds of every natural number.
pub record RunChecks (r : AgentRun) : Type 0 where
  pub ids_together : resolved_ids_together r.resolved_user_id r.resolved_licence_id ≡ true
  pub columns_together :
      goal_columns_together r.goal_type r.desired_state r.extracted_user_email r.extracted_product
      ≡ true
  pub ids_need_goal : resolved_ids_need_goal r.resolved_user_id r.goal_type ≡ true
  pub no_goal : extraction_outcome_has_no_goal r.outcome_reason r.goal_type ≡ true
  pub ids_match : resolved_ids_match_status r.status r.resolved_user_id ≡ true
  pub completed_iff : completed_at_iff_terminal r.completed_at r.status ≡ true
  pub outcome_matches : outcome_matches_status r.status r.outcome_reason ≡ true
  pub context_resolved :
      decision_context_needs_resolution r.decision_context r.resolved_user_id ≡ true
  pub proposal_context :
      decision_proposal_needs_context r.decision_proposal r.decision_context ≡ true
  pub reason_matches :
      decision_reason_matches_proposal r.decision_proposal r.decision_reason_code ≡ true

-- The constraints of `model_calls`: a position from 1 on, both token counts or neither, and an output
-- or an error as the status says. The other counts are natural numbers.
abbrev pub call_outcome_matches : ModelCallStatus → Bool → Bool → Bool → Bool
call_outcome_matches ModelCallStatus.succeeded output error tokens = output && (not error && tokens)
call_outcome_matches ModelCallStatus.failed output error tokens = not output && error

abbrev pub is_valid_call : ModelCall → Bool
is_valid_call c =
    leb 1 c.sequence_no
    && (agree (is_none c.input_tokens) (is_none c.output_tokens)
        && call_outcome_matches c.status (is_some c.output) (is_some c.error)
            (is_some c.input_tokens))
