-- ===== src/Agent/Executor/Decide.antt =====
-- src/app/agent/executor.py: `decide`, and how a decision ends.
use saas_agent_lab.Common.{ℕ, Bool, true, false, not, Option, none, some, ltb, if◌then◌else◌}
use saas_agent_lab.Text.{Unicode}
use saas_agent_lab.Errors.{run_not_executable, decision_stopped, planner_error}
use saas_agent_lab.Json.{Fields}
use saas_agent_lab.Models.{AgentRun, ToolCall}
use saas_agent_lab.Models.Enums.{
  AgentRunStatus, OutcomeReason, DecisionProposalKind, CannotProceedReason, ModelCallStage,
  is_resolved, is_executing, is_failed_call,
}
use saas_agent_lab.Repositories.AgentRuns
use saas_agent_lab.Repositories.ModelCalls
use saas_agent_lab.Repositories.ToolCalls
use saas_agent_lab.Schemas.Agent.{
  DecisionContext, DecisionProposal, goal_reached, no_action_needed, cannot_proceed,
  ResolvedAssignmentGoal, ToolError, VerificationResult, BlockCheck,
}
use saas_agent_lab.Agent.Planner.{DecisionPlan}
use saas_agent_lab.Agent.Verifier.{verify, check_block}
use saas_agent_lab.Agent.Decision.{model_requests, max_decision_model_requests, decision_outcome}
use saas_agent_lab.Agent.Decision.Prompt.{decision_context}
use saas_agent_lab.Agent.Tools.{recorded_mutations}
use saas_agent_lab.Agent.Tools.Rules.{blocking_reason}
use saas_agent_lab.Agent.Executor.Runs.{
  get_run, current_status, end_run, unexpected_detail, fail, cannot_now, unfinished_call,
  persisted_goal, record_model_call,
}
use saas_agent_lab.Agent.Executor.Details.{call_detail, verified_detail}
use saas_agent_lab.Agent.Executor.Extraction.{planner_detail}
use saas_agent_lab.Agent.Executor.Admission.{end_at_limit}
use saas_agent_lab.Agent.Executor.ToolCalls.{call_tool}
use saas_agent_lab.Api.Requests.{serve}
use saas_agent_lab.Session.{
  Result, ok, raise, Exec, ⊤, pure, raise_error, lift, ◌>>=◌, ◌>>◌, raise_if, attempt, transaction,
}

-- The run is ended at the limit; what is returned is whether the request may be made.
unfoldable pub check_request_limit : ℕ → ℕ → Exec Bool
check_request_limit run_id made = if ltb made max_decision_model_requests then pure true else do
  run ← get_run run_id
  end_at_limit run (model_requests, max_decision_model_requests)
  pure false

-- `before_request`: the exception is raised after the commit.
unfoldable pub before_request : ℕ → Exec ⊤
unfolding check_request_limit
before_request run_id = do
  allowed ← transaction (do
    made ← ModelCalls.count_for_stage run_id ModelCallStage.decision
    check_request_limit run_id made)
  raise_if (not allowed) (decision_stopped run_id)

-- The planner runs with no session open; each callback opens and closes its own.
unfoldable pub run_decision_plan : Unicode → ℕ → DecisionPlan → Exec DecisionProposal
run_decision_plan u run_id (DecisionPlan.concludes proposal) = pure proposal
run_decision_plan u run_id (DecisionPlan.fails error) = raise_error error
run_decision_plan u run_id (DecisionPlan.calls_tool tool next) = do
  r ← attempt (call_tool run_id tool)
  run_decision_plan u run_id (next r)
run_decision_plan u run_id (DecisionPlan.requests next) = do
  r ← attempt (before_request run_id)
  run_decision_plan u run_id (next r)
run_decision_plan u run_id (DecisionPlan.records call next) = do
  r ← attempt (record_model_call run_id ModelCallStage.decision call)
  run_decision_plan u run_id (next r)
run_decision_plan u run_id (DecisionPlan.meanwhile request next) = do
  serve u request
  run_decision_plan u run_id next

abbrev pub proposal_kind : DecisionProposal → DecisionProposalKind
proposal_kind goal_reached = DecisionProposalKind.goal_reached
proposal_kind no_action_needed = DecisionProposalKind.no_action_needed
proposal_kind (cannot_proceed _) = DecisionProposalKind.cannot_proceed

-- The reason's column is written only for a `CannotProceed`.
abbrev pub reason_column :
    DecisionProposal → Option CannotProceedReason → Option CannotProceedReason
reason_column (cannot_proceed reason) _ = some reason
reason_column _ column = column

abbrev pub verifying_with : DecisionProposal → AgentRun → AgentRun
verifying_with proposal run = record run {
  decision_proposal = some (proposal_kind proposal);
  decision_reason_code = reason_column proposal run.decision_reason_code;
  status = AgentRunStatus.verifying;
}

abbrev pub reason_for : Option ToolError → Option OutcomeReason
reason_for none = none
reason_for (some error) = blocking_reason error.code

-- `_blocking_rejection`.
unfoldable pub blocking_rejection : Option ToolCall → Option OutcomeReason
blocking_rejection none = none
blocking_rejection (some attempted) =
    if is_failed_call attempted.status then reason_for attempted.error else none

abbrev pub rejection_detail : Option OutcomeReason → Option ToolCall → Option Fields
rejection_detail (some _) (some attempted) = some (call_detail attempted)
rejection_detail _ _ = none

-- What the first transaction of `_finish_decision` read.
pub record Concluded : Type 0 where
  pub goal : ResolvedAssignmentGoal
  pub changed : Bool
  pub attempted : Option ToolCall

unfoldable pub record_proposal : ℕ → DecisionProposal → Exec Concluded
record_proposal run_id proposal = transaction (do
  run ← get_run run_id
  raise_if (not (is_executing run.status)) (run_not_executable run_id run.status cannot_now)
  unfinished ← ToolCalls.any_started run.id
  raise_if unfinished (run_not_executable run_id run.status unfinished_call)
  AgentRuns.set_columns run.id (verifying_with proposal)
  goal ← persisted_goal (verifying_with proposal run)
  changed ← ToolCalls.any_succeeded run.id recorded_mutations
  attempted ← ToolCalls.latest_for_tools run.id recorded_mutations
  pure (record { goal = goal; changed = changed; attempted = attempted }))

abbrev pub Verified : Type 0
Verified = VerificationResult × Option BlockCheck

unfoldable pub claim_check :
    ResolvedAssignmentGoal → DecisionProposal → Bool → Exec (Option BlockCheck)
claim_check goal (cannot_proceed reason) false = do
  checked ← check_block goal reason
  pure (some checked)
claim_check goal _ _ = pure none

-- The READ session: current state only.
unfoldable pub verify_proposal : ResolvedAssignmentGoal → DecisionProposal → Exec Verified
unfolding claim_check
verify_proposal goal proposal = do
  result ← verify goal
  block_check ← claim_check goal proposal result.satisfied
  pure (result, block_check)

abbrev pub is_confirmed : Option BlockCheck → Bool
is_confirmed none = false
is_confirmed (some check) = check.confirmed

unfoldable pub end_verified : ℕ → DecisionProposal → Concluded → Verified → Exec AgentRunStatus
end_verified run_id proposal concluded (result, block_check) = do
  let rejection = blocking_rejection concluded.attempted
  outcome ← lift (
      decision_outcome proposal result.satisfied concluded.changed rejection
        (is_confirmed block_check))
  transaction (do
    run ← get_run run_id
    end_run run outcome.0 outcome.1
        (some (verified_detail result (rejection_detail rejection concluded.attempted) block_check))
    current_status run_id)

unfoldable pub after_verification :
    ℕ → DecisionProposal → Concluded → Result Verified → Exec AgentRunStatus
after_verification run_id proposal concluded (ok verified) =
    end_verified run_id proposal concluded verified
after_verification run_id proposal concluded (raise error) =
    fail run_id (unexpected_detail "verification" error)

-- `_finish_decision`.
unfoldable pub finish_decision : ℕ → DecisionProposal → Exec AgentRunStatus
finish_decision run_id proposal = do
  concluded ← record_proposal run_id proposal
  verified ← attempt (verify_proposal concluded.goal proposal)
  after_verification run_id proposal concluded verified

-- A run that a tool call has ended already keeps that outcome.
unfoldable pub end_if_executing : AgentRun → OutcomeReason → Fields → Exec ⊤
end_if_executing run reason detail =
    if is_executing run.status
    then end_run run AgentRunStatus.failed reason (some detail)
    else pure tt

-- `_end_decision`.
unfoldable pub end_decision : ℕ → OutcomeReason → Fields → Exec AgentRunStatus
unfolding end_if_executing
end_decision run_id reason detail =
    transaction (do run ← get_run run_id; end_if_executing run reason detail; current_status run_id)

-- The `except` clauses around `planner.decide`.
unfoldable pub after_decision_plan : ℕ → Result DecisionProposal → Exec AgentRunStatus
after_decision_plan run_id (ok proposal) = finish_decision run_id proposal
after_decision_plan run_id (raise (decision_stopped _)) = current_status run_id
after_decision_plan run_id (raise (planner_error code error_type)) =
    end_decision run_id OutcomeReason.planner_error
      (planner_detail ModelCallStage.decision code error_type)
after_decision_plan run_id (raise error) =
    end_decision run_id OutcomeReason.unexpected_error (unexpected_detail "decision" error)

abbrev pub executing_with : DecisionContext → AgentRun → AgentRun
executing_with context run = record run {
  decision_context = some context;
  status = AgentRunStatus.executing;
}

-- What the model will be told is persisted, and the run starts executing.
unfoldable pub start_decision : ℕ → Exec DecisionContext
start_decision run_id = transaction (do
  run ← get_run run_id
  raise_if (not (is_resolved run.status)) (run_not_executable run_id run.status cannot_now)
  goal ← persisted_goal run
  let context = decision_context goal.extracted_user_email goal.extracted_product
  AgentRuns.set_columns run.id (executing_with context)
  pure context)

unfoldable pub decide : Unicode → ℕ → (DecisionContext → DecisionPlan) → Exec AgentRunStatus
decide u run_id planner = do
  context ← start_decision run_id
  result ← attempt (run_decision_plan u run_id (planner context))
  after_decision_plan run_id result
