-- ===== src/Agent/Executor/ToolCalls.antt =====
-- src/app/agent/executor.py: `call_tool`, whose business transaction stands between two of the log.
use saas_agent_lab.Common.{ℕ, Option, none, some}
use saas_agent_lab.Text.{Text}
use saas_agent_lab.Errors.{other, decision_stopped}
use saas_agent_lab.Models.{AgentRun, ToolCall}
use saas_agent_lab.Models.Enums.{AgentRunStatus, OutcomeReason, ToolCallStatus}
use saas_agent_lab.Repositories.ToolCalls
use saas_agent_lab.Schemas.Agent.{
  TargetToolName, ResolvedAssignmentGoal, ToolOutput, ModelObservation,
}
use saas_agent_lab.Services.Validation.{agent_run_actor}
use saas_agent_lab.Agent.Tools
use saas_agent_lab.Agent.Tools.{recorded_name}
use saas_agent_lab.Agent.Tools.Rules.{tool_error}
use saas_agent_lab.Agent.Tools.Observe.{Outcome, output, error, observe, serialize}
use saas_agent_lab.Agent.Executor.Runs.{get_run, end_run}
use saas_agent_lab.Agent.Executor.Details.{call_detail}
use saas_agent_lab.Agent.Executor.Admission.{start_call}
use saas_agent_lab.Session.{
  Result, ok, raise, Exec, ⊤, pure, lift, ◌>>=◌, ◌>>◌, or_raise, attempt, transaction, utcnow,
}

-- The service call and its audit event, in one transaction.
unfoldable pub business : ℕ → TargetToolName → ResolvedAssignmentGoal → Exec ToolOutput
business run_id tool goal =
    transaction (do actor ← lift (agent_run_actor run_id); Tools.run tool goal actor)

abbrev pub outcome_of : TargetToolName → Result ToolOutput → Outcome
outcome_of tool (ok o) = output o
outcome_of tool (raise e) = error (tool_error e (recorded_name tool))

abbrev pub shown_text : Option ModelObservation → Option Text
shown_text none = none
shown_text (some observation) = some (serialize observation)

-- The attributes of the call that are set with its outcome.
abbrev pub with_outcome : Outcome → Option Text → ℕ → ToolCall → ToolCall
with_outcome (error e) observation completed_at call = record call {
  status = ToolCallStatus.failed;
  error = some e;
  observation = observation;
  completed_at = some completed_at;
}
with_outcome (output o) observation completed_at call = record call {
  status = ToolCallStatus.succeeded;
  result = some o;
  observation = observation;
  completed_at = some completed_at;
}

-- A failure that the model is not shown ends the run.
unfoldable pub end_unshown : AgentRun → ToolCall → Outcome → Option ModelObservation → Exec ⊤
end_unshown run call (error e) none =
    end_run run AgentRunStatus.failed OutcomeReason.tool_failed (some (call_detail call))
end_unshown run call _ _ = pure tt

unfoldable pub record_outcome :
    ℕ → ℕ → TargetToolName → ResolvedAssignmentGoal → Outcome → Exec (Option Text)
unfolding end_unshown
record_outcome run_id call_id tool goal outcome = transaction (do
  run ← get_run run_id
  found ← ToolCalls.get call_id
  call ← or_raise found (other "RuntimeError")
  completed_at ← utcnow
  let observation = observe tool goal outcome
  let shown = shown_text observation
  ToolCalls.set_columns call_id (with_outcome outcome shown completed_at)
  end_unshown run (with_outcome outcome shown completed_at call) outcome observation
  pure shown)

unfoldable pub call_tool : ℕ → TargetToolName → Exec Text
unfolding record_outcome business
call_tool run_id tool = do
  (call_id, goal) ← start_call run_id tool
  result ← attempt (business run_id tool goal)
  shown ← record_outcome run_id call_id tool goal (outcome_of tool result)
  or_raise shown (decision_stopped run_id)
