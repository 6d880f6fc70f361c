-- ===== src/Agent/Executor/Admission.antt =====
-- src/app/agent/executor.py: `_start_call`, which admits a tool call, and the records of calls that are
-- refused, denied or held.
use saas_agent_lab.Common.{ℕ, String, Bool, not, Option, none, some, leb, if◌then◌else◌}
use saas_agent_lab.Errors.{run_not_executable, decision_stopped, at_most, policy_denies}
use saas_agent_lab.Json.{num, str, field, end}
use saas_agent_lab.Models.{AgentRun, ToolCall}
use saas_agent_lab.Models.Enums.{
  AgentRunStatus, OutcomeReason, ToolCallStatus, PolicyDecision, is_executing,
}
use saas_agent_lab.Repositories.AgentRuns
use saas_agent_lab.Repositories.ToolCalls
use saas_agent_lab.Schemas.Agent.{TargetToolName, ResolvedAssignmentGoal, ToolError}
use saas_agent_lab.Agent.Policy.{evaluate}
use saas_agent_lab.Agent.Tools.{
  recorded_name, is_mutation, recorded_mutations, recorded_reads, arguments,
}
use saas_agent_lab.Agent.Decision.{
  DecisionLimit, read_calls, mutation_calls, limit_value, max_decision_read_calls,
  max_decision_mutation_calls,
}
use saas_agent_lab.Agent.Executor.Runs.{
  get_run, end_run, cannot_now, unfinished_call, persisted_goal,
}
use saas_agent_lab.Agent.Executor.Details.{call_detail}
use saas_agent_lab.Session.{Exec, ⊤, pure, ◌>>=◌, ◌>>◌, raise_if, or_raise, transaction, utcnow}

abbrev pub Limit : Type 0
Limit = DecisionLimit × ℕ

abbrev pub limit_of : TargetToolName → Limit
limit_of tool =
    if is_mutation tool
    then (mutation_calls, max_decision_mutation_calls)
    else (read_calls, max_decision_read_calls)

abbrev pub kind_of : TargetToolName → String → Bool
kind_of tool = if is_mutation tool then recorded_mutations else recorded_reads

-- `_exceeded_limit`.
unfoldable pub exceeded_limit : ℕ → TargetToolName → Exec (Option Limit)
exceeded_limit run_id tool = do
  made ← ToolCalls.count_for_tools run_id (kind_of tool)
  pure (if leb (limit_of tool).1 made then some (limit_of tool) else none)

-- `_end_at_limit`.
unfoldable pub end_at_limit : AgentRun → Limit → Exec ⊤
end_at_limit run (limit, maximum) =
    end_run run AgentRunStatus.failed OutcomeReason.step_limit
      (some (field "limit" (str (limit_value limit)) (field "maximum" (num maximum) end)))

-- The call as constructed; its status is set on every branch before the row is added.
abbrev pub new_call : ℕ → ℕ → TargetToolName → ResolvedAssignmentGoal → ToolCall
new_call run_id sequence_no tool goal = record {
  id = 0;
  agent_run_id = run_id;
  sequence_no = sequence_no;
  tool_name = recorded_name tool;
  arguments = arguments tool goal;
  status = ToolCallStatus.started;
  policy_decision = none;
  result = none;
  error = none;
  observation = none;
  created_at = 0;
  completed_at = none;
}

abbrev pub refused : ToolCall → ToolError → ℕ → ToolCall
refused call error completed_at = record call {
  status = ToolCallStatus.failed;
  error = some error;
  completed_at = some completed_at;
}

-- `_refuse_over_limit`.
unfoldable pub refuse_over_limit : AgentRun → ToolCall → Limit → Exec ⊤
unfolding end_at_limit
refuse_over_limit run call (limit, maximum) = do
  completed_at ← utcnow
  ToolCalls.add (
      refused call
        (record {
          code = "step_limit";
          message = at_most maximum (limit_value limit);
          error_type = none;
        })
        completed_at)
  end_at_limit run (limit, maximum)

-- `_deny`.
unfoldable pub deny : AgentRun → ToolCall → Exec ⊤
deny run call = do
  completed_at ← utcnow
  added ← ToolCalls.add (
      refused call
        (record {
          code = "policy_denied";
          message = policy_denies call.tool_name;
          error_type = none;
        })
        completed_at)
  end_run run AgentRunStatus.blocked OutcomeReason.policy_denied (some (call_detail added))

abbrev pub paused : AgentRun → AgentRun
paused run = record run { status = AgentRunStatus.awaiting_approval }

-- `_hold_for_approval`.
unfoldable pub hold_for_approval : AgentRun → ToolCall → Exec ⊤
hold_for_approval run call = do
  ToolCalls.add (record call { status = ToolCallStatus.awaiting_approval })
  AgentRuns.set_columns run.id paused

abbrev pub Admitted : Type 0
Admitted = ℕ × ResolvedAssignmentGoal

-- The `match` on the policy decision, which is recorded with the call.
unfoldable pub by_policy :
    AgentRun → ResolvedAssignmentGoal → ToolCall → Option PolicyDecision → Exec (Option Admitted)
unfolding deny hold_for_approval
by_policy run goal call (some PolicyDecision.deny) = do deny run call; pure none
by_policy run goal call (some PolicyDecision.require_approval) = do
  hold_for_approval run call
  pure none
by_policy run goal call _ = do added ← ToolCalls.add call; pure (some (added.id, goal))

unfoldable pub admit :
    AgentRun
    → TargetToolName
    → ResolvedAssignmentGoal
    → ToolCall
    → Option Limit
    → Exec (Option Admitted)
unfolding refuse_over_limit by_policy
admit run tool goal call (some exceeded) = do refuse_over_limit run call exceeded; pure none
admit run tool goal call none = do
  decision ← evaluate tool goal
  by_policy run goal (record call { policy_decision = decision }) decision

-- The one transaction of `_start_call`: what it returns is `none` if the call may not run.
unfoldable pub start_call_transaction : ℕ → TargetToolName → Exec (Option Admitted)
unfolding admit exceeded_limit
start_call_transaction run_id tool = transaction (do
  run ← get_run run_id
  raise_if (not (is_executing run.status)) (run_not_executable run_id run.status cannot_now)
  unfinished ← ToolCalls.any_started run.id
  raise_if unfinished (run_not_executable run_id run.status unfinished_call)
  goal ← persisted_goal run
  sequence_no ← AgentRuns.next_sequence_no run.id
  exceeded ← exceeded_limit run.id tool
  admit run tool goal (new_call run.id sequence_no tool goal) exceeded)

-- `_start_call`: the exception is raised after the commit.
unfoldable pub start_call : ℕ → TargetToolName → Exec Admitted
start_call run_id tool = do
  admitted ← start_call_transaction run_id tool
  or_raise admitted (decision_stopped run_id)
