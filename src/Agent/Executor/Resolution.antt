-- ===== src/Agent/Executor/Resolution.antt =====
-- src/app/agent/executor.py: `resolve_run`.
use saas_agent_lab.Common.{ℕ, not, some}
use saas_agent_lab.Text.{Unicode}
use saas_agent_lab.Errors.{run_not_executable}
use saas_agent_lab.Models.{AgentRun}
use saas_agent_lab.Models.Enums.{AgentRunStatus, is_received}
use saas_agent_lab.Repositories.AgentRuns
use saas_agent_lab.Schemas.Agent.{ResolvedAssignmentGoal}
use saas_agent_lab.Agent.Resolver.{Resolution, goal, failure, resolve_assignment_goal}
use saas_agent_lab.Agent.Executor.Runs.{
  get_run, current_status, end_run, unexpected_detail, fail, cannot_now, extracted_text,
}
use saas_agent_lab.Session.{
  Result, ok, raise, Exec, ⊤, ◌>>=◌, ◌>>◌, raise_if, or_raise, attempt, transaction,
}

abbrev pub resolved_to : ResolvedAssignmentGoal → AgentRun → AgentRun
resolved_to g run = record run {
  resolved_user_id = some g.user_id;
  resolved_licence_id = some g.licence_id;
  status = AgentRunStatus.resolved;
}

unfoldable pub record_resolution : AgentRun → Resolution → Exec ⊤
record_resolution run (failure f) =
    end_run run AgentRunStatus.needs_clarification f.code (some f.detail)
record_resolution run (goal g) = AgentRuns.set_columns run.id (resolved_to g)

-- The `except` clause around the resolver, and the transaction behind it.
unfoldable pub after_resolver : ℕ → Result Resolution → Exec AgentRunStatus
after_resolver run_id (raise error) = fail run_id (unexpected_detail "resolution" error)
after_resolver run_id (ok resolution) =
    transaction (do run ← get_run run_id; record_resolution run resolution; current_status run_id)

unfoldable pub resolve_run : Unicode → ℕ → Exec AgentRunStatus
resolve_run u run_id = do
  run ← get_run run_id
  raise_if (not (is_received run.status)) (run_not_executable run_id run.status cannot_now)
  text ← or_raise (extracted_text run) (run_not_executable run_id run.status cannot_now)
  resolution ← attempt (resolve_assignment_goal u text.0 text.1)
  after_resolver run_id resolution
