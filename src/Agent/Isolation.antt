-- ===== src/Agent/Isolation.antt =====
-- src/app/agent/executor.py, the log transactions of a tool call against the tables of the application.
pub mod Steps
pub mod Plans
use saas_agent_lab.Common.{ℕ, refl, Option, none, some, String, Bool, true, false, List, [], ◌∷◌}
use saas_agent_lab.Text.{Text, Unicode}
use saas_agent_lab.Errors.{Exc}
use saas_agent_lab.Json.{Fields}
use saas_agent_lab.Models.{AgentRun, ToolCall, ModelCall}
use saas_agent_lab.Models.Enums.{AgentRunStatus, OutcomeReason, PolicyDecision, ModelCallStage}
use saas_agent_lab.Repositories.AgentRuns
use saas_agent_lab.Repositories.ToolCalls
use saas_agent_lab.Repositories.ModelCalls
use saas_agent_lab.Schemas.Agent.{
  TargetToolName, ResolvedAssignmentGoal, ModelCallRecord, ModelObservation, ToolError, ToolOutput,
}
use saas_agent_lab.Agent.Tools.Observe.{Outcome, output, error}
use saas_agent_lab.Agent.Executor.Runs.{end_run, record_model_call, fail}
use saas_agent_lab.Agent.Executor.Admission.{
  Limit, exceeded_limit, end_at_limit, refuse_over_limit, deny, hold_for_approval, by_policy, admit,
  start_call_transaction, start_call,
}
use saas_agent_lab.Agent.Executor.ToolCalls.{end_unshown, record_outcome, business, call_tool}
use saas_agent_lab.Agent.Executor.Decide.{check_request_limit, before_request}
use saas_agent_lab.Agent.Reads.{
  evaluate-Respects, get_run-Respects, current_status-Respects, persisted_goal-Respects,
}
use saas_agent_lab.Session.{World}
use saas_agent_lab.Session.Respects.{Respects, respects_rules}
use saas_agent_lab.Session.Isolation.{SameBusiness, SameBusiness-preorder, writes_log}

pub ruleset rules = (
  respects_rules, SameBusiness-preorder, writes_log, refl, get_run-Respects,
  current_status-Respects, persisted_goal-Respects, evaluate-Respects,
)

pub set_columns-SameBusiness :
    (id : ℕ) (f : AgentRun → AgentRun) → Respects SameBusiness (AgentRuns.set_columns id f)
unfolding AgentRuns.set_columns
set_columns-SameBusiness id f = search rules depth 8

pub set_call-SameBusiness :
    (id : ℕ) (f : ToolCall → ToolCall) → Respects SameBusiness (ToolCalls.set_columns id f)
unfolding ToolCalls.set_columns
set_call-SameBusiness id f = search rules depth 8

pub add_tool_call-SameBusiness : (c : ToolCall) → Respects SameBusiness (ToolCalls.add c)
unfolding ToolCalls.add
add_tool_call-SameBusiness c = search rules depth 10

pub add_model_call-SameBusiness : (c : ModelCall) → Respects SameBusiness (ModelCalls.add c)
unfolding ModelCalls.add
add_model_call-SameBusiness c = search rules depth 10

pub next_sequence_no-SameBusiness : (id : ℕ) → Respects SameBusiness (AgentRuns.next_sequence_no id)
unfolding AgentRuns.next_sequence_no
next_sequence_no-SameBusiness id = search rules depth 12

pub end_run-SameBusiness :
    (run : AgentRun) (s : AgentRunStatus) (r : OutcomeReason) (d : Option Fields)
    → Respects SameBusiness (end_run run s r d)
unfolding end_run
end_run-SameBusiness run s r d = search (rules, set_columns-SameBusiness) depth 8

pub ruleset writes = (
  rules, set_columns-SameBusiness, set_call-SameBusiness, add_tool_call-SameBusiness,
  add_model_call-SameBusiness, next_sequence_no-SameBusiness, end_run-SameBusiness,
)

pub record_model_call-SameBusiness :
    (id : ℕ) (s : ModelCallStage) (c : ModelCallRecord)
    → Respects SameBusiness (record_model_call id s c)
unfolding record_model_call
record_model_call-SameBusiness id s c = search writes depth 10

refuse-SameBusiness :
    (run : AgentRun) (c : ToolCall) (l : Limit) → Respects SameBusiness (refuse_over_limit run c l)
unfolding refuse_over_limit
refuse-SameBusiness run c (l, m) = search writes depth 10

by_policy-SameBusiness :
    (run : AgentRun) (g : ResolvedAssignmentGoal) (c : ToolCall) (d : Option PolicyDecision)
    → Respects SameBusiness (by_policy run g c d)
unfolding by_policy
by_policy-SameBusiness run g c (some PolicyDecision.deny) = search writes depth 12
by_policy-SameBusiness run g c (some PolicyDecision.require_approval) = search writes depth 12
by_policy-SameBusiness run g c _ = search writes depth 12

admit-SameBusiness :
    (run : AgentRun) (t : TargetToolName) (g : ResolvedAssignmentGoal) (c : ToolCall)
    (l : Option Limit)
    → Respects SameBusiness (admit run t g c l)
unfolding admit
admit-SameBusiness run t g c (some l) = search (writes, refuse-SameBusiness) depth 10
admit-SameBusiness run t g c none = search (writes, by_policy-SameBusiness) depth 10

pub start_call_transaction-SameBusiness :
    (id : ℕ) (t : TargetToolName) → Respects SameBusiness (start_call_transaction id t)
unfolding start_call_transaction ToolCalls.any_started exceeded_limit ToolCalls.count_for_tools
start_call_transaction-SameBusiness id t = search (writes, admit-SameBusiness) depth 24

end_unshown-SameBusiness :
    (run : AgentRun) (c : ToolCall) (o : Outcome) (shown : Option ModelObservation)
    → Respects SameBusiness (end_unshown run c o shown)
unfolding end_unshown
end_unshown-SameBusiness run c (error e) none = search writes
end_unshown-SameBusiness run c _ _ = search writes

pub record_outcome-SameBusiness :
    (id call : ℕ) (t : TargetToolName) (g : ResolvedAssignmentGoal) (o : Outcome)
    → Respects SameBusiness (record_outcome id call t g o)
unfolding record_outcome ToolCalls.get
record_outcome-SameBusiness id call t g o = search (writes, end_unshown-SameBusiness) depth 24

-- Neither log transaction of a tool call, that which admits it and that which records its outcome,
-- writes a user, a licence, an assignment or an audit event.
pub log_transactions-SameBusiness :
    (w : World) (run_id call_id : ℕ) (tool : TargetToolName) (goal : ResolvedAssignmentGoal)
    (outcome : Outcome)
    → SameBusiness w.db (start_call_transaction run_id tool w).1.db
      × SameBusiness w.db (record_outcome run_id call_id tool goal outcome w).1.db
log_transactions-SameBusiness w run_id call_id tool goal outcome = (
  (start_call_transaction-SameBusiness run_id tool).at w,
  (record_outcome-SameBusiness run_id call_id tool goal outcome).at w,
)
