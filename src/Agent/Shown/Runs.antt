-- ===== src/Agent/Shown/Runs.antt =====
-- src/app/agent/executor.py, a whole run and what src/app/schemas/agent_runs.py can show of its rows.
use saas_agent_lab.Common.{ℕ}
use saas_agent_lab.Text.{Text, Unicode}
use saas_agent_lab.Schemas.Agent.{
  TargetToolName, ResolvedAssignmentGoal, DecisionContext, ModelCallRecord,
}
use saas_agent_lab.Schemas.AgentRuns.Views.{IsDump}
use saas_agent_lab.Services.Isolation.{serve-SameLog, run_tool-SameLog}
use saas_agent_lab.Agent.Planner.{IntentPlan, DecisionPlan}
use saas_agent_lab.Agent.Plans.{Steps, IntentRecords, DecisionRecords, run-Respects}
use saas_agent_lab.Agent.Executor.Admission.{start_call}
use saas_agent_lab.Agent.Executor.ToolCalls.{business, call_tool}
use saas_agent_lab.Agent.Executor.Lifecycle.{run}
use saas_agent_lab.Agent.Shown.{
  StaysShown, StaysShown-preorder, start_call_transaction-Shown, record_outcome-Shown,
  record_model_call-Shown,
}
use saas_agent_lab.Agent.Shown.Endings.{
  fail-Shown, receive_run-Shown, finish_extraction-Shown, before_request-Shown,
  end_unexpected-Shown, end_planner-Shown, start_decision-Shown,
}
use saas_agent_lab.Agent.Shown.Conclusions.{resolve_run-Shown, finish_decision-Shown}
use saas_agent_lab.Session.{Database, Exec}
use saas_agent_lab.Session.Isolation.{SameLog, SameLog-preorder}
use saas_agent_lab.Session.Respects.{Respects, respects_rules}

of_SameLog : (d e : Database) → SameLog d e → StaysShown d e
of_SameLog d e same = record {
  keep = λ h. record {
    runs = rw same.runs h.runs;
    tool_calls = rw same.tool_calls h.tool_calls;
    model_calls = rw same.model_calls h.model_calls;
  };
}

of_log : {A : Type 0} → (m : Exec A) → Respects SameLog m → Respects StaysShown m
of_log m h = record { at = λ w. of_SameLog w.db (m w).1.db (h.at w) }

business-Shown :
    (id : ℕ) (t : TargetToolName) (g : ResolvedAssignmentGoal)
    → Respects StaysShown (business id t g)
unfolding business
business-Shown id t g =
    of_log _ (search (respects_rules, SameLog-preorder, run_tool-SameLog) depth 8)

call_tool-Shown : (id : ℕ) (t : TargetToolName) → Respects StaysShown (call_tool id t)
unfolding call_tool start_call
call_tool-Shown id t =
    search
      (
        respects_rules, StaysShown-preorder, start_call_transaction-Shown, business-Shown,
        record_outcome-Shown,
      )
      depth 12

-- What a planner of this program records: an output that it has accepted, or none.
abbrev pub RecordsDump : ModelCallRecord → Type 0
RecordsDump call = IsDump call.output

showing : (u : Unicode) → Steps u StaysShown RecordsDump
showing u = record {
  preorder = StaysShown-preorder;
  served = λ request. of_log _ (serve-SameLog u request);
  called = call_tool-Shown;
  requested = before_request-Shown;
  recorded = record_model_call-Shown;
  received = receive_run-Shown u;
  extracted = finish_extraction-Shown u;
  failed = fail-Shown;
  resolved = resolve_run-Shown u;
  started = start_decision-Shown;
  finished = finish_decision-Shown;
  ended_planner = end_planner-Shown;
  ended_unexpected = end_unexpected-Shown;
}

pub run-StaysShown :
    (u : Unicode) (instruction actor : Text) (intent_planner : Text → IntentPlan)
    (decision_planner : DecisionContext → DecisionPlan)
    → ((i : Text) → IntentRecords RecordsDump (intent_planner i))
    → ((c : DecisionContext) → DecisionRecords RecordsDump (decision_planner c))
    → Respects StaysShown (run u instruction actor intent_planner decision_planner)
run-StaysShown u = run-Respects (showing u)
