-- ===== src/Agent/History/Runs.antt =====
-- src/app/agent/executor.py, the public methods against the order of runs.
use saas_agent_lab.Common.{ℕ, refl}
use saas_agent_lab.Text.{Text, Unicode}
use saas_agent_lab.Api.Requests.{Request, serve}
use saas_agent_lab.Models.Enums.{OutcomeReason}
use saas_agent_lab.Schemas.Agent.{TargetToolName, ResolvedAssignmentGoal, DecisionContext}
use saas_agent_lab.Agent.Planner.{IntentPlan, DecisionPlan}
use saas_agent_lab.Agent.Plans.{
  Steps, any_intent, any_decision, extract_intent-Respects, decide-Respects, run-Respects,
}
use saas_agent_lab.Agent.Executor.Extraction.{extract_intent}
use saas_agent_lab.Agent.Executor.Admission.{start_call}
use saas_agent_lab.Agent.Executor.ToolCalls.{business, call_tool}
use saas_agent_lab.Agent.Executor.Decide.{decide}
use saas_agent_lab.Agent.Executor.Lifecycle.{run}
use saas_agent_lab.Services.Isolation.{serve-SameLog, run_tool-SameLog}
use saas_agent_lab.Session.Isolation.{SameLog, SameLog-preorder}
use saas_agent_lab.Agent.History.{RunsEvolve, RunsEvolve-preorder}
use saas_agent_lab.Agent.History.Updates.{same_runs}
use saas_agent_lab.Agent.History.Steps.{record_model_call-evolves, fail-evolves}
use saas_agent_lab.Agent.History.Admissions.{start_call-evolves, record_outcome-evolves}
use saas_agent_lab.Agent.History.Decisions.{
  before_request-evolves, end_decision-evolves, start_decision-evolves,
}
use saas_agent_lab.Agent.History.Extractions.{receive_run-evolves, finish_extraction-evolves}
use saas_agent_lab.Agent.History.Resolutions.{resolve_run-evolves}
use saas_agent_lab.Agent.History.Proposals.{finish_decision-evolves}
use saas_agent_lab.Session.{Exec}
use saas_agent_lab.Session.Respects.{Respects, respects_rules}

evolves_of_log : {A : Type 0} → (m : Exec A) → Respects SameLog m → Respects RunsEvolve m
evolves_of_log m h = record { at = λ w. same_runs w.db (m w).1.db (h.at w).runs }

pub serve-evolves : (u : Unicode) (r : Request) → Respects RunsEvolve (serve u r)
serve-evolves u r = evolves_of_log _ (serve-SameLog u r)

business-evolves :
    (id : ℕ) (t : TargetToolName) (g : ResolvedAssignmentGoal)
    → Respects RunsEvolve (business id t g)
unfolding business
business-evolves id t g =
    evolves_of_log _ (search (respects_rules, SameLog-preorder, run_tool-SameLog) depth 8)

pub call_tool-evolves : (id : ℕ) (t : TargetToolName) → Respects RunsEvolve (call_tool id t)
unfolding call_tool start_call
call_tool-evolves id t =
    search
      (
        respects_rules, RunsEvolve-preorder, start_call-evolves, business-evolves,
        record_outcome-evolves,
      )
      depth 12

evolving : (u : Unicode) → Steps u RunsEvolve (λ _. Unit)
evolving u = record {
  preorder = RunsEvolve-preorder;
  served = serve-evolves u;
  called = call_tool-evolves;
  requested = before_request-evolves;
  recorded = λ id stage call h. record_model_call-evolves id stage call;
  received = receive_run-evolves u;
  extracted = finish_extraction-evolves u;
  failed = λ id stage e. fail-evolves id _;
  resolved = resolve_run-evolves u;
  started = start_decision-evolves;
  finished = finish_decision-evolves;
  ended_planner = λ id code error_type. end_decision-evolves id OutcomeReason.planner_error _ refl;
  ended_unexpected = λ id e. end_decision-evolves id OutcomeReason.unexpected_error _ refl;
}

module _ (u : Unicode) where
  pub extract_intent-evolves :
      (id : ℕ) (planner : Text → IntentPlan) → Respects RunsEvolve (extract_intent u id planner)
  extract_intent-evolves id planner =
      extract_intent-Respects (evolving u) id planner λ i. any_intent (planner i)

  pub decide-evolves :
      (id : ℕ) (planner : DecisionContext → DecisionPlan)
      → Respects RunsEvolve (decide u id planner)
  decide-evolves id planner = decide-Respects (evolving u) id planner λ c. any_decision (planner c)

  pub run-evolves :
      (instruction actor : Text) (intent_planner : Text → IntentPlan)
      (decision_planner : DecisionContext → DecisionPlan)
      → Respects RunsEvolve (run u instruction actor intent_planner decision_planner)
  run-evolves instruction actor intent_planner decision_planner =
      run-Respects (evolving u) instruction actor intent_planner decision_planner
        (λ i. any_intent (intent_planner i)) λ c. any_decision (decision_planner c)
