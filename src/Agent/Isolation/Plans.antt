-- ===== src/Agent/Isolation/Plans.antt =====
-- src/app/agent/executor.py, what a whole run does to the tables of the application, from what its tool
-- calls and the requests served in between do.
use saas_agent_lab.Common.{ℕ}
use saas_agent_lab.Text.{Text, Unicode}
use saas_agent_lab.Api.Requests.{Request, serve}
use saas_agent_lab.Models.Enums.{OutcomeReason}
use saas_agent_lab.Schemas.Agent.{TargetToolName, ResolvedAssignmentGoal, DecisionContext}
use saas_agent_lab.Agent.Planner.{IntentPlan, DecisionPlan}
use saas_agent_lab.Agent.Plans.{Steps, any_intent, any_decision, run-Respects}
use saas_agent_lab.Agent.Tools
use saas_agent_lab.Agent.Executor.Admission.{start_call}
use saas_agent_lab.Agent.Executor.ToolCalls.{business, call_tool}
use saas_agent_lab.Agent.Executor.Lifecycle.{run}
use saas_agent_lab.Agent.Isolation.{
  start_call_transaction-SameBusiness, record_outcome-SameBusiness, record_model_call-SameBusiness,
}
use saas_agent_lab.Agent.Isolation.Steps.{
  fail-SameBusiness, receive_run-SameBusiness, finish_extraction-SameBusiness,
  resolve_run-SameBusiness, before_request-SameBusiness, end_decision-SameBusiness,
  start_decision-SameBusiness, finish_decision-SameBusiness,
}
use saas_agent_lab.Session.{Database, Exec}
use saas_agent_lab.Session.Isolation.{SameBusiness}
use saas_agent_lab.Session.Respects.{Preorder, Respects, respects_rules}

module _ {R : Database → Database → Type 0} (p : Preorder R)
    (same : (d e : Database) → SameBusiness d e → R d e) (u : Unicode)
    (served : (request : Request) → Respects R (serve u request))
    (ran : (tool : TargetToolName) (goal : ResolvedAssignmentGoal) (actor : Text)
      → Respects R (Tools.run tool goal actor)) where
  of_log : {A : Type 0} → (m : Exec A) → Respects SameBusiness m → Respects R m
  of_log m h = record { at = λ w. same w.db (m w).1.db (h.at w) }

  business-Respects :
      (id : ℕ) (t : TargetToolName) (g : ResolvedAssignmentGoal) → Respects R (business id t g)
  unfolding business
  business-Respects id t g = search (respects_rules, p, ran) depth 8

  pub call_tool-Respects : (id : ℕ) (t : TargetToolName) → Respects R (call_tool id t)
  unfolding call_tool start_call
  call_tool-Respects id t =
      search
        (
          respects_rules, p, of_log, start_call_transaction-SameBusiness, business-Respects,
          record_outcome-SameBusiness,
        )
        depth 12

  isolated : Steps u R (λ _. Unit)
  isolated = record {
    preorder = p;
    served = served;
    called = call_tool-Respects;
    requested = λ id. of_log _ (before_request-SameBusiness id);
    recorded = λ id stage call h. of_log _ (record_model_call-SameBusiness id stage call);
    received = λ i a. of_log _ (receive_run-SameBusiness u i a);
    extracted = λ id i e. of_log _ (finish_extraction-SameBusiness u id i e);
    failed = λ id stage e. of_log _ (fail-SameBusiness id _);
    resolved = λ id. of_log _ (resolve_run-SameBusiness u id);
    started = λ id. of_log _ (start_decision-SameBusiness id);
    finished = λ id x. of_log _ (finish_decision-SameBusiness id x);
    ended_planner =
        λ id code error_type. of_log _ (end_decision-SameBusiness id OutcomeReason.planner_error _);
    ended_unexpected =
        λ id e. of_log _ (end_decision-SameBusiness id OutcomeReason.unexpected_error _);
  }

  pub run-Isolated :
      (instruction actor : Text) (intent_planner : Text → IntentPlan)
      (decision_planner : DecisionContext → DecisionPlan)
      → Respects R (run u instruction actor intent_planner decision_planner)
  run-Isolated instruction actor intent_planner decision_planner =
      run-Respects isolated instruction actor intent_planner decision_planner
        (λ i. any_intent (intent_planner i)) λ c. any_decision (decision_planner c)
