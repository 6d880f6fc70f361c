-- ===== src/Agent/PydanticAi/DecisionPlanner/Calls.antt =====
-- src/app/agent/executor.py: the steps of a decision that add no model call.
use saas_agent_lab.Common.{ℕ, Option, none, some}
use saas_agent_lab.Errors.{decision_stopped, planner_error}
use saas_agent_lab.Json.{Fields}
use saas_agent_lab.Models.{AgentRun, ToolCall}
use saas_agent_lab.Models.Enums.{OutcomeReason, PolicyDecision}
use saas_agent_lab.Repositories.ToolCalls
use saas_agent_lab.Repositories.ModelCalls
use saas_agent_lab.Schemas.Agent.{
  TargetToolName, ResolvedAssignmentGoal, ModelObservation, DecisionProposal,
}
use saas_agent_lab.Services.Isolation.{run_tool-SameLog}
use saas_agent_lab.Agent.Tools.Observe.{Outcome, error}
use saas_agent_lab.Agent.Executor.Admission.{
  Limit, exceeded_limit, end_at_limit, refuse_over_limit, by_policy, admit, start_call_transaction,
  start_call,
}
use saas_agent_lab.Agent.Executor.ToolCalls.{end_unshown, record_outcome, business, call_tool}
use saas_agent_lab.Agent.Executor.Decide.{
  check_request_limit, before_request, end_if_executing, end_decision, start_decision,
  record_proposal, Concluded, Verified, end_verified, after_verification, finish_decision,
  after_decision_plan,
}
use saas_agent_lab.Agent.Reads.{current_status-Respects, verify_proposal-Respects}
use saas_agent_lab.Agent.PydanticAi.Calls.{writes, fail-SameCalls}
use saas_agent_lab.Agent.PydanticAi.Grows.{SameCalls, SameCalls-preorder}
use saas_agent_lab.Session.{Result, ok, raise}
use saas_agent_lab.Session.Isolation.{SameLog, SameLog-preorder}
use saas_agent_lab.Session.Respects.{Respects, respects_rules}

business-SameLog :
    (id : ℕ) (t : TargetToolName) (g : ResolvedAssignmentGoal) → Respects SameLog (business id t g)
unfolding business
business-SameLog id t g = search (respects_rules, SameLog-preorder, run_tool-SameLog) depth 8

refuse-SameCalls :
    (run : AgentRun) (c : ToolCall) (l : Limit) → Respects SameCalls (refuse_over_limit run c l)
unfolding refuse_over_limit
refuse-SameCalls run c (l, m) = search writes depth 10

by_policy-SameCalls :
    (run : AgentRun) (g : ResolvedAssignmentGoal) (c : ToolCall) (d : Option PolicyDecision)
    → Respects SameCalls (by_policy run g c d)
unfolding by_policy
by_policy-SameCalls run g c (some PolicyDecision.deny) = search writes depth 12
by_policy-SameCalls run g c (some PolicyDecision.require_approval) = search writes depth 12
by_policy-SameCalls run g c _ = search writes depth 12

admit-SameCalls :
    (run : AgentRun) (t : TargetToolName) (g : ResolvedAssignmentGoal) (c : ToolCall)
    (l : Option Limit)
    → Respects SameCalls (admit run t g c l)
unfolding admit
admit-SameCalls run t g c (some l) = search (writes, refuse-SameCalls) depth 10
admit-SameCalls run t g c none = search (writes, by_policy-SameCalls) depth 10

pub start_call_transaction-SameCalls :
    (id : ℕ) (t : TargetToolName) → Respects SameCalls (start_call_transaction id t)
unfolding start_call_transaction ToolCalls.any_started exceeded_limit ToolCalls.count_for_tools
start_call_transaction-SameCalls id t = search (writes, admit-SameCalls) depth 24

end_unshown-SameCalls :
    (run : AgentRun) (c : ToolCall) (o : Outcome) (shown : Option ModelObservation)
    → Respects SameCalls (end_unshown run c o shown)
unfolding end_unshown
end_unshown-SameCalls run c (error e) none = search writes
end_unshown-SameCalls run c _ _ = search writes

pub record_outcome-SameCalls :
    (id call : ℕ) (t : TargetToolName) (g : ResolvedAssignmentGoal) (o : Outcome)
    → Respects SameCalls (record_outcome id call t g o)
unfolding record_outcome ToolCalls.get
record_outcome-SameCalls id call t g o = search (writes, end_unshown-SameCalls) depth 24

business-SameCalls :
    (id : ℕ) (t : TargetToolName) (g : ResolvedAssignmentGoal)
    → Respects SameCalls (business id t g)
business-SameCalls id t g = record {
  at = λ w. record { model_calls = ((business-SameLog id t g).at w).model_calls };
}

pub call_tool-SameCalls : (id : ℕ) (t : TargetToolName) → Respects SameCalls (call_tool id t)
unfolding call_tool start_call
call_tool-SameCalls id t =
    search
      (
        respects_rules, SameCalls-preorder, start_call_transaction-SameCalls, business-SameCalls,
        record_outcome-SameCalls,
      )
      depth 12

check_request_limit-SameCalls : (id made : ℕ) → Respects SameCalls (check_request_limit id made)
unfolding check_request_limit end_at_limit
check_request_limit-SameCalls id made = search writes depth 10

pub before_request-SameCalls : (id : ℕ) → Respects SameCalls (before_request id)
unfolding before_request ModelCalls.count_for_stage
before_request-SameCalls id = search (writes, check_request_limit-SameCalls) depth 10

end_if_executing-SameCalls :
    (r : AgentRun) (reason : OutcomeReason) (d : Fields)
    → Respects SameCalls (end_if_executing r reason d)
unfolding end_if_executing
end_if_executing-SameCalls r reason d = search writes depth 8

pub end_decision-SameCalls :
    (id : ℕ) (reason : OutcomeReason) (d : Fields) → Respects SameCalls (end_decision id reason d)
unfolding end_decision
end_decision-SameCalls id reason d = search (writes, end_if_executing-SameCalls) depth 10

pub start_decision-SameCalls : (id : ℕ) → Respects SameCalls (start_decision id)
unfolding start_decision
start_decision-SameCalls id = search writes depth 14

record_proposal-SameCalls :
    (id : ℕ) (p : DecisionProposal) → Respects SameCalls (record_proposal id p)
unfolding record_proposal ToolCalls.any_started ToolCalls.any_succeeded ToolCalls.latest_for_tools
record_proposal-SameCalls id p = search writes depth 20

end_verified-SameCalls :
    (id : ℕ) (p : DecisionProposal) (c : Concluded) (v : Verified)
    → Respects SameCalls (end_verified id p c v)
unfolding end_verified
end_verified-SameCalls id p c (result, checked) = search writes depth 14

after_verification-SameCalls :
    (id : ℕ) (p : DecisionProposal) (c : Concluded) (r : Result Verified)
    → Respects SameCalls (after_verification id p c r)
unfolding after_verification
after_verification-SameCalls id p c (ok v) = end_verified-SameCalls id p c v
after_verification-SameCalls id p c (raise e) = fail-SameCalls id _

pub finish_decision-SameCalls :
    (id : ℕ) (p : DecisionProposal) → Respects SameCalls (finish_decision id p)
unfolding finish_decision
finish_decision-SameCalls id p =
    search
      (writes, record_proposal-SameCalls, verify_proposal-Respects, after_verification-SameCalls)
      depth 10

pub after_decision_plan-SameCalls :
    (id : ℕ) (r : Result DecisionProposal) → Respects SameCalls (after_decision_plan id r)
unfolding after_decision_plan
after_decision_plan-SameCalls id (ok proposal) = finish_decision-SameCalls id proposal
after_decision_plan-SameCalls id (raise (decision_stopped _)) =
    current_status-Respects SameCalls-preorder id
after_decision_plan-SameCalls id (raise (planner_error code error_type)) =
    end_decision-SameCalls id OutcomeReason.planner_error _
after_decision_plan-SameCalls id (raise _) =
    end_decision-SameCalls id OutcomeReason.unexpected_error _
