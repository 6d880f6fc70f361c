-- ===== src/Agent/History/Decisions.antt =====
-- src/app/agent/executor.py, the start of a decision, its request limit and `_end_decision`, against the
-- order of runs.
use saas_agent_lab.Common.{ℕ, ◌≡◌, refl, some, Bool, true, false, not, ltb, arith}
use saas_agent_lab.Json.{Fields}
use saas_agent_lab.Models.{AgentRun}
use saas_agent_lab.Models.Checks.{goes_with}
use saas_agent_lab.Models.Enums.{AgentRunStatus, OutcomeReason, is_executing, is_resolved}
use saas_agent_lab.Agent.Decision.{max_decision_model_requests}
use saas_agent_lab.Agent.Executor.Decide.{
  check_request_limit, before_request, end_if_executing, end_decision, executing_with,
  start_decision,
}
use saas_agent_lab.Agent.Executor.Admission.{end_at_limit}
use saas_agent_lab.Agent.Reads.{current_status-Respects, persisted_goal-Respects}
use saas_agent_lab.Repositories.ModelCalls
use saas_agent_lab.Agent.History.{RunsEvolve, RunsEvolve-preorder}
use saas_agent_lab.Agent.History.Under.{
  Under, SameRuns-preorder, Under-of_Respects, Respects-get_run, Under-raise_if, Under-same,
  Under-bind, Under-set,
}
use saas_agent_lab.Agent.History.Endings.{can_fail, Under-end_run}
use saas_agent_lab.Agent.History.Moves.{executing-Step}
use saas_agent_lab.Session.Respects.{
  Respects, respects_rules, Respects-pure, Respects-transaction, Respects-if,
}

check_request_limit-evolves : (id made : ℕ) → Respects RunsEvolve (check_request_limit id made)
unfolding check_request_limit end_at_limit
check_request_limit-evolves id made =
    Respects-if RunsEvolve-preorder (ltb made max_decision_model_requests) _ _
      (Respects-pure RunsEvolve-preorder true)
      (Respects-get_run id _ λ r.
        Under-bind r.id r _ _
          (Under-end_run r r AgentRunStatus.failed OutcomeReason.step_limit _ refl
            (can_fail r OutcomeReason.step_limit refl))
          λ _. Respects-pure RunsEvolve-preorder false)

pub before_request-evolves : (id : ℕ) → Respects RunsEvolve (before_request id)
unfolding before_request ModelCalls.count_for_stage
before_request-evolves id =
    search (respects_rules, RunsEvolve-preorder, check_request_limit-evolves) depth 8

end_if_executing-Under :
    (r : AgentRun) (reason : OutcomeReason) (d : Fields) (b : Bool)
    → is_executing r.status ≡ b
    → goes_with AgentRunStatus.failed reason ≡ true
    → Under r.id r (end_if_executing r reason d)
unfolding end_if_executing
end_if_executing-Under r reason d true h fits =
    rw h (Under-end_run r r AgentRunStatus.failed reason (some d) refl (can_fail r reason fits))
end_if_executing-Under r reason d false h fits =
    rw h (Under-of_Respects r.id r _ (Respects-pure RunsEvolve-preorder tt))

pub end_decision-evolves :
    (id : ℕ) (reason : OutcomeReason) (d : Fields)
    → goes_with AgentRunStatus.failed reason ≡ true
    → Respects RunsEvolve (end_decision id reason d)
unfolding end_decision
end_decision-evolves id reason d fits = Respects-transaction RunsEvolve-preorder _ (
    Respects-get_run id _ λ r.
      Under-bind r.id r _ _ (end_if_executing-Under r reason d (is_executing r.status) refl fits)
        λ _. current_status-Respects RunsEvolve-preorder id)

not-false : (b : Bool) → not b ≡ false → b ≡ true
not-false b h = ground arith

pub start_decision-evolves : (id : ℕ) → Respects RunsEvolve (start_decision id)
unfolding start_decision
start_decision-evolves id = Respects-transaction RunsEvolve-preorder _ (
    Respects-get_run id _ λ r. Under-raise_if r.id r _ _ _ λ resolved.
      Under-same r.id r _ _ (persisted_goal-Respects SameRuns-preorder r) λ g.
        Under-bind r.id r _ _
          (Under-set r.id r (executing_with _) (λ x. refl)
            (executing-Step r _ (not-false (is_resolved r.status) resolved)))
          λ _. Respects-pure RunsEvolve-preorder _)
