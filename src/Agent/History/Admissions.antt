-- ===== src/Agent/History/Admissions.antt =====
-- src/app/agent/executor.py, `_start_call` and the record of an outcome, against the order of runs.
use saas_agent_lab.Common.{ℕ, ◌≡◌, refl, Option, none, some, Bool, true, false, not, arith}
use saas_agent_lab.Models.{AgentRun, ToolCall}
use saas_agent_lab.Models.Enums.{AgentRunStatus, OutcomeReason, PolicyDecision, is_executing}
use saas_agent_lab.Repositories.AgentRuns.{count_step}
use saas_agent_lab.Schemas.Agent.{TargetToolName, ResolvedAssignmentGoal, ModelObservation}
use saas_agent_lab.Agent.Tools.Observe.{Outcome, error}
use saas_agent_lab.Agent.Executor.Admission.{
  Limit, end_at_limit, refuse_over_limit, deny, paused, hold_for_approval, by_policy, admit,
  start_call_transaction,
}
use saas_agent_lab.Agent.Executor.ToolCalls.{end_unshown, record_outcome}
use saas_agent_lab.Agent.Reads.{evaluate-Respects, persisted_goal-Respects}
use saas_agent_lab.Agent.History.{RunsEvolve, RunsEvolve-preorder}
use saas_agent_lab.Agent.History.Under.{
  Under, SameRuns-preorder, Under-of_Respects, Respects-get_run, Under-raise_if, Under-same,
  Under-bind, Under-set,
}
use saas_agent_lab.Agent.History.Endings.{can_fail, Under-end_run, Under-next}
use saas_agent_lab.Agent.History.Moves.{paused-Step, can_deny}
use saas_agent_lab.Agent.History.Steps.{
  add_tool_call-SameRuns, set_call-SameRuns, any_started-SameRuns, exceeded_limit-SameRuns,
  get_call-SameRuns,
}
use saas_agent_lab.Session.Respects.{
  Respects-pure, Respects-transaction, Respects-utcnow, Respects-or_raise, Respects,
}

module _ (r : AgentRun) where
  -- The row of the run, once its counter has moved.
  abbrev row : AgentRun
  row = count_step r

  end_at_limit-Under : (l : Limit) → Under r.id row (end_at_limit r l)
  unfolding end_at_limit
  end_at_limit-Under (l, m) =
      Under-end_run r row AgentRunStatus.failed OutcomeReason.step_limit _ refl
        (can_fail row OutcomeReason.step_limit refl)

  refuse-Under : (c : ToolCall) (l : Limit) → Under r.id row (refuse_over_limit r c l)
  unfolding refuse_over_limit
  refuse-Under c (l, m) =
      Under-same r.id row _ _ (Respects-utcnow SameRuns-preorder)
        λ t. Under-same r.id row _ _ (add_tool_call-SameRuns _) λ added. end_at_limit-Under (l, m)

  deny-Under : (c : ToolCall) → is_executing r.status ≡ true → Under r.id row (deny r c)
  unfolding deny
  deny-Under c h = Under-same r.id row _ _ (Respects-utcnow SameRuns-preorder) λ t.
      Under-same r.id row _ _ (add_tool_call-SameRuns _) λ added.
        Under-end_run r row AgentRunStatus.blocked OutcomeReason.policy_denied _ refl
          λ ok open_. can_deny row h ok

  hold-Under :
      (c : ToolCall) → is_executing r.status ≡ true → Under r.id row (hold_for_approval r c)
  unfolding hold_for_approval
  hold-Under c h =
      Under-same r.id row _ _ (add_tool_call-SameRuns _)
        λ added. Under-set r.id row paused (λ x. refl) (paused-Step row h)

  by_policy-Under :
      (g : ResolvedAssignmentGoal) (c : ToolCall) (d : Option PolicyDecision)
      → is_executing r.status ≡ true
      → Under r.id row (by_policy r g c d)
  unfolding by_policy
  by_policy-Under g c (some PolicyDecision.deny) h =
      Under-bind r.id row _ _ (deny-Under c h) λ _. Respects-pure RunsEvolve-preorder none
  by_policy-Under g c (some PolicyDecision.require_approval) h =
      Under-bind r.id row _ _ (hold-Under c h) λ _. Respects-pure RunsEvolve-preorder none
  by_policy-Under g c _ h =
      Under-same r.id row _ _ (add_tool_call-SameRuns _)
        λ added. Under-of_Respects r.id row _ (Respects-pure RunsEvolve-preorder _)

  admit-Under :
      (t : TargetToolName) (g : ResolvedAssignmentGoal) (c : ToolCall) (l : Option Limit)
      → is_executing r.status ≡ true
      → Under r.id row (admit r t g c l)
  unfolding admit
  admit-Under t g c (some l) h =
      Under-bind r.id row _ _ (refuse-Under c l) λ _. Respects-pure RunsEvolve-preorder none
  admit-Under t g c none h =
      Under-same r.id row _ _ (evaluate-Respects SameRuns-preorder t g) λ d. by_policy-Under g _ d h

not-false : (b : Bool) → not b ≡ false → b ≡ true
not-false b h = ground arith

pub start_call-evolves :
    (id : ℕ) (t : TargetToolName) → Respects RunsEvolve (start_call_transaction id t)
unfolding start_call_transaction
start_call-evolves id t = Respects-transaction RunsEvolve-preorder _ (
    Respects-get_run id _ λ r. Under-raise_if r.id r _ _ _ λ executing.
      Under-same r.id r _ _ (any_started-SameRuns r.id) λ unfinished.
        Under-raise_if r.id r _ _ _ λ _.
          Under-same r.id r _ _ (persisted_goal-Respects SameRuns-preorder r) λ g.
            Under-next r _ λ n.
              Under-same r.id (count_step r) _ _ (exceeded_limit-SameRuns r.id t)
                λ l. admit-Under r t g _ l (not-false (is_executing r.status) executing))

end_unshown-Under :
    (r : AgentRun) (c : ToolCall) (o : Outcome) (shown : Option ModelObservation)
    → Under r.id r (end_unshown r c o shown)
unfolding end_unshown
end_unshown-Under r c (error e) none =
    Under-end_run r r AgentRunStatus.failed OutcomeReason.tool_failed _ refl
      (can_fail r OutcomeReason.tool_failed refl)
end_unshown-Under r c _ _ = Under-of_Respects r.id r _ (Respects-pure RunsEvolve-preorder tt)

pub record_outcome-evolves :
    (id call : ℕ) (t : TargetToolName) (g : ResolvedAssignmentGoal) (o : Outcome)
    → Respects RunsEvolve (record_outcome id call t g o)
unfolding record_outcome
record_outcome-evolves id call t g o = Respects-transaction RunsEvolve-preorder _ (
    Respects-get_run id _ λ r. Under-same r.id r _ _ (get_call-SameRuns call) λ found.
      Under-same r.id r _ _ (Respects-or_raise SameRuns-preorder found _) λ c.
        Under-same r.id r _ _ (Respects-utcnow SameRuns-preorder) λ n.
          Under-same r.id r _ _ (set_call-SameRuns call _) λ _.
            Under-bind r.id r _ _ (end_unshown-Under r _ o _)
              λ _. Respects-pure RunsEvolve-preorder _)
