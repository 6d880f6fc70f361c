-- ===== src/Agent/History/Moves.antt =====
-- The moves of the decision stage that do not end a run: each needs the status that it starts from.
use saas_agent_lab.Common.{ℕ, ◌≡◌, Option, some, true, false, is_some, is_none, arith}
use saas_agent_lab.Models.{AgentRun}
use saas_agent_lab.Models.Enums.{
  AgentRunStatus, OutcomeReason, is_received, is_executing, is_resolved,
}
use saas_agent_lab.Schemas.Agent.{
  DecisionContext, DecisionProposal, goal_reached, EnsureAssignmentIntent, ResolvedAssignmentGoal,
}
use saas_agent_lab.Agent.Executor.Runs.{extracted_text}
use saas_agent_lab.Agent.Executor.Extraction.{with_goal}
use saas_agent_lab.Agent.Executor.Resolution.{resolved_to}
use saas_agent_lab.Agent.Executor.Admission.{paused}
use saas_agent_lab.Agent.Executor.Decide.{executing_with, verifying_with}
use saas_agent_lab.Models.Checks.{
  goes_with, extraction_outcome_has_no_goal, resolved_ids_match_status,
}
use saas_agent_lab.Agent.History.{IsWellFormed, Evolves, can_follow}
use saas_agent_lab.Agent.History.Endings.{CanEnd}

abbrev Step : AgentRun → AgentRun → Type 0
Step r s = IsWellFormed r → Evolves r s × IsWellFormed s

pub paused-Step : (r : AgentRun) → is_executing r.status ≡ true → Step r (paused r)
paused-Step r h ok = ground arith

pub executing-Step :
    (r : AgentRun) (c : DecisionContext) → is_resolved r.status ≡ true → Step r (executing_with c r)
executing-Step r c h ok = ground arith

pub verifying-Step :
    (r : AgentRun) (p : DecisionProposal)
    → is_executing r.status ≡ true
    → Step r (verifying_with p r)
verifying-Step r goal_reached h ok = ground arith
verifying-Step r _ h ok = ground arith

-- Before extraction there is no goal, and before resolution no row is named.
pub with_goal-Step :
    (r : AgentRun) (asked : EnsureAssignmentIntent)
    → is_received r.status ≡ true
    → is_some (extracted_text r) ≡ false
    → Step r (with_goal asked r)
with_goal-Step r asked h k ok = ground arith

pub resolved-Step :
    (r : AgentRun) (g : ResolvedAssignmentGoal)
    → is_received r.status ≡ true
    → is_some (extracted_text r) ≡ true
    → Step r (resolved_to g r)
resolved-Step r g h k ok = ground arith

pub can_deny :
    (r : AgentRun)
    → is_executing r.status ≡ true
    → IsWellFormed r
    → CanEnd r AgentRunStatus.blocked OutcomeReason.policy_denied
can_deny r h ok = ground arith

-- At extraction and at resolution a run can be sent back for clarification.
pub can_clarify :
    (r : AgentRun) (reason : OutcomeReason)
    → is_received r.status ≡ true
    → goes_with AgentRunStatus.needs_clarification reason ≡ true
    → extraction_outcome_has_no_goal (some reason) r.goal_type ≡ true
    → IsWellFormed r
    → CanEnd r AgentRunStatus.needs_clarification reason
can_clarify r reason h fits no_goal ok = record {
  fits = fits;
  leads = received_leads r.status h;
  ids = received_ids r.status r.resolved_user_id h ok.ids_match;
  goal = no_goal;
}
  where
    received_leads :
        (s : AgentRunStatus)
        → is_received s ≡ true
        → can_follow s AgentRunStatus.needs_clarification ≡ true
    received_leads s e = ground arith

    received_ids :
        (s : AgentRunStatus) (o : Option ℕ)
        → is_received s ≡ true
        → resolved_ids_match_status s o ≡ true
        → is_none o ≡ true
    received_ids s o e m = ground arith
