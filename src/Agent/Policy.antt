-- ===== src/Agent/Policy.antt =====
-- src/app/agent/policy.py: whether an agent run may make a change, from committed state.
use saas_agent_lab.Common.{Option, none, some}
use saas_agent_lab.Models.Enums.{PolicyDecision}
use saas_agent_lab.Schemas.Agent.{TargetToolName, assign_target_licence, ResolvedAssignmentGoal}
use saas_agent_lab.Services.Licences.{get_licence}
use saas_agent_lab.Session.{Exec, pure, ◌>>=◌}

unfoldable pub evaluate : TargetToolName → ResolvedAssignmentGoal → Exec (Option PolicyDecision)
evaluate assign_target_licence goal = do
  licence ← get_licence goal.licence_id
  pure (some licence.agent_policy)
evaluate _ goal = pure none
