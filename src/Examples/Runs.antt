-- ===== src/Examples/Runs.antt =====
-- Whole runs, evaluated.
use saas_agent_lab.Text.{Text, codes}
use saas_agent_lab.Schemas.Agent.{ExtractedIntent, DecisionContext, TargetToolName, goal_reached}
use saas_agent_lab.Agent.Planner.{IntentPlan, DecisionPlan}
use saas_agent_lab.Agent.Executor.Lifecycle.{run}
use saas_agent_lab.Session.{World}
use saas_agent_lab.Examples.{ascii, world}

abbrev pub asks_for : Text → Text → Text → IntentPlan
asks_for email product instruction =
    IntentPlan.extracts
      (ExtractedIntent.ensure_assignment (record { user_email = email; product = product }))

abbrev pub assigns : DecisionContext → DecisionPlan
assigns context = DecisionPlan.requests λ _.
    DecisionPlan.calls_tool TargetToolName.assign_target_licence
      λ _. DecisionPlan.concludes goal_reached

abbrev pub instruction : Text
instruction = codes "Ensure ada@example.com has GitHub"

abbrev pub after : World
after =
    (run ascii instruction (codes "admin") (asks_for (codes "ada@example.com") (codes "GitHub"))
      assigns world).1
