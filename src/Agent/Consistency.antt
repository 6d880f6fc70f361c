-- ===== src/Agent/Consistency.antt =====
-- src/app/agent/executor.py, `run` against the consistency of the tables.
use saas_agent_lab.Text.{Text, Unicode}
use saas_agent_lab.Schemas.Agent.{DecisionContext}
use saas_agent_lab.Agent.Planner.{IntentPlan, DecisionPlan}
use saas_agent_lab.Agent.Executor.Lifecycle.{run}
use saas_agent_lab.Agent.Isolation.Plans.{run-Isolated}
use saas_agent_lab.Services.Assignments.Seats.{
  StaysConsistent, StaysConsistent-preorder, of_SameBusiness,
}
use saas_agent_lab.Services.Consistency.{serve-StaysConsistent, run_tool-StaysConsistent}
use saas_agent_lab.Session.Respects.{Respects}

pub run-StaysConsistent :
    (u : Unicode) (instruction actor : Text) (intent_planner : Text → IntentPlan)
    (decision_planner : DecisionContext → DecisionPlan)
    → Respects StaysConsistent (run u instruction actor intent_planner decision_planner)
run-StaysConsistent u =
    run-Isolated StaysConsistent-preorder of_SameBusiness u (serve-StaysConsistent u)
      run_tool-StaysConsistent
