-- ===== src/Agent/Refinement.antt =====
-- src/app/agent/executor.py, `run` against the ledger of seats.
use saas_agent_lab.Text.{Text, Unicode}
use saas_agent_lab.Schemas.Agent.{DecisionContext}
use saas_agent_lab.Agent.Planner.{IntentPlan, DecisionPlan}
use saas_agent_lab.Agent.Executor.Lifecycle.{run}
use saas_agent_lab.Agent.Isolation.Plans.{run-Isolated}
use saas_agent_lab.Services.Assignments.Ledger.{Reaches}
use saas_agent_lab.Services.Assignments.Seats.{IsConsistent}
use saas_agent_lab.Services.Assignments.Refinement.{Refines-preorder, same_tables-Refines, view}
use saas_agent_lab.Services.Refinement.{serve-Refines, run_tool-Refines}
use saas_agent_lab.Session.{World}

-- A whole run refines the ledger of seats: from consistent tables, whatever its planners do and whoever is
-- served in between, what the tables say of seats when it returns or raises is reached from what they
-- said before by steps of the ledger alone. So a seat is only ever granted to an active user who does not
-- hold one, of a licence that has one free.
pub run-Reaches :
    (u : Unicode) (instruction actor : Text) (intent_planner : Text → IntentPlan)
    (decision_planner : DecisionContext → DecisionPlan) (w : World)
    → IsConsistent w.db
    → Reaches (view w.db) (view (run u instruction actor intent_planner decision_planner w).1.db)
run-Reaches u instruction actor intent_planner decision_planner w consistent =
    let kept =
      run-Isolated Refines-preorder
        (λ d e h. same_tables-Refines d e h.users h.licences h.assignments) u (serve-Refines u)
        run_tool-Refines instruction actor intent_planner decision_planner in
    (kept.at w).steps consistent
