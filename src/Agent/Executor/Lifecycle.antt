-- ===== src/Agent/Executor/Lifecycle.antt =====
-- src/app/agent/executor.py: `run`, and src/app/agent/runs.py, as callers outside the agent layer use it.
use saas_agent_lab.Common.{ℕ, List, if◌then◌else◌}
use saas_agent_lab.Text.{Text, Unicode}
use saas_agent_lab.Errors.{agent_run_not_found}
use saas_agent_lab.Models.{AgentRun}
use saas_agent_lab.Models.Enums.{is_received, is_resolved}
use saas_agent_lab.Repositories.AgentRuns
use saas_agent_lab.Repositories.AgentRuns.{TraceEntry}
use saas_agent_lab.Schemas.Agent.{DecisionContext}
use saas_agent_lab.Agent.Planner.{IntentPlan, DecisionPlan}
use saas_agent_lab.Agent.Executor.Extraction.{receive_run, extract_intent}
use saas_agent_lab.Agent.Executor.Resolution.{resolve_run}
use saas_agent_lab.Agent.Executor.Decide.{decide}
use saas_agent_lab.Session.{Exec, ⊤, pure, ◌>>=◌, ◌>>◌, or_raise}

module _ (u : Unicode) where
  unfoldable pub decide_if : ℕ → (DecisionContext → DecisionPlan) → Exec ⊤
  decide_if run_id decision_planner = do decide u run_id decision_planner; pure tt

  unfoldable pub resolve_and_decide : ℕ → (DecisionContext → DecisionPlan) → Exec ⊤
  unfolding decide_if
  resolve_and_decide run_id decision_planner = do
    status ← resolve_run u run_id
    if is_resolved status then decide_if run_id decision_planner else pure tt

  -- `AgentExecutor.run`: a step that ends the run is the last.
  unfoldable pub run : Text → Text → (Text → IntentPlan) → (DecisionContext → DecisionPlan) → Exec ℕ
  unfolding resolve_and_decide
  run instruction requesting_actor intent_planner decision_planner = do
    run_id ← receive_run u instruction requesting_actor
    status ← extract_intent u run_id intent_planner
    if is_received status then resolve_and_decide run_id decision_planner else pure tt
    pure run_id

pub record AgentRunRecord : Type 0 where
  pub run : AgentRun
  pub trace : List TraceEntry

-- `AgentRuns.get`.
unfoldable pub get : ℕ → Exec AgentRunRecord
get run_id = do
  found ← AgentRuns.get run_id
  run ← or_raise found (agent_run_not_found run_id)
  trace ← AgentRuns.list_trace run_id
  pure (record { run = run; trace = trace })

-- `AgentRuns.start`.
unfoldable pub start :
    Unicode
    → Text
    → Text
    → (Text → IntentPlan)
    → (DecisionContext → DecisionPlan)
    → Exec AgentRunRecord
start u instruction requesting_actor intent_planner decision_planner = do
  run_id ← run u instruction requesting_actor intent_planner decision_planner
  get run_id
