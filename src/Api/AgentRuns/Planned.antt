-- ===== src/Api/AgentRuns/Planned.antt =====
-- src/app/api/agent_runs.py, `get_agent_run`, after runs of src/app/agent/pydantic_ai_planner.py and
-- pydantic_ai_decision.py.
use saas_agent_lab.Common.{ℕ, ◌≤◌, All}
use saas_agent_lab.Text.{Text, Unicode}
use saas_agent_lab.Schemas.Agent.{
  DecisionContext, ExtractedIntent, DecisionProposal, TargetToolName,
}
use saas_agent_lab.Schemas.AgentRuns.Validation.{Validators}
use saas_agent_lab.Agent.Plans.{weaken_intent, weaken_decision}
use saas_agent_lab.Agent.PydanticAi.{Conversation, ArgumentModels}
use saas_agent_lab.Agent.PydanticAi.IntentPlanner.{plan}
use saas_agent_lab.Agent.PydanticAi.DecisionPlanner.{decide}
use saas_agent_lab.Agent.PydanticAi.Records.{IsAcceptable, plan-Records, decide-Records}
use saas_agent_lab.Agent.Executor.Lifecycle.{run}
use saas_agent_lab.Agent.History.{IsWellFormed}
use saas_agent_lab.Agent.Shown.{IsShown}
use saas_agent_lab.Agent.Shown.Runs.{RecordsDump}
use saas_agent_lab.Api.Requests.{id_max}
use saas_agent_lab.Api.AgentRuns.Answered.{Answers, started_run-Answers}
use saas_agent_lab.Session.{World}

module _ (v : Validators) (run_id : ℕ) (low : 1 ≤ run_id) (high : run_id ≤ id_max) where
  -- After any run with this program's planners, whatever the models, the loop, the provider and other
  -- clients do, that started from well-formed rows that can be shown, `GET` of any id in the path's range
  -- is answered 404 if there is no such run, and 200 with the view of its row and of its trace in order
  -- otherwise; it is never a server error, and it writes nothing.
  pub planned_run-Answers :
      (u : Unicode) (models : ArgumentModels) (instruction actor : Text)
      (extraction : Text → Conversation ExtractedIntent ⊥)
      (decision : DecisionContext → Conversation DecisionProposal TargetToolName) (w : World)
      → All IsWellFormed w.db.agent_runs
      → IsShown w.db
      → Answers v run_id
          (run u instruction actor
            (λ i. plan u models i (extraction i))
            (λ c. decide models (decision c))
            w).1
  planned_run-Answers u models instruction actor extraction decision w fine shown =
      started_run-Answers v run_id low high u instruction actor _ _ w fine shown
        (λ i.
          weaken_intent IsAcceptable RecordsDump (λ call h. h.1) (plan u models i (extraction i))
            (plan-Records models u i (extraction i)))
        λ c.
          weaken_decision IsAcceptable RecordsDump (λ call h. h.1) (decide models (decision c))
            (decide-Records models (decision c))
