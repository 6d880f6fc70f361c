-- ===== src/Agent/PydanticAi/DecisionPlanner/Requests.antt =====
-- src/app/agent/executor.py, `decide` with src/app/agent/pydantic_ai_decision.py: how many model requests of
-- a decision are recorded.
use saas_agent_lab.Common.{ℕ, ◌≤◌, Bool, true, false, count, arith}
use saas_agent_lab.Text.{Unicode}
use saas_agent_lab.Errors.{Exc}
use saas_agent_lab.Models.Enums.{ModelCallStage}
use saas_agent_lab.Repositories.ModelCalls.{is_in_stage}
use saas_agent_lab.Schemas.Agent.{DecisionContext, DecisionProposal, TargetToolName}
use saas_agent_lab.Agent.Planner.{DecisionPlan}
use saas_agent_lab.Agent.Executor.Decide.{
  check_request_limit, before_request, run_decision_plan, start_decision, after_decision_plan,
}
use saas_agent_lab.Agent.Executor.Decide
use saas_agent_lab.Agent.PydanticAi.{
  Conversation, outputs, stops, asks, calls_function, meanwhile, ArgumentModels,
}
use saas_agent_lab.Agent.PydanticAi.DecisionPlanner.{decide}
use saas_agent_lab.Agent.PydanticAi.DecisionPlanner.Calls.{
  call_tool-SameCalls, start_decision-SameCalls, after_decision_plan-SameCalls,
}
use saas_agent_lab.Agent.PydanticAi.Calls.{serve-SameCalls}
use saas_agent_lab.Agent.PydanticAi.Grows.{SameCalls-preorder}
use saas_agent_lab.Session.{World, ok, raise, ⊤, pure, raise_error}
use saas_agent_lab.Session.Respects.{Respects-attempt}
use saas_agent_lab.Agent.PydanticAi.DecisionPlanner.Room.{
  room, room_le, Within, attempt-Within, after-Within, then-Within, recorded-Within,
  requested-Within,
}

-- A request is recorded only after one that was allowed, once for each.
abbrev pub Guarded : Bool → DecisionPlan → Type 0
Guarded allowed (DecisionPlan.concludes proposal) = Unit
Guarded allowed (DecisionPlan.fails e) = Unit
Guarded allowed (DecisionPlan.calls_tool tool next) = (r : _) → Guarded allowed (next r)
Guarded allowed (DecisionPlan.requests next) =
    ((a : ⊤) → Guarded true (next (ok a))) × ((e : Exc) → Guarded false (next (raise e)))
Guarded true (DecisionPlan.records call next) = (r : _) → Guarded false (next r)
Guarded false (DecisionPlan.records call next) = ⊥
Guarded allowed (DecisionPlan.meanwhile request next) = Guarded allowed next

module _ (models : ArgumentModels) where
  -- Each step of this program's planner, whatever PydanticAI's loop does.
  decide-Guarded :
      (allowed : Bool) (conversation : Conversation DecisionProposal TargetToolName)
      → Guarded allowed (decide models conversation)
  unfolding decide
  decide-Guarded allowed (outputs proposed) = tt
  decide-Guarded allowed (stops failure) = tt
  decide-Guarded allowed (asks model_name elapsed handled next) =
      (λ a r. decide-Guarded false (next _), λ e. decide-Guarded false (next _))
  decide-Guarded allowed (calls_function tool next) = λ r. decide-Guarded allowed (next r)
  decide-Guarded allowed (meanwhile request next) = decide-Guarded allowed next

module _ (id : ℕ) where
  -- A guarded plan, whoever is served in between.
  plan-Within :
      (u : Unicode) (allowed : Bool) (x : DecisionPlan)
      → Guarded allowed x
      → Within id (room allowed) (run_decision_plan u id x)
  unfolding run_decision_plan pure raise_error
  plan-Within u allowed (DecisionPlan.concludes proposal) h = record {
    at = λ w below. omega (arith, below, room_le id allowed);
  }
  plan-Within u allowed (DecisionPlan.fails e) h = record {
    at = λ w below. omega (arith, below, room_le id allowed);
  }
  plan-Within u allowed (DecisionPlan.calls_tool tool next) h =
      after-Within id allowed _ _
        (Respects-attempt SameCalls-preorder _ (call_tool-SameCalls id tool))
        λ r. plan-Within u allowed (next r) (h r)
  plan-Within u allowed (DecisionPlan.requests next) (h, k) =
      requested-Within id _ allowed (λ a. plan-Within u true (next (ok a)) (h a))
        λ e. plan-Within u false (next (raise e)) (k e)
  plan-Within u true (DecisionPlan.records call next) h =
      recorded-Within id _ call λ r. plan-Within u false (next r) (h r)
  plan-Within u false (DecisionPlan.records call next) h = elim h [ ]
  plan-Within u allowed (DecisionPlan.meanwhile request next) h =
      after-Within id allowed _ _ (serve-SameCalls u request) λ _. plan-Within u allowed next h

module _ (models : ArgumentModels) where
  -- If at most six decision requests of a run are recorded, then a decision of that run with this
  -- program's planner, returned or raised, leaves at most six, whatever the provider answers and
  -- PydanticAI's loop does, and whoever is served in between.
  pub decide-limit :
      (u : Unicode) (run_id : ℕ)
      (conversation : DecisionContext → Conversation DecisionProposal TargetToolName) (w : World)
      → count (is_in_stage run_id ModelCallStage.decision) w.db.model_calls ≤ 6
      → count
          (is_in_stage run_id ModelCallStage.decision)
          (Decide.decide u run_id (λ c. decide models (conversation c)) w).1.db.model_calls
        ≤ 6
  unfolding Decide.decide
  decide-limit u run_id conversation w below =
      (after-Within run_id false _ _ (start_decision-SameCalls run_id) λ c.
          then-Within run_id 6 _ _
            (attempt-Within run_id 6 _
              (plan-Within run_id u false _ (decide-Guarded models false (conversation c))))
            (after_decision_plan-SameCalls run_id)).at
        w below
