-- ===== src/Agent/PydanticAi/IntentPlanner/Requests.antt =====
-- src/app/agent/executor.py, `extract_intent` with src/app/agent/pydantic_ai_planner.py: how many model calls
-- are recorded.
use saas_agent_lab.Common.{
  ℕ, zero, suc, ◌+◌, ◌≤◌, refl, arith, String, List, [], ◌∷◌, length, Bool, true, count, ◌≡◌,
}
use saas_agent_lab.Text.{Text, Unicode}
use saas_agent_lab.Errors.{planner_error}
use saas_agent_lab.Models.{AgentRun, ModelCall}
use saas_agent_lab.Models.Enums.{ModelCallStage}
use saas_agent_lab.Schemas.Agent.{EnsureAssignmentIntent, ExtractedIntent}
use saas_agent_lab.Agent.Planner.{IntentPlan, ungrounded_fields}
use saas_agent_lab.Agent.Executor.Extraction.{
  Extraction, intent, failed, record_goal, record_extraction, finish_extraction, run_intent_plan,
  after_intent_plan, extract_intent,
}
use saas_agent_lab.Agent.PydanticAi.{ArgumentModels, Conversation}
use saas_agent_lab.Agent.PydanticAi.IntentPlanner.{plan, output_retries}
use saas_agent_lab.Agent.PydanticAi.IntentPlanner.Loop.{AtMost, IsLoop, plan-AtMost}
use saas_agent_lab.Agent.PydanticAi.Grows.{
  Grows, SameCalls, Grows-attempt, Grows-bind, Grows-after, Grows-then,
}
use saas_agent_lab.Agent.PydanticAi.Calls.{
  rules, set_columns-SameCalls, end_run-SameCalls, record_model_call-Grows, serve-SameCalls,
  fail-SameCalls,
}
use saas_agent_lab.Session.{World, Result, ok, raise, pure, raise_error}
use saas_agent_lab.Session.Respects.{Respects}

abbrev every : ModelCall → Bool
every call = true

count-every : (calls : List ModelCall) → count every calls ≡ length calls
count-every [] = refl
count-every (call ∷ calls) = omega (arith, count-every calls)

-- A plan that records at most `n` requests adds at most `n` model calls, whoever is served in between.
run_intent_plan-Grows :
    (u : Unicode) (id n : ℕ) (x : IntentPlan) → AtMost n x → Grows every n (run_intent_plan u id x)
unfolding run_intent_plan pure raise_error
run_intent_plan-Grows u id n (IntentPlan.extracts asked) h = record { at = λ w. omega arith }
run_intent_plan-Grows u id n (IntentPlan.fails e) h = record { at = λ w. omega arith }
run_intent_plan-Grows u id zero (IntentPlan.records call next) h = elim h [ ]
run_intent_plan-Grows u id (suc n) (IntentPlan.records call next) h =
    Grows-bind every 1 n (suc n) _ _ (omega arith)
      (Grows-attempt every 1 _ (record_model_call-Grows every id ModelCallStage.extraction call))
      λ r. run_intent_plan-Grows u id n (next r) (h r)
run_intent_plan-Grows u id n (IntentPlan.meanwhile request next) h =
    Grows-after every n _ _ (serve-SameCalls u request) λ _. run_intent_plan-Grows u id n next h

record_goal-SameCalls :
    (r : AgentRun) (asked : EnsureAssignmentIntent) (missing : List String)
    → Respects SameCalls (record_goal r asked missing)
unfolding record_goal
record_goal-SameCalls r asked [] = search (rules, set_columns-SameCalls)
record_goal-SameCalls r asked (n ∷ names) = search (rules, end_run-SameCalls)

record_extraction-SameCalls :
    (u : Unicode) (r : AgentRun) (i : Text) (e : Extraction)
    → Respects SameCalls (record_extraction u r i e)
unfolding record_extraction
record_extraction-SameCalls u r i (intent (ExtractedIntent.ensure_assignment asked)) =
    record_goal-SameCalls r asked (ungrounded_fields u asked i)
record_extraction-SameCalls u r i (intent (ExtractedIntent.needs_clarification code)) =
    search (rules, end_run-SameCalls)
record_extraction-SameCalls u r i (intent (ExtractedIntent.unsupported code)) =
    search (rules, end_run-SameCalls)
record_extraction-SameCalls u r i (failed code error_type) = search (rules, end_run-SameCalls)

finish_extraction-SameCalls :
    (u : Unicode) (id : ℕ) (i : Text) (e : Extraction)
    → Respects SameCalls (finish_extraction u id i e)
unfolding finish_extraction
finish_extraction-SameCalls u id i e = search (rules, record_extraction-SameCalls) depth 12

after_intent_plan-SameCalls :
    (u : Unicode) (id : ℕ) (i : Text) (r : Result ExtractedIntent)
    → Respects SameCalls (after_intent_plan u id i r)
unfolding after_intent_plan
after_intent_plan-SameCalls u id i (ok asked) = finish_extraction-SameCalls u id i _
after_intent_plan-SameCalls u id i (raise (planner_error code error_type)) =
    finish_extraction-SameCalls u id i _
after_intent_plan-SameCalls u id i (raise _) = fail-SameCalls id _

module _ (u : Unicode) (models : ArgumentModels)
    (extraction : Text → Conversation ExtractedIntent ⊥)
    (loops : (i : Text) → IsLoop u models i output_retries (extraction i)) where
  extract_intent-Grows :
      (id : ℕ) → Grows every 3 (extract_intent u id (λ i. plan u models i (extraction i)))
  unfolding extract_intent
  extract_intent-Grows id = Grows-after every 3 _ _ (search rules) λ run.
      Grows-after every 3 _ _ (search rules) λ _.
        Grows-then every 3 _ _
          (Grows-attempt every 3 _ (
            run_intent_plan-Grows u id 3 _ (
              plan-AtMost u models run.instruction (extraction run.instruction)
                (loops run.instruction))))
          λ r. after_intent_plan-SameCalls u id run.instruction r

  -- If PydanticAI's loop keeps its budget of two output retries, the extraction of a run records at most
  -- three model calls, whatever the provider answers and whoever is served in between.
  pub extract_intent-calls :
      (run_id : ℕ) (w : World)
      → length (extract_intent u run_id (λ i. plan u models i (extraction i)) w).1.db.model_calls
        ≤ 3 + length w.db.model_calls
  extract_intent-calls run_id w = omega (
    arith,
    (extract_intent-Grows run_id).at w,
    count-every (extract_intent u run_id (λ i. plan u models i (extraction i)) w).1.db.model_calls,
    count-every w.db.model_calls,
  )
