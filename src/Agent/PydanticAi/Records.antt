-- ===== src/Agent/PydanticAi/Records.antt =====
-- src/app/agent/model_requests.py: what the planners of pydantic_ai_planner.py and pydantic_ai_decision.py
-- record, against the constraints of src/app/models/model_call.py.
use saas_agent_lab.Common.{ℕ, ℤ, String, ◌≡◌, refl, true, is_none, is_some, ◌&&◌}
use saas_agent_lab.Text.{Text, Unicode}
use saas_agent_lab.Models.Checks.{agree, call_outcome_matches}
use saas_agent_lab.Schemas.Agent.{
  ModelCallRecord, ExtractedIntent, DecisionProposal, TargetToolName,
}
use saas_agent_lab.Schemas.AgentRuns.Validation.{
  ModelCallOutput, extraction, tool_calls, proposal, is_valid_output,
}
use saas_agent_lab.Schemas.AgentRuns.Views.{IsDump}
use saas_agent_lab.Errors.{Exc}
use saas_agent_lab.Agent.Planner.{DecisionPlan}
use saas_agent_lab.Agent.Plans.{IntentRecords, DecisionRecords}
use saas_agent_lab.Agent.Executor.Runs.{call_status}
use saas_agent_lab.Agent.ModelRequests.{
  ModelResponse, Parsed, accepted, rejected, Handled, responded, failed, of_parsed, elapsed_ms,
  wrap_model_request,
}
use saas_agent_lab.Agent.PydanticAi.{
  Conversation, outputs, stops, asks, calls_function, meanwhile, ArgumentModels,
}
use saas_agent_lab.Agent.PydanticAi.IntentPlanner.{parse_output, as_output, plan}
use saas_agent_lab.Agent.PydanticAi.IntentPlanner.Accepted.{parse_output-Accepts}
use saas_agent_lab.Agent.PydanticAi.DecisionPlanner.Accepted.{parse_decision-Accepts}
use saas_agent_lab.Agent.PydanticAi.DecisionPlanner.{if_allowed, parse_decision, decide}
use saas_agent_lab.Session.{Result, ok, raise, ⊤}

-- What the table accepts of a request, and what can be shown of it: both token counts or neither, an
-- output with its tokens if it succeeded and an error if it failed, and an output that is a dump.
abbrev pub IsAcceptable : ModelCallRecord → Type 0
IsAcceptable call =
    (agree (is_none call.input_tokens) (is_none call.output_tokens)
        && call_outcome_matches (call_status call.error) (is_some call.output) (is_some call.error)
            (is_some call.input_tokens)
      ≡ true)
    × IsDump call.output

-- What is accepted is within the bounds of its model.
abbrev Fits : Parsed ModelCallOutput → Type 0
Fits (accepted output) = is_valid_output output ≡ true
Fits (rejected problem) = Unit

of_parsed-IsAcceptable :
    (model_name : String) (latency_ms : ℕ) (response : ModelResponse)
    (parsed : Parsed ModelCallOutput)
    → Fits parsed
    → IsAcceptable (of_parsed model_name latency_ms response parsed).0
of_parsed-IsAcceptable model_name latency_ms response (accepted output) h =
    (refl, (output, h, refl))
of_parsed-IsAcceptable model_name latency_ms response (rejected problem) h = (refl, tt)

wrap-IsAcceptable :
    (parse : ModelResponse → Parsed ModelCallOutput) (model_name : String) (elapsed : ℤ)
    (handled : Handled)
    → ((response : ModelResponse) → Fits (parse response))
    → IsAcceptable (wrap_model_request parse model_name elapsed handled).0
unfolding wrap_model_request
wrap-IsAcceptable parse model_name elapsed (failed failure) h = (refl, tt)
wrap-IsAcceptable parse model_name elapsed (responded response) h =
    of_parsed-IsAcceptable model_name (elapsed_ms elapsed) response (parse response) (h response)

allowed-Records :
    (allowed : Result ⊤) (made : DecisionPlan) (refused : Exc → DecisionPlan)
    → DecisionRecords IsAcceptable made
    → ((e : Exc) → DecisionRecords IsAcceptable (refused e))
    → DecisionRecords IsAcceptable (if_allowed allowed made refused)
allowed-Records (ok _) made refused h k = h
allowed-Records (raise e) made refused h k = k e

module _ (models : ArgumentModels) where
  intent-Fits :
      (u : Unicode) (instruction : Text) (response : ModelResponse)
      (parsed : Parsed ExtractedIntent)
      → parse_output u models response instruction ≡ parsed
      → Fits (as_output u models parsed)
  intent-Fits u instruction response (rejected problem) h = tt
  intent-Fits u instruction response (accepted intent) h =
      let (call, fields, single, named, args, validated, copied) =
        (parse_output-Accepts u models instruction response intent).0 h in
      models.intent_fits _ fields intent validated

  decision-Fits :
      (response : ModelResponse) (parsed : Parsed ModelCallOutput)
      → parse_decision models response ≡ parsed
      → Fits parsed
  decision-Fits response (rejected problem) h = tt
  decision-Fits response (accepted (extraction intent)) h =
      elim ((parse_decision-Accepts models response (extraction intent)).0 h) [ ]
  decision-Fits response (accepted (tool_calls names)) h = refl
  decision-Fits response (accepted (proposal proposed)) h = refl

  -- Whatever the provider and the agent's loop do, every request that the intent planner records is one
  -- that the table accepts, and its output, if it has one, is a dump of an output of this program.
  pub plan-Records :
      (u : Unicode) (instruction : Text) (conversation : Conversation ExtractedIntent ⊥)
      → IntentRecords IsAcceptable (plan u models instruction conversation)
  unfolding plan
  plan-Records u instruction (outputs intent) = tt
  plan-Records u instruction (stops failure) = tt
  plan-Records u instruction (asks model_name elapsed handled next) = (
    wrap-IsAcceptable _ model_name elapsed handled
        (λ response. intent-Fits u instruction response _ refl),
    λ r. plan-Records u instruction (next _),
  )
  plan-Records u instruction (calls_function tool next) = elim tool [ ]
  plan-Records u instruction (meanwhile request next) = plan-Records u instruction next

  -- Whatever the provider and the agent's loop do, and whichever requests the application refuses, the
  -- same holds of every request that the decision planner records.
  pub decide-Records :
      (conversation : Conversation DecisionProposal TargetToolName)
      → DecisionRecords IsAcceptable (decide models conversation)
  unfolding decide
  decide-Records (outputs proposed) = tt
  decide-Records (stops failure) = tt
  decide-Records (asks model_name elapsed handled next) = λ allowed.
      allowed-Records allowed _ _
        (
          wrap-IsAcceptable _ model_name elapsed handled
              (λ response. decision-Fits response _ refl),
          λ r. decide-Records (next _),
        )
        λ e. decide-Records (next _)
  decide-Records (calls_function tool next) = λ r. decide-Records (next r)
  decide-Records (meanwhile request next) = decide-Records next
