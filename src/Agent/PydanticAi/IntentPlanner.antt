-- ===== src/Agent/PydanticAi/IntentPlanner.antt =====
-- src/app/agent/pydantic_ai_planner.py.
pub mod Accepted
pub mod Loop
pub mod Copied
pub mod Requests
use saas_agent_lab.Common.{
  ℕ, String, Option, none, some, List, [], ◌∷◌, length, list_eq, if◌then◌else◌,
}
use saas_agent_lab.Text.{Text, Unicode, codes}
use saas_agent_lab.Errors.{
  InvalidOutput, not_one_result, not_a_result_tool, result_not_object, invalid_arguments,
  not_copied,
}
use saas_agent_lab.Json.{Fields}
use saas_agent_lab.Schemas.Agent.{EnsureAssignmentIntent, ExtractedIntent}
use saas_agent_lab.Schemas.AgentRuns.Validation.{ModelCallOutput, extraction}
use saas_agent_lab.Agent.Planner.{IntentPlan, ungrounded_fields}
use saas_agent_lab.Agent.ModelRequests.{
  ToolCallPart, ModelResponse, tool_call_parts, Parsed, accepted, rejected, wrap_model_request,
  once_recorded, planner_exception, describe_validation_error, take,
}
use saas_agent_lab.Agent.PydanticAi.{
  Conversation, outputs, stops, asks, calls_function, meanwhile, Validated, valid, invalid,
  OutputTool, ArgumentModels,
}

abbrev pub output_retries : ℕ
output_retries = 2

-- OUTPUT_TOOLS, by name.
abbrev pub output_tool : Text → Option OutputTool
output_tool name =
    if list_eq name (codes "ensure_assignment")
    then some OutputTool.ensure_assignment
    else if list_eq name (codes "needs_clarification")
    then some OutputTool.needs_clarification
    else if list_eq name (codes "unsupported")
    then some OutputTool.unsupported
    else none

-- `call.tool_name[:64]`.
abbrev pub short_name : Text → Text
short_name name = take 64 name

module _ (u : Unicode) (models : ArgumentModels) where
  abbrev pub if_copied : EnsureAssignmentIntent → List String → Parsed ExtractedIntent
  if_copied asked [] = accepted (ExtractedIntent.ensure_assignment asked)
  if_copied asked (name ∷ names) = rejected (not_copied (name ∷ names))

  abbrev pub grounded : Text → ExtractedIntent → Parsed ExtractedIntent
  grounded instruction (ExtractedIntent.ensure_assignment asked) =
      if_copied asked (ungrounded_fields u asked instruction)
  grounded instruction intent = accepted intent

  abbrev pub if_valid : Text → Validated ExtractedIntent → Parsed ExtractedIntent
  if_valid instruction (valid intent) = grounded instruction intent
  if_valid instruction (invalid errors) =
      rejected (invalid_arguments (describe_validation_error errors))

  abbrev pub with_arguments : Text → OutputTool → Option Fields → Parsed ExtractedIntent
  with_arguments instruction tool none = rejected result_not_object
  with_arguments instruction tool (some arguments) =
      if_valid instruction (models.intent tool arguments)

  abbrev pub by_tool : Text → ToolCallPart → Option OutputTool → Parsed ExtractedIntent
  by_tool instruction call none = rejected (not_a_result_tool (short_name call.tool_name))
  by_tool instruction call (some tool) = with_arguments instruction tool call.args

  abbrev pub one_result : Text → List ToolCallPart → Parsed ExtractedIntent
  one_result instruction (call ∷ []) = by_tool instruction call (output_tool call.tool_name)
  one_result instruction calls = rejected (not_one_result (length calls))

  unfoldable pub parse_output : ModelResponse → Text → Parsed ExtractedIntent
  parse_output response instruction = one_result instruction (tool_call_parts response.parts)

  abbrev pub as_output : Parsed ExtractedIntent → Parsed ModelCallOutput
  as_output (accepted intent) = accepted (extraction intent)
  as_output (rejected problem) = rejected problem

  -- `PydanticAIIntentPlanner.plan`: the agent has no function tools.
  unfoldable pub plan : Text → Conversation ExtractedIntent ⊥ → IntentPlan
  unfolding parse_output wrap_model_request planner_exception
  plan instruction (outputs intent) = IntentPlan.extracts intent
  plan instruction (stops failure) = IntentPlan.fails (planner_exception failure)
  plan instruction (asks model_name elapsed handled next) =
      let (call, wrapped) =
        wrap_model_request (λ response. as_output (parse_output response instruction)) model_name
          elapsed handled in
      IntentPlan.records call (λ r. plan instruction (next (once_recorded r wrapped)))
  plan instruction (calls_function tool next) = elim tool [ ]
  plan instruction (meanwhile request next) = IntentPlan.meanwhile request (plan instruction next)
