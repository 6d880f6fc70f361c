-- ===== src/Agent/PydanticAi/DecisionPlanner.antt =====
-- src/app/agent/pydantic_ai_decision.py.
pub mod Accepted
pub mod Calls
pub mod Room
pub mod Requests
use saas_agent_lab.Common.{
  Bool, Option, none, some, List, [], ◌∷◌, any, is_some, length, list_eq, if◌then◌else◌,
}
use saas_agent_lab.Text.{Text, codes}
use saas_agent_lab.Errors.{
  Exc, decision_stopped, InvalidOutput, no_calls, not_alone, not_a_tool, takes_arguments,
  arguments_not_object, invalid_arguments,
}
use saas_agent_lab.Json.{Fields, end, field}
use saas_agent_lab.Schemas.Agent.{
  DecisionProposal, TargetToolName, get_target_user, get_target_licence_capacity,
  list_target_user_assignments, assign_target_licence,
}
use saas_agent_lab.Schemas.AgentRuns.Validation.{ModelCallOutput, tool_calls, proposal}
use saas_agent_lab.Agent.Planner.{DecisionPlan}
use saas_agent_lab.Agent.ModelRequests.{
  Failure, application, ToolCallPart, ModelResponse, tool_call_parts, Parsed, accepted, rejected,
  raised, wrap_model_request, once_recorded, planner_exception, describe_validation_error, take,
}
use saas_agent_lab.Agent.PydanticAi.{
  Conversation, outputs, stops, asks, calls_function, meanwhile, Validated, valid, invalid,
  ProposalTool, ArgumentModels,
}
use saas_agent_lab.Session.{Result, ok, raise, ⊤}

-- PROPOSAL_TOOLS and TARGET_TOOL_NAMES, by name.
abbrev pub proposal_tool : Text → Option ProposalTool
proposal_tool name =
    if list_eq name (codes "goal_reached")
    then some ProposalTool.goal_reached
    else if list_eq name (codes "no_action_needed")
    then some ProposalTool.no_action_needed
    else if list_eq name (codes "cannot_proceed")
    then some ProposalTool.cannot_proceed
    else none

abbrev pub target_tool : Text → Option TargetToolName
target_tool name =
    if list_eq name (codes "get_target_user")
    then some get_target_user
    else if list_eq name (codes "get_target_licence_capacity")
    then some get_target_licence_capacity
    else if list_eq name (codes "list_target_user_assignments")
    then some list_target_user_assignments
    else if list_eq name (codes "assign_target_licence")
    then some assign_target_licence
    else none

-- `_arguments`.
abbrev pub arguments : ToolCallPart → Option Fields → Parsed Fields
arguments call none = rejected (arguments_not_object (take 64 call.tool_name))
arguments call (some fields) = accepted fields

-- The check of one requested tool, and the tools behind it.
abbrev pub without_arguments :
    ToolCallPart
    → TargetToolName
    → Parsed Fields
    → Parsed (List TargetToolName)
    → Parsed (List TargetToolName)
without_arguments call tool (rejected problem) rest = rejected problem
without_arguments call tool (accepted (field _ _ _)) rest =
    rejected (takes_arguments call.tool_name)
without_arguments call tool (accepted end) (rejected problem) = rejected problem
without_arguments call tool (accepted end) (accepted names) = accepted (tool ∷ names)

abbrev pub requested :
    ToolCallPart
    → Option TargetToolName
    → Parsed (List TargetToolName)
    → Parsed (List TargetToolName)
requested call none rest = rejected (not_a_tool (take 64 call.tool_name))
requested call (some tool) rest = without_arguments call tool (arguments call call.args) rest

-- The loop over the calls: the first that is no tool, or has arguments, is rejected.
abbrev pub tool_requests : List ToolCallPart → Parsed (List TargetToolName)
tool_requests [] = accepted []
tool_requests (call ∷ calls) = requested call (target_tool call.tool_name) (tool_requests calls)

abbrev pub as_tool_calls : Parsed (List TargetToolName) → Parsed ModelCallOutput
as_tool_calls (accepted names) = accepted (tool_calls names)
as_tool_calls (rejected problem) = rejected problem

abbrev pub is_proposal_call : ToolCallPart → Bool
is_proposal_call call = is_some (proposal_tool call.tool_name)

-- A refused request is not made and not recorded.
abbrev pub if_allowed : Result ⊤ → DecisionPlan → (Exc → DecisionPlan) → DecisionPlan
if_allowed (ok _) made refused = made
if_allowed (raise e) made refused = refused e

module _ (models : ArgumentModels) where
  abbrev pub if_valid : Validated DecisionProposal → Parsed ModelCallOutput
  if_valid (valid proposed) = accepted (proposal proposed)
  if_valid (invalid errors) = rejected (invalid_arguments (describe_validation_error errors))

  abbrev pub conclusion : ProposalTool → Parsed Fields → Parsed ModelCallOutput
  conclusion tool (rejected problem) = rejected problem
  conclusion tool (accepted fields) = if_valid (models.proposal tool fields)

  -- One call: a conclusion, or a request for one tool.
  abbrev pub alone : ToolCallPart → Option ProposalTool → Parsed ModelCallOutput
  alone call (some tool) = conclusion tool (arguments call call.args)
  alone call none = as_tool_calls (tool_requests (call ∷ []))

  abbrev pub parse_calls : List ToolCallPart → Parsed ModelCallOutput
  parse_calls [] = rejected no_calls
  parse_calls (call ∷ []) = alone call (proposal_tool call.tool_name)
  parse_calls (call ∷ next ∷ rest) =
      if any is_proposal_call (call ∷ next ∷ rest)
      then rejected (not_alone (length (call ∷ next ∷ rest)))
      else as_tool_calls (tool_requests (call ∷ next ∷ rest))

  unfoldable pub parse_decision : ModelResponse → Parsed ModelCallOutput
  parse_decision response = parse_calls (tool_call_parts response.parts)

  -- `except DecisionStopped: raise`, and the other `except`.
  unfoldable pub decision_exception : Failure → Exc
  unfolding planner_exception
  decision_exception (application (decision_stopped run_id)) = decision_stopped run_id
  decision_exception failure = planner_exception failure

  -- `PydanticAIDecisionPlanner.decide`: `before_request` is asked before each request.
  unfoldable pub decide : Conversation DecisionProposal TargetToolName → DecisionPlan
  unfolding parse_decision decision_exception wrap_model_request
  decide (outputs proposed) = DecisionPlan.concludes proposed
  decide (stops failure) = DecisionPlan.fails (decision_exception failure)
  decide (asks model_name elapsed handled next) =
      let (call, wrapped) = wrap_model_request parse_decision model_name elapsed handled in
      DecisionPlan.requests λ allowed.
        if_allowed allowed
          (DecisionPlan.records call (λ r. decide (next (once_recorded r wrapped))))
          λ e. decide (next (raised (application e)))
  decide (calls_function tool next) = DecisionPlan.calls_tool tool (λ r. decide (next r))
  decide (meanwhile request next) = DecisionPlan.meanwhile request (decide next)
