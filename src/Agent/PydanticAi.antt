-- ===== src/Agent/PydanticAi.antt =====
-- src/app/agent/pydantic_ai_planner.py and pydantic_ai_decision.py: the planners backed by PydanticAI. The
-- agent's loop and pydantic's validation are code that is not in the repository: both are arguments.
pub mod IntentPlanner
pub mod Grows
pub mod Calls
pub mod Records
pub mod DecisionPlanner
use saas_agent_lab.Common.{ℤ, String, true, ◌≡◌, List}
use saas_agent_lab.Json.{Fields}
use saas_agent_lab.Api.Requests.{Request}
use saas_agent_lab.Schemas.Agent.{ExtractedIntent, is_extracted, DecisionProposal}
use saas_agent_lab.Text.{Text}
use saas_agent_lab.Agent.ModelRequests.{ErrorItem, Failure, Handled, Wrapped}
use saas_agent_lab.Session.{Result}

-- What the agent's loop, the provider and other clients do from here on: a request to the model, which
-- `wrap_model_request` sees to, with the time that it took; a call of a function tool of `T`; and how the loop ends, with the
-- result's output in `O` or an exception.
pub data Conversation (O T : Type 0) : Type 0 where
  outputs : O → Conversation O T
  stops : Failure → Conversation O T
  asks : String → ℤ → Handled → (Wrapped → Conversation O T) → Conversation O T
  calls_function : T → (Result Text → Conversation O T) → Conversation O T
  meanwhile : Request → Conversation O T → Conversation O T

-- `model_validate`: the value, or the entries of the `ValidationError`.
pub data Validated (A : Type 0) : Type 0 where
  valid : A → Validated A
  invalid : List ErrorItem → Validated A

-- OUTPUT_TOOLS and PROPOSAL_TOOLS, by the models that they name.
pub data OutputTool : Type 0 where
  ensure_assignment needs_clarification unsupported : OutputTool

pub data ProposalTool : Type 0 where
  goal_reached no_action_needed cannot_proceed : ProposalTool

abbrev pub tool_of_intent : ExtractedIntent → OutputTool
tool_of_intent (ExtractedIntent.ensure_assignment _) = OutputTool.ensure_assignment
tool_of_intent (ExtractedIntent.needs_clarification _) = OutputTool.needs_clarification
tool_of_intent (ExtractedIntent.unsupported _) = OutputTool.unsupported

abbrev pub tool_of_proposal : DecisionProposal → ProposalTool
tool_of_proposal DecisionProposal.goal_reached = ProposalTool.goal_reached
tool_of_proposal DecisionProposal.no_action_needed = ProposalTool.no_action_needed
tool_of_proposal (DecisionProposal.cannot_proceed _) = ProposalTool.cannot_proceed

-- pydantic's validation of a model's arguments: what it returns is an instance of that model, within
-- its bounds.
pub record ArgumentModels : Type 0 where
  pub intent : OutputTool → Fields → Validated ExtractedIntent
  pub proposal : ProposalTool → Fields → Validated DecisionProposal
  pub intent_is :
      (tool : OutputTool) (arguments : Fields) (x : ExtractedIntent)
      → intent tool arguments ≡ valid x
      → tool_of_intent x ≡ tool
  pub intent_fits :
      (tool : OutputTool) (arguments : Fields) (x : ExtractedIntent)
      → intent tool arguments ≡ valid x
      → is_extracted x ≡ true
  pub proposal_is :
      (tool : ProposalTool) (arguments : Fields) (x : DecisionProposal)
      → proposal tool arguments ≡ valid x
      → tool_of_proposal x ≡ tool
