-- ===== src/Schemas/AgentRuns/Validation.antt =====
-- src/app/schemas/agent_runs.py: what pydantic validates when a stored run is shown.
use saas_agent_lab.Common.{String, Bool, true, ◌≡◌, List, map}
use saas_agent_lab.Json.{Json, Fields, bool, str, text, arr, field, end, items}
use saas_agent_lab.Models.Enums.{CannotProceedReason, claim_value}
use saas_agent_lab.Schemas.Agent.{
  ExtractedIntent, ensure_assignment, needs_clarification, unsupported, is_extracted,
  clarification_code, unsupported_code, TargetToolName, DecisionProposal, goal_reached,
  no_action_needed, cannot_proceed,
}
use saas_agent_lab.Session.{Result, ok}

-- The literals of `BlockingReason`.
pub data BlockingReason : Type 0 where
  no_seats_available user_inactive : BlockingReason

abbrev pub blocking_value : BlockingReason → String
blocking_value BlockingReason.no_seats_available = "no_seats_available"
blocking_value BlockingReason.user_inactive = "user_inactive"

-- The tool names of `TargetToolName`.
abbrev pub tool_value : TargetToolName → String
tool_value TargetToolName.get_target_user = "get_target_user"
tool_value TargetToolName.get_target_licence_capacity = "get_target_licence_capacity"
tool_value TargetToolName.list_target_user_assignments = "list_target_user_assignments"
tool_value TargetToolName.assign_target_licence = "assign_target_licence"

-- The union: an extraction result, a request for tools, or a decision proposal.
pub data ModelCallOutput : Type 0 where
  extraction : ExtractedIntent → ModelCallOutput
  tool_calls : List TargetToolName → ModelCallOutput
  proposal : DecisionProposal → ModelCallOutput

-- The bounds that the union's models declare.
abbrev pub is_valid_output : ModelCallOutput → Bool
is_valid_output (extraction intent) = is_extracted intent
is_valid_output _ = true

abbrev pub dump_intent : ExtractedIntent → Fields
dump_intent (ensure_assignment asked) =
    field "kind" (str "ensure_assignment")
      (field "user_email" (text asked.user_email) (field "product" (text asked.product) end))
dump_intent (needs_clarification code) =
    field "kind" (str "needs_clarification")
      (field "reason_code" (str (clarification_code code)) end)
dump_intent (unsupported code) =
    field "kind" (str "unsupported") (field "reason_code" (str (unsupported_code code)) end)

abbrev pub dump_proposal : DecisionProposal → Fields
dump_proposal goal_reached = field "kind" (str "goal_reached") end
dump_proposal no_action_needed = field "kind" (str "no_action_needed") end
dump_proposal (cannot_proceed reason) =
    field "kind" (str "cannot_proceed") (field "reason_code" (str (claim_value reason)) end)

-- `output.model_dump(mode="json")`.
unfoldable pub dump_output : ModelCallOutput → Fields
dump_output (extraction intent) = dump_intent intent
dump_output (tool_calls names) =
    field "kind" (str "tool_calls")
      (field "tool_names" (arr (items (map (λ name. str (tool_value name)) names))) end)
dump_output (proposal proposed) = dump_proposal proposed

-- The validators of the fields' types, and that each accepts what was dumped of a value of its type
-- that is within the type's bounds.
pub record Validators : Type 0 where
  pub string : Json → Result String
  pub boolean : Json → Result Bool
  pub claim : Json → Result CannotProceedReason
  pub blocking_reason : Json → Result BlockingReason
  pub output : Fields → Result ModelCallOutput
  pub string_str : (s : String) → string (str s) ≡ ok s
  pub boolean_bool : (b : Bool) → boolean (bool b) ≡ ok b
  pub claim_str : (reason : CannotProceedReason) → claim (str (claim_value reason)) ≡ ok reason
  pub blocking_str :
      (reason : BlockingReason) → blocking_reason (str (blocking_value reason)) ≡ ok reason
  pub output_dump : (o : ModelCallOutput) → is_valid_output o ≡ true → output (dump_output o) ≡ ok o
