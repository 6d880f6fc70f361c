-- ===== src/Agent/Executor/Extraction.antt =====
-- src/app/agent/executor.py: `receive_run` and `extract_intent`.
use saas_agent_lab.Common.{ℕ, String, Option, some, List, [], ◌∷◌, ltb, length, if◌then◌else◌}
use saas_agent_lab.Text.{Text, Unicode, is_empty, strip}
use saas_agent_lab.Errors.{invalid_input, empty, too_long, planner_error}
use saas_agent_lab.Json.{Json, Fields, null, str, arr, field, end, items, or_null}
use saas_agent_lab.Models.{AgentRun}
use saas_agent_lab.Models.Enums.{
  AgentRunStatus, OutcomeReason, GoalType, DesiredState, ModelCallStage, stage_value,
}
use saas_agent_lab.Repositories.AgentRuns
use saas_agent_lab.Services.Validation.{validated_external_actor}
use saas_agent_lab.Schemas.Agent.{
  EnsureAssignmentIntent, ExtractedIntent, clarification_code, unsupported_code,
}
use saas_agent_lab.Agent.Planner.{IntentPlan, ungrounded_fields}
use saas_agent_lab.Agent.Executor.Runs.{
  get_run, current_status, end_run, unexpected_detail, fail, require_awaiting_extraction,
  record_model_call,
}
use saas_agent_lab.Api.Requests.{serve}
use saas_agent_lab.Session.{
  Result, ok, raise, Exec, ⊤, pure, raise_error, lift, ◌>>=◌, ◌>>◌, attempt, transaction, and_then,
}

abbrev pub instruction_max_length : ℕ
instruction_max_length = 2000

-- `_validated_request`.
unfoldable pub validated_request : Unicode → Text → Text → Result Text
unfolding and_then validated_external_actor
validated_request u instruction requesting_actor =
    and_then (validated_external_actor u requesting_actor) λ actor.
      if is_empty (strip instruction)
      then raise (invalid_input (empty "Instruction"))
      else if ltb instruction_max_length (length instruction)
      then raise (invalid_input (too_long "Instruction" instruction_max_length))
      else ok actor

unfoldable pub receive_run : Unicode → Text → Text → Exec ℕ
receive_run u instruction requesting_actor = do
  actor ← lift (validated_request u instruction requesting_actor)
  transaction (do run ← AgentRuns.add instruction actor AgentRunStatus.received; pure run.id)

-- The planner runs with no session open; each callback is a transaction of its own.
unfoldable pub run_intent_plan : Unicode → ℕ → IntentPlan → Exec ExtractedIntent
run_intent_plan u run_id (IntentPlan.extracts intent) = pure intent
run_intent_plan u run_id (IntentPlan.fails error) = raise_error error
run_intent_plan u run_id (IntentPlan.records call next) = do
  r ← attempt (record_model_call run_id ModelCallStage.extraction call)
  run_intent_plan u run_id (next r)
run_intent_plan u run_id (IntentPlan.meanwhile request next) = do
  serve u request
  run_intent_plan u run_id next

-- What the planner came to: an intent, or a `PlannerError`.
pub data Extraction : Type 0 where
  intent : ExtractedIntent → Extraction
  failed : String → Option String → Extraction

abbrev pub field_names : List String → List Json
field_names [] = []
field_names (name ∷ names) = str name ∷ field_names names

abbrev pub with_goal : EnsureAssignmentIntent → AgentRun → AgentRun
with_goal asked run = record run {
  goal_type = some GoalType.ensure_assignment;
  desired_state = some DesiredState.assigned;
  extracted_user_email = some asked.user_email;
  extracted_product = some asked.product;
}

abbrev pub planner_detail : ModelCallStage → String → Option String → Fields
planner_detail stage code error_type =
    field "stage" (str (stage_value stage))
      (field "code" (str code) (field "error_type" (or_null str error_type) end))

abbrev pub ungrounded_detail : List String → Fields
ungrounded_detail missing = field "stage" (str "extraction") (
    field "code" (str "ungrounded_output")
      (field "error_type" null (field "fields" (arr (items (field_names missing))) end)))

-- An assignment intent becomes the run's goal, unless some of its text was invented.
unfoldable pub record_goal : AgentRun → EnsureAssignmentIntent → List String → Exec ⊤
record_goal run asked [] = AgentRuns.set_columns run.id (with_goal asked)
record_goal run asked (name ∷ names) =
    end_run run AgentRunStatus.failed OutcomeReason.planner_error
      (some (ungrounded_detail (name ∷ names)))

-- `_record_extraction`.
unfoldable pub record_extraction : Unicode → AgentRun → Text → Extraction → Exec ⊤
unfolding record_goal
record_extraction u run instruction (intent (ExtractedIntent.ensure_assignment asked)) =
    record_goal run asked (ungrounded_fields u asked instruction)
record_extraction u run instruction (intent (ExtractedIntent.needs_clarification code)) =
    end_run run AgentRunStatus.needs_clarification OutcomeReason.instruction_unclear
      (some (field "reason_code" (str (clarification_code code)) end))
record_extraction u run instruction (intent (ExtractedIntent.unsupported code)) =
    end_run run AgentRunStatus.needs_clarification OutcomeReason.unsupported_request
      (some (field "reason_code" (str (unsupported_code code)) end))
record_extraction u run instruction (failed code error_type) =
    end_run run AgentRunStatus.failed OutcomeReason.planner_error
      (some (planner_detail ModelCallStage.extraction code error_type))

unfoldable pub finish_extraction : Unicode → ℕ → Text → Extraction → Exec AgentRunStatus
finish_extraction u run_id instruction outcome = transaction (do
  run ← get_run run_id
  require_awaiting_extraction run
  record_extraction u run instruction outcome
  current_status run_id)

-- The `except` clauses around `planner.plan`.
unfoldable pub after_intent_plan : Unicode → ℕ → Text → Result ExtractedIntent → Exec AgentRunStatus
after_intent_plan u run_id instruction (ok asked) =
    finish_extraction u run_id instruction (intent asked)
after_intent_plan u run_id instruction (raise (planner_error code error_type)) =
    finish_extraction u run_id instruction (failed code error_type)
after_intent_plan u run_id instruction (raise error) =
    fail run_id (unexpected_detail "extraction" error)

unfoldable pub extract_intent : Unicode → ℕ → (Text → IntentPlan) → Exec AgentRunStatus
extract_intent u run_id planner = do
  run ← get_run run_id
  require_awaiting_extraction run
  outcome ← attempt (run_intent_plan u run_id (planner run.instruction))
  after_intent_plan u run_id run.instruction outcome
