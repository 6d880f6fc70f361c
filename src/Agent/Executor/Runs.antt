-- ===== src/Agent/Executor/Runs.antt =====
-- src/app/agent/executor.py: what every step uses, and the recorder of model calls.
use saas_agent_lab.Common.{ℕ, String, ◌&&◌, not, Option, none, some, is_some}
use saas_agent_lab.Text.{Text}
use saas_agent_lab.Errors.{Exc, agent_run_not_found, run_not_executable, type_name}
use saas_agent_lab.Json.{Fields, str, field, end}
use saas_agent_lab.Models.{AgentRun}
use saas_agent_lab.Models.Enums.{
  AgentRunStatus, OutcomeReason, ModelCallStage, ModelCallStatus, is_received,
}
use saas_agent_lab.Repositories.AgentRuns
use saas_agent_lab.Repositories.ModelCalls
use saas_agent_lab.Schemas.Agent.{ModelCallRecord, ModelCallError, ResolvedAssignmentGoal}
use saas_agent_lab.Session.{Exec, ⊤, pure, ◌>>=◌, ◌>>◌, raise_if, or_raise, transaction, utcnow}

abbrev pub cannot_now : String
cannot_now = "it cannot do this now"

abbrev pub unfinished_call : String
unfinished_call = "a tool call has no recorded outcome"

unfoldable pub get_run : ℕ → Exec AgentRun
get_run run_id = do run ← AgentRuns.get run_id; or_raise run (agent_run_not_found run_id)

-- `return run.status`, of the object that the session holds.
unfoldable pub current_status : ℕ → Exec AgentRunStatus
current_status run_id = do run ← get_run run_id; pure run.status

abbrev pub ended : AgentRunStatus → OutcomeReason → Option Fields → ℕ → AgentRun → AgentRun
ended status reason detail completed_at run = record run {
  status = status;
  outcome_reason = some reason;
  outcome_detail = detail;
  completed_at = some completed_at;
}

-- `_end`, on a run as it was read.
unfoldable pub end_run : AgentRun → AgentRunStatus → OutcomeReason → Option Fields → Exec ⊤
end_run run status reason detail = do
  raise_if (is_some run.completed_at) (run_not_executable run.id run.status "it has already ended")
  completed_at ← utcnow
  AgentRuns.set_columns run.id (ended status reason detail completed_at)

abbrev pub unexpected_detail : String → Exc → Fields
unexpected_detail stage error =
    field "stage" (str stage) (field "error_type" (str (type_name error)) end)

-- `_fail`.
unfoldable pub fail : ℕ → Fields → Exec AgentRunStatus
fail run_id detail = transaction (do
  run ← get_run run_id
  end_run run AgentRunStatus.failed OutcomeReason.unexpected_error (some detail)
  current_status run_id)

abbrev pub both : Option Text → Option Text → Option (Text × Text)
both (some a) (some b) = some (a, b)
both _ _ = none

-- `_extracted_text`.
abbrev pub extracted_text : AgentRun → Option (Text × Text)
extracted_text run = both run.extracted_user_email run.extracted_product

-- `_require_awaiting_extraction`.
unfoldable pub require_awaiting_extraction : AgentRun → Exec ⊤
require_awaiting_extraction run =
    raise_if (not (is_received run.status && not (is_some (extracted_text run))))
      (run_not_executable run.id run.status cannot_now)

abbrev pub goal_of : Option (Text × Text) → Option ℕ → Option ℕ → Option ResolvedAssignmentGoal
goal_of (some (user_email, product)) (some user_id) (some licence_id) = some (record {
  user_id = user_id;
  licence_id = licence_id;
  extracted_user_email = user_email;
  extracted_product = product;
})
goal_of _ _ _ = none

-- `_persisted_goal`.
unfoldable pub persisted_goal : AgentRun → Exec ResolvedAssignmentGoal
persisted_goal run =
    or_raise (goal_of (extracted_text run) run.resolved_user_id run.resolved_licence_id)
      (run_not_executable run.id run.status cannot_now)

abbrev pub call_status : Option ModelCallError → ModelCallStatus
call_status none = ModelCallStatus.succeeded
call_status (some _) = ModelCallStatus.failed

-- `_ModelCallLog.record`: one short transaction, and the run's next position.
unfoldable pub record_model_call : ℕ → ModelCallStage → ModelCallRecord → Exec ⊤
record_model_call run_id stage call = transaction (do
  sequence_no ← AgentRuns.next_sequence_no run_id
  ModelCalls.add (record {
    id = 0;
    agent_run_id = run_id;
    sequence_no = sequence_no;
    stage = stage;
    model_name = call.model_name;
    status = call_status call.error;
    input_tokens = call.input_tokens;
    output_tokens = call.output_tokens;
    latency_ms = call.latency_ms;
    output = call.output;
    error = call.error;
    created_at = 0;
  })
  pure tt)
