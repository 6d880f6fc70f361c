-- ===== src/Api/AgentRuns.antt =====
-- src/app/api/agent_runs.py: the two endpoints of agent runs. Neither takes the request's transaction.
pub mod Created
pub mod Answered
pub mod Planned
use saas_agent_lab.Common.{ℕ, ltb, length, ◌||◌, if◌then◌else◌}
use saas_agent_lab.Text.{Text, Unicode, is_empty}
use saas_agent_lab.Errors.{Exc, agent_run_not_found, request_validation_error}
use saas_agent_lab.Schemas.Agent.{DecisionContext}
use saas_agent_lab.Schemas.AgentRuns.{AgentRunRead, AgentRunDetail, read_of, detail_of}
use saas_agent_lab.Schemas.AgentRuns.Validation.{Validators}
use saas_agent_lab.Agent.Planner.{IntentPlan, DecisionPlan}
use saas_agent_lab.Agent.Executor.Extraction.{instruction_max_length}
use saas_agent_lab.Agent.Executor.Lifecycle.{AgentRunRecord, get, start}
use saas_agent_lab.Api.Requests.{get_actor, validated_id, status_otherwise}
use saas_agent_lab.Session.{Result, ok, raise, Exec, pure, lift, ◌>>=◌, ◌>>◌, attempt}

-- A status code with what is returned, or with the exception that was raised.
pub data Reply (A : Type 0) : Type 0 where
  success : ℕ → A → Reply A
  error : ℕ → Exc → Reply A

-- `AgentRunCreate`: the declared bounds of the instruction.
unfoldable pub validated_body : Text → Result Text
validated_body instruction =
    if is_empty instruction || ltb instruction_max_length (length instruction)
    then raise request_validation_error
    else ok instruction

abbrev pub get_status : Exc → ℕ
get_status (agent_run_not_found _) = 404
get_status request_validation_error = 422
get_status e = 500

-- What is read is outside the `try`: an exception there is a server error.
abbrev pub shown : {A : Type 0} → ℕ → Result A → Reply A
shown code (ok read) = success code read
shown code (raise e) = error 500 e

module _ (v : Validators) where
  unfoldable pub created : Result AgentRunRecord → Reply AgentRunRead
  created (ok row) = shown 201 (read_of v row.run)
  created (raise e) = error (status_otherwise e) e

  -- `create_agent_run`, behind the validation of its header and body.
  unfoldable pub create_agent_run :
      Unicode
      → Text
      → Text
      → (Text → IntentPlan)
      → (DecisionContext → DecisionPlan)
      → Exec (Reply AgentRunRead)
  unfolding created validated_body
  create_agent_run u x_actor instruction intent_planner decision_planner = do
    r ← attempt (do
      actor ← lift (get_actor u x_actor)
      asked ← lift (validated_body instruction)
      start u asked actor intent_planner decision_planner)
    pure (created r)

  unfoldable pub found : Result AgentRunRecord → Reply AgentRunDetail
  found (ok row) = shown 200 (detail_of v row.run row.trace)
  found (raise e) = error (get_status e) e

  -- `get_agent_run`.
  unfoldable pub get_agent_run : ℕ → Exec (Reply AgentRunDetail)
  unfolding found validated_id
  get_agent_run run_id = do r ← attempt (do id ← lift (validated_id run_id); get id); pure (found r)
