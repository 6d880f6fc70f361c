-- ===== src/Errors.antt =====
-- src/app/services/errors.py, the exceptions of src/app/agent, and the two that SQLAlchemy raises into this
-- code. An exception's message is a function of the exception, so `Message` names it by that.
use saas_agent_lab.Common.{ℕ, String, Option, Bool, true, false, List}
use saas_agent_lab.Text.{Text}
use saas_agent_lab.Models.Enums.{AgentRunStatus}

-- Which input rule was broken: the message of an `InvalidInput`.
pub data Problem : Type 0 where
  empty : String → Problem
  too_long : String → ℕ → Problem
  malformed_email reserved_actor negative_seats too_many_seats unknown_policy : Problem

pub data Exc : Type 0 where
  invalid_input : Problem → Exc
  email_already_exists : Text → Exc
  user_not_found : ℕ → Exc
  product_already_exists : Text → Exc
  licence_not_found : ℕ → Exc
  user_inactive : ℕ → Exc
  assignment_already_exists : ℕ → ℕ → Exc
  no_seats_available : ℕ → Exc
  assignment_not_found : ℕ → Exc
  assignment_already_revoked : ℕ → Exc
  -- SQLAlchemy: `str(error.orig)`, and `one_or_none` on several rows.
  integrity_error : String → Exc
  multiple_results_found : Exc
  agent_run_not_found : ℕ → Exc
  run_not_executable : ℕ → AgentRunStatus → String → Exc
  decision_stopped : ℕ → Exc
  planner_error : String → Option String → Exc
  -- FastAPI: the request breaks a declared bound, and no endpoint is called.
  request_validation_error : Exc
  -- Any other exception, by its class name.
  other : String → Exc

-- `isinstance(error, DomainError)`.
abbrev pub is_domain_error : Exc → Bool
is_domain_error (invalid_input _) = true
is_domain_error (email_already_exists _) = true
is_domain_error (user_not_found _) = true
is_domain_error (product_already_exists _) = true
is_domain_error (licence_not_found _) = true
is_domain_error (user_inactive _) = true
is_domain_error (assignment_already_exists _ _) = true
is_domain_error (no_seats_available _) = true
is_domain_error (assignment_not_found _) = true
is_domain_error (assignment_already_revoked _) = true
is_domain_error _ = false

-- `type(error).__name__`.
abbrev pub type_name : Exc → String
type_name (invalid_input _) = "InvalidInput"
type_name (email_already_exists _) = "EmailAlreadyExists"
type_name (user_not_found _) = "UserNotFound"
type_name (product_already_exists _) = "ProductAlreadyExists"
type_name (licence_not_found _) = "LicenceNotFound"
type_name (user_inactive _) = "UserInactive"
type_name (assignment_already_exists _ _) = "AssignmentAlreadyExists"
type_name (no_seats_available _) = "NoSeatsAvailable"
type_name (assignment_not_found _) = "AssignmentNotFound"
type_name (assignment_already_revoked _) = "AssignmentAlreadyRevoked"
type_name (integrity_error _) = "IntegrityError"
type_name multiple_results_found = "MultipleResultsFound"
type_name (agent_run_not_found _) = "AgentRunNotFound"
type_name (run_not_executable _ _ _) = "RunNotExecutable"
type_name (decision_stopped _) = "DecisionStopped"
type_name (planner_error _ _) = "PlannerError"
type_name request_validation_error = "RequestValidationError"
type_name (other name) = name

-- `InvalidOutput`: what a model's response does wrong. A name stands for its first 64 characters.
pub data InvalidOutput : Type 0 where
  not_one_result : ℕ → InvalidOutput
  no_calls : InvalidOutput
  not_alone : ℕ → InvalidOutput
  not_a_result_tool not_a_tool takes_arguments arguments_not_object : Text → InvalidOutput
  result_not_object : InvalidOutput
  invalid_arguments : Text → InvalidOutput
  not_copied : List String → InvalidOutput

-- A message the application records: `str(error)`, or one of its own with what it interpolates.
pub data Message : Type 0 where
  str_of : Exc → Message
  unexpected_while_running : String → Message
  at_most : ℕ → String → Message
  policy_denies : String → Message
  written : String → Message
  invalid_output : InvalidOutput → Message
  http_error : ℕ → Message
