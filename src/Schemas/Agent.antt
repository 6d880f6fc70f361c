-- ===== src/Schemas/Agent.antt =====
-- src/app/schemas/agent.py: what a planner may extract, tool results and errors, the verifier's result,
-- and what crosses the model boundary in the decision stage. Each pydantic model is a record.
use saas_agent_lab.Common.{ℕ, String, Bool, true, Option, List, leb, length, ◌&&◌}
use saas_agent_lab.Text.{Text}
use saas_agent_lab.Errors.{Message}
use saas_agent_lab.Models.Enums.{UserStatus, OutcomeReason, CannotProceedReason}
use saas_agent_lab.Json.{Fields}

abbrev pub extracted_text_max_length : ℕ
extracted_text_max_length = 1000

-- `ExtractedText`: the bound that pydantic checks when it makes an intent.
abbrev pub is_extracted_text : Text → Bool
is_extracted_text t = leb (length t) extracted_text_max_length

-- A value of this type may be longer; `is_extracted` holds of those that pydantic makes.
pub record EnsureAssignmentIntent : Type 0 where
  pub user_email : Text
  pub product : Text

pub data NeedsClarificationCode : Type 0 where
  missing_user_email missing_product multiple_users : NeedsClarificationCode
  multiple_products conflicting_request : NeedsClarificationCode

pub data UnsupportedCode : Type 0 where
  unsupported_action additional_request not_a_request : UnsupportedCode

-- The union of the three intents, told apart by `kind`.
pub data ExtractedIntent : Type 0 where
  ensure_assignment : EnsureAssignmentIntent → ExtractedIntent
  needs_clarification : NeedsClarificationCode → ExtractedIntent
  unsupported : UnsupportedCode → ExtractedIntent

abbrev pub is_extracted : ExtractedIntent → Bool
is_extracted (ensure_assignment asked) =
    is_extracted_text asked.user_email && is_extracted_text asked.product
is_extracted _ = true

abbrev pub clarification_code : NeedsClarificationCode → String
clarification_code missing_user_email = "missing_user_email"
clarification_code missing_product = "missing_product"
clarification_code multiple_users = "multiple_users"
clarification_code multiple_products = "multiple_products"
clarification_code conflicting_request = "conflicting_request"

abbrev pub unsupported_code : UnsupportedCode → String
unsupported_code unsupported_action = "unsupported_action"
unsupported_code additional_request = "additional_request"
unsupported_code not_a_request = "not_a_request"

-- Also the shape of `ToolError`: a code, a message, and the exception's class name.
pub record ModelCallError : Type 0 where
  pub code : String
  pub message : Message
  pub error_type : Option String

pub record ModelCallRecord : Type 0 where
  pub model_name : String
  pub input_tokens : Option ℕ
  pub output_tokens : Option ℕ
  pub latency_ms : ℕ
  pub output : Option Fields
  pub error : Option ModelCallError

pub record ResolvedAssignmentGoal : Type 0 where
  pub user_id : ℕ
  pub licence_id : ℕ
  pub extracted_user_email : Text
  pub extracted_product : Text

pub record ResolutionFailure : Type 0 where
  pub code : OutcomeReason
  pub detail : Fields

pub record UserSnapshot : Type 0 where
  pub user_id : ℕ
  pub email : Text
  pub name : Text
  pub status : UserStatus

pub record LicenceSnapshot : Type 0 where
  pub licence_id : ℕ
  pub product : Text
  pub seats_total : ℕ
  pub seats_active : ℕ
  pub seats_available : ℕ

pub record AssignmentSnapshot : Type 0 where
  pub assignment_id : ℕ
  pub user_id : ℕ
  pub licence_id : ℕ
  pub active : Bool
  pub assigned_at : ℕ
  pub revoked_at : Option ℕ

pub record UserAssignmentsSnapshot : Type 0 where
  pub user_id : ℕ
  pub assignments : List AssignmentSnapshot

pub data ToolOutput : Type 0 where
  user : UserSnapshot → ToolOutput
  licence : LicenceSnapshot → ToolOutput
  user_assignments : UserAssignmentsSnapshot → ToolOutput
  assignment : AssignmentSnapshot → ToolOutput

pub record ToolError : Type 0 where
  pub code : String
  pub message : Message
  pub error_type : Option String

pub record VerificationEvidence : Type 0 where
  pub user_id : ℕ
  pub licence_id : ℕ
  pub active_assignment : Option AssignmentSnapshot

pub record VerificationResult : Type 0 where
  pub satisfied : Bool
  pub evidence : VerificationEvidence

pub record BlockCheck : Type 0 where
  pub reason : CannotProceedReason
  pub confirmed : Bool
  pub user : Option UserSnapshot
  pub licence : Option LicenceSnapshot

pub data AssignmentRejectionCode : Type 0 where
  no_seats_available user_inactive already_assigned : AssignmentRejectionCode

-- The observations. A reason code is set exactly when an attempt was rejected, so `rejected` has it
-- and `assigned` has none.
pub data ModelObservation : Type 0 where
  target_user : UserStatus → ModelObservation
  licence_capacity : ℕ → ℕ → ℕ → ModelObservation
  target_assignments : Bool → ModelObservation
  attempt_assigned : ModelObservation
  attempt_rejected : AssignmentRejectionCode → ModelObservation

pub data TargetToolName : Type 0 where
  get_target_user get_target_licence_capacity : TargetToolName
  list_target_user_assignments assign_target_licence : TargetToolName

-- The instructions, line by line.
pub record DecisionContext : Type 0 where
  pub instructions : List String
  pub prompt : Text

pub data DecisionProposal : Type 0 where
  goal_reached : DecisionProposal
  no_action_needed : DecisionProposal
  cannot_proceed : CannotProceedReason → DecisionProposal
