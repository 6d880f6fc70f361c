-- ===== src/Schemas/AgentRuns.antt =====
-- src/app/schemas/agent_runs.py: what a caller is shown of a run. pydantic validates the JSON that a row
-- holds; what it accepts is the interface `Validators`.
pub mod Validation
pub mod Trace
pub mod Rejections
pub mod Recorded
pub mod Views
pub mod Privacy
use saas_agent_lab.Common.{ℕ, String, Bool, Option, none, some, List}
use saas_agent_lab.Text.{Text}
use saas_agent_lab.Errors.{other}
use saas_agent_lab.Json.{Json, Fields, null, bool, obj, get}
use saas_agent_lab.Models.{AgentRun}
use saas_agent_lab.Models.Enums.{
  AgentRunStatus, OutcomeReason, GoalType, DecisionProposalKind, CannotProceedReason,
}
use saas_agent_lab.Repositories.AgentRuns.{TraceEntry}
use saas_agent_lab.Schemas.Agent.{
  DecisionContext, DecisionProposal, goal_reached, no_action_needed, cannot_proceed,
}
use saas_agent_lab.Schemas.AgentRuns.Validation.{BlockingReason, Validators}
use saas_agent_lab.Schemas.AgentRuns.Trace.{TraceRead, trace_of}
use saas_agent_lab.Session.{Result, ok, raise, and_then}

pub record GoalRead : Type 0 where
  pub kind : GoalType
  pub user_email : Text
  pub product : Text

pub record BlockCheckRead : Type 0 where
  pub reason : CannotProceedReason
  pub confirmed : Bool

pub record VerificationRead : Type 0 where
  pub satisfied : Bool
  pub blocking_rejection : Option BlockingReason
  pub block_check : Option BlockCheckRead

-- `_AgentRunSummary`. Its code is `C`: JSON in the dictionary that `_summary` builds, a string once it
-- has been validated.
pub record Summary (C : Type 0) : Type 0 where
  pub id : ℕ
  pub instruction : Text
  pub requesting_actor : Text
  pub status : AgentRunStatus
  pub outcome_reason : Option OutcomeReason
  pub outcome_code : Option C
  pub goal : Option GoalRead
  pub decision_proposal : Option DecisionProposal
  pub created_at : ℕ
  pub completed_at : Option ℕ

abbrev pub AgentRunRead : Type 0
AgentRunRead = Summary String

pub record AgentRunDetail : Type 0 where
  pub summary : AgentRunRead
  pub decision_context : Option DecisionContext
  pub verification : Option VerificationRead
  pub trace : List TraceRead

abbrev pub goal_columns : Option GoalType → Option Text → Option Text → Option GoalRead
goal_columns (some kind) (some user_email) (some product) =
    some (record { kind = kind; user_email = user_email; product = product })
goal_columns _ _ _ = none

-- `_goal`.
unfoldable pub goal : AgentRun → Option GoalRead
goal run = goal_columns run.goal_type run.extracted_user_email run.extracted_product

abbrev pub with_reason : Option CannotProceedReason → Result (Option DecisionProposal)
with_reason none = raise (other "ValueError")
with_reason (some reason) = ok (some (cannot_proceed reason))

abbrev pub proposal_columns :
    Option DecisionProposalKind → Option CannotProceedReason → Result (Option DecisionProposal)
proposal_columns none _ = ok none
proposal_columns (some DecisionProposalKind.goal_reached) _ = ok (some goal_reached)
proposal_columns (some DecisionProposalKind.no_action_needed) _ = ok (some no_action_needed)
proposal_columns (some DecisionProposalKind.cannot_proceed) reason = with_reason reason

-- `_proposal`.
unfoldable pub proposal : AgentRun → Result (Option DecisionProposal)
proposal run = proposal_columns run.decision_proposal run.decision_reason_code

-- _OUTCOME_CODE_KEYS.
abbrev pub outcome_code_key : OutcomeReason → Option String
outcome_code_key OutcomeReason.instruction_unclear = some "reason_code"
outcome_code_key OutcomeReason.unsupported_request = some "reason_code"
outcome_code_key OutcomeReason.planner_error = some "code"
outcome_code_key OutcomeReason.step_limit = some "limit"
outcome_code_key _ = none

-- JSON's `null` is `None`.
abbrev pub not_null : Option Json → Option Json
not_null none = none
not_null (some null) = none
not_null (some value) = some value

abbrev pub value_at : Option String → Option Fields → Option Json
value_at (some key) (some detail) = not_null (get key detail)
value_at _ _ = none

abbrev pub key_of : Option OutcomeReason → Option String
key_of none = none
key_of (some reason) = outcome_code_key reason

-- `_outcome_code`.
unfoldable pub outcome_code : Option OutcomeReason → Option Fields → Option Json
outcome_code reason detail = value_at (key_of reason) detail

-- `_summary`.
unfoldable pub summary : AgentRun → Result (Summary Json)
unfolding goal proposal and_then outcome_code
summary run = and_then (proposal run) λ proposed. ok (record {
  id = run.id;
  instruction = run.instruction;
  requesting_actor = run.requesting_actor;
  status = run.status;
  outcome_reason = run.outcome_reason;
  outcome_code = outcome_code run.outcome_reason run.outcome_detail;
  goal = goal run;
  decision_proposal = proposed;
  created_at = run.created_at;
  completed_at = run.completed_at;
})

-- `value[key]`.
abbrev pub item_or : Option Json → Result Json
item_or none = raise (other "KeyError")
item_or (some value) = ok value

unfoldable pub item : Json → String → Result Json
item (obj fields) key = item_or (get key fields)
item _ key = raise (other "TypeError")

module _ (v : Validators) where
  abbrev pub validated_code : Option Json → Result (Option String)
  validated_code none = ok none
  validated_code (some value) = and_then (v.string value) (λ code. ok (some code))

  -- What the constructor makes of the dictionary.
  unfoldable pub validated : Summary Json → Result AgentRunRead
  unfolding and_then
  validated s = and_then (validated_code s.outcome_code) λ code. ok (record {
    id = s.id;
    instruction = s.instruction;
    requesting_actor = s.requesting_actor;
    status = s.status;
    outcome_reason = s.outcome_reason;
    outcome_code = code;
    goal = s.goal;
    decision_proposal = s.decision_proposal;
    created_at = s.created_at;
    completed_at = s.completed_at;
  })

  -- `AgentRunRead.of`.
  unfoldable pub read_of : AgentRun → Result AgentRunRead
  unfolding validated summary and_then
  read_of run = and_then (summary run) validated

  abbrev pub rejection_code : Option Json → Result (Option Json)
  rejection_code none = ok none
  rejection_code (some rejection) =
      and_then (item rejection "error") λ error. and_then (item error "code") λ code. ok (some code)

  abbrev pub read_block_check : Option Json → Result (Option BlockCheckRead)
  read_block_check none = ok none
  read_block_check (some check) = and_then (item check "reason") λ reason.
      and_then (item check "confirmed") λ confirmed. and_then (v.claim reason) λ claim.
        and_then (v.boolean confirmed)
          λ held. ok (some (record { reason = claim; confirmed = held }))

  abbrev pub blocking : Option Json → Result (Option BlockingReason)
  blocking none = ok none
  blocking (some code) = and_then (v.blocking_reason code) (λ reason. ok (some reason))

  -- The detail of a run whose goal was verified.
  unfoldable pub read_verified : Bool → Fields → Result (Option VerificationRead)
  unfolding item and_then
  read_verified satisfied detail =
      and_then (rejection_code (not_null (get "rejection" detail))) λ code.
        and_then (read_block_check (not_null (get "block_check" detail))) λ check.
          and_then (blocking code) λ reason. ok (
            some
              (record { satisfied = satisfied; blocking_rejection = reason; block_check = check }))

  abbrev pub if_verified : Option Json → Fields → Result (Option VerificationRead)
  if_verified (some (bool satisfied)) detail = read_verified satisfied detail
  if_verified _ detail = ok none

  -- `_verification`.
  unfoldable pub verification : Option Fields → Result (Option VerificationRead)
  unfolding read_verified
  verification none = ok none
  verification (some detail) = if_verified (get "satisfied" detail) detail

  -- `AgentRunDetail.of`.
  unfoldable pub detail_of : AgentRun → List TraceEntry → Result AgentRunDetail
  unfolding summary verification trace_of validated and_then
  detail_of run trace = and_then (summary run) λ dictionary.
      and_then (verification run.outcome_detail) λ verified. and_then (trace_of v trace) λ entries.
        and_then (validated dictionary) λ read. ok (record {
          summary = read;
          decision_context = run.decision_context;
          verification = verified;
          trace = entries;
        })
