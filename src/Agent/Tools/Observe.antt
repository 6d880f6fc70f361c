-- ===== src/Agent/Tools/Observe.antt =====
-- src/app/agent/tools.py: what the model is shown of a call's outcome, and its exact text.
use saas_agent_lab.Common.{
  ℕ, String, Bool, true, false, ◌&&◌, Option, none, some, [], ◌∷◌, ◌==◌, any, if◌then◌else◌,
}
use saas_agent_lab.Text.{Text, codes}
use saas_agent_lab.Json.Dumps.{Object, null, bool, num, text, dumps}
use saas_agent_lab.Models.Enums.{status_value}
use saas_agent_lab.Schemas.Agent.{
  TargetToolName, ResolvedAssignmentGoal, ToolOutput, ToolError, ModelObservation, target_user,
  licence_capacity, target_assignments, attempt_assigned, attempt_rejected, AssignmentSnapshot,
  AssignmentRejectionCode, user, licence, user_assignments, assignment,
}
use saas_agent_lab.Agent.Tools.Rules.{DomainRule, rule_by_code}

-- What running a tool came to.
pub data Outcome : Type 0 where
  output : ToolOutput → Outcome
  error : ToolError → Outcome

abbrev pub shown_of : Option DomainRule → Option AssignmentRejectionCode
shown_of none = none
shown_of (some rule) = rule.shown_as

abbrev pub rejection : Option AssignmentRejectionCode → Option ModelObservation
rejection none = none
rejection (some code) = some (attempt_rejected code)

abbrev pub is_seat_of : ℕ → AssignmentSnapshot → Bool
is_seat_of licence_id a = a.active && (a.licence_id == licence_id)

abbrev pub observe_output : ResolvedAssignmentGoal → ToolOutput → ModelObservation
observe_output goal (user u) = target_user u.status
observe_output goal (licence l) = licence_capacity l.seats_total l.seats_active l.seats_available
observe_output goal (user_assignments s) =
    target_assignments (any (is_seat_of goal.licence_id) s.assignments)
observe_output goal (assignment a) = attempt_assigned

-- `tool == MUTATION`, beside the other parts of the condition.
abbrev shows_rejections : TargetToolName → Bool
shows_rejections TargetToolName.assign_target_licence = true
shows_rejections _ = false

unfoldable pub observe : TargetToolName → ResolvedAssignmentGoal → Outcome → Option ModelObservation
unfolding rule_by_code
observe tool goal (error e) =
    if shows_rejections tool then rejection (shown_of (rule_by_code e.code)) else none
observe tool goal (output o) = some (observe_output goal o)

abbrev pub rejection_value : AssignmentRejectionCode → String
rejection_value AssignmentRejectionCode.no_seats_available = "no_seats_available"
rejection_value AssignmentRejectionCode.user_inactive = "user_inactive"
rejection_value AssignmentRejectionCode.already_assigned = "already_assigned"

-- `observation.model_dump(mode="json")`: the fields in the order of their declaration.
unfoldable pub model_dump : ModelObservation → Object
model_dump (target_user status) = ("status", text (codes (status_value status))) ∷ []
model_dump (licence_capacity total active available) =
    ("seats_total", num total)
    ∷ ("seats_active", num active)
    ∷ ("seats_available", num available)
    ∷ []
model_dump (target_assignments holds) = ("holds_active_seat", bool holds) ∷ []
model_dump attempt_assigned = ("outcome", text (codes "assigned")) ∷ ("reason_code", null) ∷ []
model_dump (attempt_rejected code) =
    ("outcome", text (codes "rejected")) ∷ ("reason_code", text (codes (rejection_value code))) ∷ []

unfoldable pub serialize : ModelObservation → Text
unfolding model_dump dumps
serialize observation = dumps (codes ",") (codes ":") (model_dump observation)
