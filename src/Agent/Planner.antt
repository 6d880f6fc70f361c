-- ===== src/Agent/Planner.antt =====
-- src/app/agent/planner.py: the planner boundary. A planner is code that this application calls and that
-- calls back; what it may do is its type. `Result` is what a callback gives it: a value, or an
-- exception, which a planner may also ignore. Between two calls other clients may be served.
use saas_agent_lab.Common.{String, Bool, ◌||◌, not, List, [], ◌∷◌, ◌++◌, if◌then◌else◌}
use saas_agent_lab.Text.{Text, Unicode, is_empty, strip, casefold, is_substring}
use saas_agent_lab.Errors.{Exc}
use saas_agent_lab.Api.Requests.{Request}
use saas_agent_lab.Schemas.Agent.{
  EnsureAssignmentIntent, ExtractedIntent, ModelCallRecord, TargetToolName, DecisionProposal,
}
use saas_agent_lab.Session.{Result, ⊤}

-- What an intent planner does from here on: `calls.record`, and how `plan` ends.
pub data IntentPlan : Type 0 where
  extracts : ExtractedIntent → IntentPlan
  fails : Exc → IntentPlan
  records : ModelCallRecord → (Result ⊤ → IntentPlan) → IntentPlan
  meanwhile : Request → IntentPlan → IntentPlan

-- What a decision planner does from here on: `call_tool`, `calls.before_request`, `calls.record`,
-- and how `decide` ends.
pub data DecisionPlan : Type 0 where
  concludes : DecisionProposal → DecisionPlan
  fails : Exc → DecisionPlan
  calls_tool : TargetToolName → (Result Text → DecisionPlan) → DecisionPlan
  requests : (Result ⊤ → DecisionPlan) → DecisionPlan
  records : ModelCallRecord → (Result ⊤ → DecisionPlan) → DecisionPlan
  meanwhile : Request → DecisionPlan → DecisionPlan

-- Blank, or not written in the instruction, ignoring case and surrounding space.
abbrev pub is_ungrounded : Unicode → Text → Text → Bool
is_ungrounded u value instruction =
    is_empty (strip value) || not (is_substring (casefold u (strip value)) (casefold u instruction))

unfoldable pub ungrounded_fields : Unicode → EnsureAssignmentIntent → Text → List String
ungrounded_fields u intent instruction =
    (if is_ungrounded u intent.user_email instruction then "user_email" ∷ [] else [])
    ++ (if is_ungrounded u intent.product instruction then "product" ∷ [] else [])
