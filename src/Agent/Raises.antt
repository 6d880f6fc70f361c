-- ===== src/Agent/Raises.antt =====
-- src/app/agent/executor.py, the exceptions that escape from a run that exists.
use saas_agent_lab.Common.{
  ℕ, ◌≡◌, refl, String, Bool, true, false, Option, none, some, List, [], ◌∷◌,
}
use saas_agent_lab.Text.{Text, Unicode}
use saas_agent_lab.Errors.{
  Exc, invalid_input, request_validation_error, decision_stopped, planner_error,
}
use saas_agent_lab.Json.{Fields}
use saas_agent_lab.Models.{AgentRun}
use saas_agent_lab.Models.Enums.{AgentRunStatus, OutcomeReason, CannotProceedReason}
use saas_agent_lab.Repositories.AgentRuns
use saas_agent_lab.Repositories.ToolCalls
use saas_agent_lab.Schemas.Agent.{
  EnsureAssignmentIntent, ExtractedIntent, DecisionContext, DecisionProposal, cannot_proceed,
}
use saas_agent_lab.Agent.Planner.{IntentPlan, DecisionPlan, ungrounded_fields}
use saas_agent_lab.Agent.Resolver.{Resolution, goal, failure}
use saas_agent_lab.Agent.Tools.Rules.{blocks_by_claim}
use saas_agent_lab.Agent.Decision.{decision_outcome, by_claim}
use saas_agent_lab.Agent.Executor.Runs.{
  get_run, current_status, end_run, fail, persisted_goal, require_awaiting_extraction,
}
use saas_agent_lab.Agent.Executor.Extraction.{
  Extraction, intent, failed, record_goal, record_extraction, finish_extraction, after_intent_plan,
  extract_intent,
}
use saas_agent_lab.Agent.Executor.Resolution.{record_resolution, after_resolver, resolve_run}
use saas_agent_lab.Agent.Executor.Decide.{
  start_decision, record_proposal, Concluded, Verified, end_verified, after_verification,
  finish_decision, end_if_executing, end_decision, after_decision_plan, decide,
}
use saas_agent_lab.Agent.Executor.Lifecycle.{decide_if, resolve_and_decide}
use saas_agent_lab.Session.{Result, ok, raise}
use saas_agent_lab.Session.Raises.{Allows, RaisesOnly, raises_rules}

abbrev pub is_invalid_input : Exc → Bool
is_invalid_input (invalid_input _) = true
is_invalid_input request_validation_error = true
is_invalid_input _ = false

-- No rule about input was broken.
abbrev pub NotInput : Exc → Type 0
NotInput e = is_invalid_input e ≡ false

ruleset rules = (raises_rules, refl)

get_run-NotInput : (id : ℕ) → RaisesOnly NotInput (get_run id)
unfolding get_run AgentRuns.get
get_run-NotInput id = search rules depth 8

current_status-NotInput : (id : ℕ) → RaisesOnly NotInput (current_status id)
unfolding current_status
current_status-NotInput id = search (rules, get_run-NotInput) depth 8

set_columns-NotInput :
    (id : ℕ) (f : AgentRun → AgentRun) → RaisesOnly NotInput (AgentRuns.set_columns id f)
unfolding AgentRuns.set_columns
set_columns-NotInput id f = search rules

end_run-NotInput :
    (run : AgentRun) (s : AgentRunStatus) (reason : OutcomeReason) (d : Option Fields)
    → RaisesOnly NotInput (end_run run s reason d)
unfolding end_run
end_run-NotInput run s reason d = search (rules, set_columns-NotInput) depth 8

persisted_goal-NotInput : (run : AgentRun) → RaisesOnly NotInput (persisted_goal run)
unfolding persisted_goal
persisted_goal-NotInput run = search rules

require-NotInput : (run : AgentRun) → RaisesOnly NotInput (require_awaiting_extraction run)
unfolding require_awaiting_extraction
require-NotInput run = search rules

ruleset steps = (
  rules, get_run-NotInput, current_status-NotInput, set_columns-NotInput, end_run-NotInput,
  persisted_goal-NotInput, require-NotInput,
)

fail-NotInput : (id : ℕ) (d : Fields) → RaisesOnly NotInput (fail id d)
unfolding fail
fail-NotInput id d = search steps depth 10

record_goal-NotInput :
    (r : AgentRun) (asked : EnsureAssignmentIntent) (missing : List String)
    → RaisesOnly NotInput (record_goal r asked missing)
unfolding record_goal
record_goal-NotInput r asked [] = search steps
record_goal-NotInput r asked (n ∷ names) = search steps

record_extraction-NotInput :
    (u : Unicode) (r : AgentRun) (i : Text) (e : Extraction)
    → RaisesOnly NotInput (record_extraction u r i e)
unfolding record_extraction
record_extraction-NotInput u r i (intent (ExtractedIntent.ensure_assignment asked)) =
    record_goal-NotInput r asked (ungrounded_fields u asked i)
record_extraction-NotInput u r i (intent (ExtractedIntent.needs_clarification code)) = search steps
record_extraction-NotInput u r i (intent (ExtractedIntent.unsupported code)) = search steps
record_extraction-NotInput u r i (failed code error_type) = search steps

finish_extraction-NotInput :
    (u : Unicode) (id : ℕ) (i : Text) (e : Extraction)
    → RaisesOnly NotInput (finish_extraction u id i e)
unfolding finish_extraction
finish_extraction-NotInput u id i e = search (steps, record_extraction-NotInput) depth 12

after_intent_plan-NotInput :
    (u : Unicode) (id : ℕ) (i : Text) (r : Result ExtractedIntent)
    → RaisesOnly NotInput (after_intent_plan u id i r)
unfolding after_intent_plan
after_intent_plan-NotInput u id i (ok asked) = finish_extraction-NotInput u id i _
after_intent_plan-NotInput u id i (raise (planner_error code error_type)) =
    finish_extraction-NotInput u id i _
after_intent_plan-NotInput u id i (raise _) = fail-NotInput id _

pub extract_intent-NotInput :
    (u : Unicode) (id : ℕ) (planner : Text → IntentPlan)
    → RaisesOnly NotInput (extract_intent u id planner)
unfolding extract_intent
extract_intent-NotInput u id planner = search (steps, after_intent_plan-NotInput) depth 12

record_resolution-NotInput :
    (r : AgentRun) (x : Resolution) → RaisesOnly NotInput (record_resolution r x)
unfolding record_resolution
record_resolution-NotInput r (failure f) = search steps
record_resolution-NotInput r (goal g) = search steps

after_resolver-NotInput :
    (id : ℕ) (r : Result Resolution) → RaisesOnly NotInput (after_resolver id r)
unfolding after_resolver
after_resolver-NotInput id (raise e) = fail-NotInput id _
after_resolver-NotInput id (ok x) = search (steps, record_resolution-NotInput) depth 10

resolve_run-NotInput : (u : Unicode) (id : ℕ) → RaisesOnly NotInput (resolve_run u id)
unfolding resolve_run
resolve_run-NotInput u id = search (steps, after_resolver-NotInput) depth 14

start_decision-NotInput : (id : ℕ) → RaisesOnly NotInput (start_decision id)
unfolding start_decision
start_decision-NotInput id = search steps depth 14

end_if_executing-NotInput :
    (r : AgentRun) (reason : OutcomeReason) (d : Fields)
    → RaisesOnly NotInput (end_if_executing r reason d)
unfolding end_if_executing
end_if_executing-NotInput r reason d = search steps depth 8

end_decision-NotInput :
    (id : ℕ) (reason : OutcomeReason) (d : Fields) → RaisesOnly NotInput (end_decision id reason d)
unfolding end_decision
end_decision-NotInput id reason d = search (steps, end_if_executing-NotInput) depth 10

record_proposal-NotInput :
    (id : ℕ) (p : DecisionProposal) → RaisesOnly NotInput (record_proposal id p)
unfolding record_proposal ToolCalls.any_started ToolCalls.any_succeeded ToolCalls.latest_for_tools
record_proposal-NotInput id p = search steps depth 20

by_claim-NotInput :
    (p : DecisionProposal) (confirmed : Bool) → Allows NotInput (by_claim p confirmed)
unfolding blocks_by_claim
by_claim-NotInput (cannot_proceed CannotProceedReason.no_seats_available) true = tt
by_claim-NotInput (cannot_proceed CannotProceedReason.user_inactive) true = tt
by_claim-NotInput _ _ = tt

outcome-NotInput :
    (p : DecisionProposal) (satisfied changed : Bool) (rejection : Option OutcomeReason)
    (confirmed : Bool)
    → Allows NotInput (decision_outcome p satisfied changed rejection confirmed)
unfolding decision_outcome
outcome-NotInput p true changed rejection confirmed = tt
outcome-NotInput p false changed (some reason) confirmed = tt
outcome-NotInput p false changed none confirmed = by_claim-NotInput p confirmed

end_verified-NotInput :
    (id : ℕ) (p : DecisionProposal) (c : Concluded) (v : Verified)
    → RaisesOnly NotInput (end_verified id p c v)
unfolding end_verified
end_verified-NotInput id p c (result, checked) = search (steps, outcome-NotInput) depth 14

after_verification-NotInput :
    (id : ℕ) (p : DecisionProposal) (c : Concluded) (r : Result Verified)
    → RaisesOnly NotInput (after_verification id p c r)
unfolding after_verification
after_verification-NotInput id p c (ok v) = end_verified-NotInput id p c v
after_verification-NotInput id p c (raise e) = fail-NotInput id _

finish_decision-NotInput :
    (id : ℕ) (p : DecisionProposal) → RaisesOnly NotInput (finish_decision id p)
unfolding finish_decision
finish_decision-NotInput id p =
    search (steps, record_proposal-NotInput, after_verification-NotInput) depth 10

after_decision_plan-NotInput :
    (id : ℕ) (r : Result DecisionProposal) → RaisesOnly NotInput (after_decision_plan id r)
unfolding after_decision_plan
after_decision_plan-NotInput id (ok x) = finish_decision-NotInput id x
after_decision_plan-NotInput id (raise (decision_stopped _)) = current_status-NotInput id
after_decision_plan-NotInput id (raise (planner_error code error_type)) =
    end_decision-NotInput id OutcomeReason.planner_error _
after_decision_plan-NotInput id (raise _) =
    end_decision-NotInput id OutcomeReason.unexpected_error _

decide-NotInput :
    (u : Unicode) (id : ℕ) (planner : DecisionContext → DecisionPlan)
    → RaisesOnly NotInput (decide u id planner)
unfolding decide
decide-NotInput u id planner =
    search (steps, start_decision-NotInput, after_decision_plan-NotInput) depth 12

pub resolve_and_decide-NotInput :
    (u : Unicode) (id : ℕ) (planner : DecisionContext → DecisionPlan)
    → RaisesOnly NotInput (resolve_and_decide u id planner)
unfolding resolve_and_decide decide_if
resolve_and_decide-NotInput u id planner =
    search (steps, resolve_run-NotInput, decide-NotInput) depth 12
