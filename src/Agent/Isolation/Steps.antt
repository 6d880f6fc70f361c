-- ===== src/Agent/Isolation/Steps.antt =====
-- src/app/agent/executor.py, the other log transactions against the tables of the application.
use saas_agent_lab.Common.{ℕ, String, List, [], ◌∷◌}
use saas_agent_lab.Text.{Text, Unicode}
use saas_agent_lab.Json.{Fields}
use saas_agent_lab.Models.{AgentRun}
use saas_agent_lab.Models.Enums.{AgentRunStatus, OutcomeReason}
use saas_agent_lab.Repositories.AgentRuns
use saas_agent_lab.Repositories.ModelCalls
use saas_agent_lab.Repositories.ToolCalls
use saas_agent_lab.Schemas.Agent.{EnsureAssignmentIntent, ExtractedIntent, DecisionProposal}
use saas_agent_lab.Agent.Resolver.{Resolution, goal, failure}
use saas_agent_lab.Agent.Planner.{ungrounded_fields}
use saas_agent_lab.Agent.Executor.Runs.{fail}
use saas_agent_lab.Agent.Executor.Extraction.{
  Extraction, intent, failed, record_goal, record_extraction, finish_extraction, receive_run,
}
use saas_agent_lab.Agent.Executor.Resolution.{record_resolution, after_resolver, resolve_run}
use saas_agent_lab.Agent.Executor.Admission.{end_at_limit}
use saas_agent_lab.Agent.Executor.Decide.{
  check_request_limit, before_request, end_if_executing, end_decision, start_decision,
  record_proposal, Concluded, Verified, end_verified, after_verification, finish_decision,
}
use saas_agent_lab.Agent.Reads.{
  require_awaiting-Respects, resolve-Respects, verify_proposal-Respects,
}
use saas_agent_lab.Agent.Isolation.{writes}
use saas_agent_lab.Session.{Result, ok, raise}
use saas_agent_lab.Session.Respects.{Respects}
use saas_agent_lab.Session.Isolation.{SameBusiness}

pub fail-SameBusiness : (id : ℕ) (d : Fields) → Respects SameBusiness (fail id d)
unfolding fail
fail-SameBusiness id d = search writes depth 10

add_run-SameBusiness :
    (i a : Text) (s : AgentRunStatus) → Respects SameBusiness (AgentRuns.add i a s)
unfolding AgentRuns.add
add_run-SameBusiness i a s = search writes depth 12

pub receive_run-SameBusiness :
    (u : Unicode) (i a : Text) → Respects SameBusiness (receive_run u i a)
unfolding receive_run
receive_run-SameBusiness u i a = search (writes, add_run-SameBusiness) depth 10

record_goal-SameBusiness :
    (r : AgentRun) (asked : EnsureAssignmentIntent) (missing : List String)
    → Respects SameBusiness (record_goal r asked missing)
unfolding record_goal
record_goal-SameBusiness r asked [] = search writes
record_goal-SameBusiness r asked (n ∷ names) = search writes

record_extraction-SameBusiness :
    (u : Unicode) (r : AgentRun) (i : Text) (e : Extraction)
    → Respects SameBusiness (record_extraction u r i e)
unfolding record_extraction
record_extraction-SameBusiness u r i (intent (ExtractedIntent.ensure_assignment asked)) =
    record_goal-SameBusiness r asked (ungrounded_fields u asked i)
record_extraction-SameBusiness u r i (intent (ExtractedIntent.needs_clarification code)) =
    search writes
record_extraction-SameBusiness u r i (intent (ExtractedIntent.unsupported code)) = search writes
record_extraction-SameBusiness u r i (failed code error_type) = search writes

pub finish_extraction-SameBusiness :
    (u : Unicode) (id : ℕ) (i : Text) (e : Extraction)
    → Respects SameBusiness (finish_extraction u id i e)
unfolding finish_extraction
finish_extraction-SameBusiness u id i e =
    search (writes, require_awaiting-Respects, record_extraction-SameBusiness) depth 12

record_resolution-SameBusiness :
    (r : AgentRun) (x : Resolution) → Respects SameBusiness (record_resolution r x)
unfolding record_resolution
record_resolution-SameBusiness r (failure f) = search writes
record_resolution-SameBusiness r (goal g) = search writes

after_resolver-SameBusiness :
    (id : ℕ) (r : Result Resolution) → Respects SameBusiness (after_resolver id r)
unfolding after_resolver
after_resolver-SameBusiness id (raise e) = fail-SameBusiness id _
after_resolver-SameBusiness id (ok x) = search (writes, record_resolution-SameBusiness) depth 10

pub resolve_run-SameBusiness : (u : Unicode) (id : ℕ) → Respects SameBusiness (resolve_run u id)
unfolding resolve_run
resolve_run-SameBusiness u id =
    search (writes, resolve-Respects, after_resolver-SameBusiness) depth 14

check_request_limit-SameBusiness :
    (id made : ℕ) → Respects SameBusiness (check_request_limit id made)
unfolding check_request_limit end_at_limit
check_request_limit-SameBusiness id made = search writes depth 10

pub before_request-SameBusiness : (id : ℕ) → Respects SameBusiness (before_request id)
unfolding before_request ModelCalls.count_for_stage
before_request-SameBusiness id = search (writes, check_request_limit-SameBusiness) depth 10

end_if_executing-SameBusiness :
    (r : AgentRun) (reason : OutcomeReason) (d : Fields)
    → Respects SameBusiness (end_if_executing r reason d)
unfolding end_if_executing
end_if_executing-SameBusiness r reason d = search writes depth 8

pub end_decision-SameBusiness :
    (id : ℕ) (reason : OutcomeReason) (d : Fields)
    → Respects SameBusiness (end_decision id reason d)
unfolding end_decision
end_decision-SameBusiness id reason d = search (writes, end_if_executing-SameBusiness) depth 10

pub start_decision-SameBusiness : (id : ℕ) → Respects SameBusiness (start_decision id)
unfolding start_decision
start_decision-SameBusiness id = search writes depth 14

record_proposal-SameBusiness :
    (id : ℕ) (p : DecisionProposal) → Respects SameBusiness (record_proposal id p)
unfolding record_proposal ToolCalls.any_started ToolCalls.any_succeeded ToolCalls.latest_for_tools
record_proposal-SameBusiness id p = search writes depth 20

end_verified-SameBusiness :
    (id : ℕ) (p : DecisionProposal) (c : Concluded) (v : Verified)
    → Respects SameBusiness (end_verified id p c v)
unfolding end_verified
end_verified-SameBusiness id p c (result, checked) = search writes depth 14

after_verification-SameBusiness :
    (id : ℕ) (p : DecisionProposal) (c : Concluded) (r : Result Verified)
    → Respects SameBusiness (after_verification id p c r)
unfolding after_verification
after_verification-SameBusiness id p c (ok v) = end_verified-SameBusiness id p c v
after_verification-SameBusiness id p c (raise e) = fail-SameBusiness id _

pub finish_decision-SameBusiness :
    (id : ℕ) (p : DecisionProposal) → Respects SameBusiness (finish_decision id p)
unfolding finish_decision
finish_decision-SameBusiness id p =
    search
      (
        writes, record_proposal-SameBusiness, verify_proposal-Respects,
        after_verification-SameBusiness,
      )
      depth 10
