-- ===== src/Agent/Shown/Endings.antt =====
-- src/app/agent/executor.py, the other transactions of a run and what src/app/schemas/agent_runs.py can show
-- of what they write.
use saas_agent_lab.Common.{ℕ, refl, Option, some, String, List, [], ◌∷◌}
use saas_agent_lab.Text.{Text, Unicode}
use saas_agent_lab.Errors.{Exc}
use saas_agent_lab.Json.{Fields, get}
use saas_agent_lab.Models.{AgentRun}
use saas_agent_lab.Models.Enums.{OutcomeReason, ModelCallStage}
use saas_agent_lab.Repositories.ModelCalls
use saas_agent_lab.Schemas.Agent.{
  EnsureAssignmentIntent, ExtractedIntent, clarification_code, unsupported_code,
}
use saas_agent_lab.Schemas.AgentRuns.Recorded.{Recorded, plain, coded}
use saas_agent_lab.Agent.Planner.{ungrounded_fields}
use saas_agent_lab.Agent.Executor.Runs.{fail, unexpected_detail}
use saas_agent_lab.Agent.Executor.Extraction.{
  Extraction, intent, failed, planner_detail, record_goal, record_extraction, finish_extraction,
  receive_run,
}
use saas_agent_lab.Agent.Executor.Decide.{
  check_request_limit, before_request, end_if_executing, end_decision, start_decision,
}
use saas_agent_lab.Agent.Reads.{require_awaiting-Respects}
use saas_agent_lab.Agent.Shown.{
  StaysShown, writes, end_at_limit-Shown, end_run-Shown, add_run-Shown,
}
use saas_agent_lab.Session.Respects.{Respects}

unexpected-Recorded :
    (stage : String) (e : Exc)
    → Recorded (some OutcomeReason.unexpected_error) (some (unexpected_detail stage e))
unfolding get
unexpected-Recorded stage e = plain _ refl refl

pub planner-Recorded :
    (stage : ModelCallStage) (code : String) (error_type : Option String)
    → Recorded (some OutcomeReason.planner_error) (some (planner_detail stage code error_type))
unfolding get
planner-Recorded stage code error_type = coded _ "code" code refl refl refl

pub fail-Shown :
    (id : ℕ) (stage : String) (e : Exc) → Respects StaysShown (fail id (unexpected_detail stage e))
unfolding fail
fail-Shown id stage e = search (writes, unexpected-Recorded) depth 12

pub receive_run-Shown : (u : Unicode) (i a : Text) → Respects StaysShown (receive_run u i a)
unfolding receive_run
receive_run-Shown u i a = search (writes, add_run-Shown) depth 10

record_goal-Shown :
    (r : AgentRun) (asked : EnsureAssignmentIntent) (missing : List String)
    → Respects StaysShown (record_goal r asked missing)
unfolding record_goal get
record_goal-Shown r asked [] = search writes
record_goal-Shown r asked (n ∷ names) =
    end_run-Shown r _ _ _ (coded _ "code" "ungrounded_output" refl refl refl)

record_extraction-Shown :
    (u : Unicode) (r : AgentRun) (i : Text) (e : Extraction)
    → Respects StaysShown (record_extraction u r i e)
unfolding record_extraction get
record_extraction-Shown u r i (intent (ExtractedIntent.ensure_assignment asked)) =
    record_goal-Shown r asked (ungrounded_fields u asked i)
record_extraction-Shown u r i (intent (ExtractedIntent.needs_clarification code)) =
    end_run-Shown r _ _ _ (coded _ "reason_code" (clarification_code code) refl refl refl)
record_extraction-Shown u r i (intent (ExtractedIntent.unsupported code)) =
    end_run-Shown r _ _ _ (coded _ "reason_code" (unsupported_code code) refl refl refl)
record_extraction-Shown u r i (failed code error_type) =
    end_run-Shown r _ _ _ (planner-Recorded ModelCallStage.extraction code error_type)

pub finish_extraction-Shown :
    (u : Unicode) (id : ℕ) (i : Text) (e : Extraction)
    → Respects StaysShown (finish_extraction u id i e)
unfolding finish_extraction
finish_extraction-Shown u id i e =
    search (writes, require_awaiting-Respects, record_extraction-Shown) depth 12

check_request_limit-Shown : (id made : ℕ) → Respects StaysShown (check_request_limit id made)
unfolding check_request_limit
check_request_limit-Shown id made = search (writes, end_at_limit-Shown) depth 10

pub before_request-Shown : (id : ℕ) → Respects StaysShown (before_request id)
unfolding before_request ModelCalls.count_for_stage
before_request-Shown id = search (writes, check_request_limit-Shown) depth 10

end_if_executing-Shown :
    (r : AgentRun) (reason : OutcomeReason) (d : Fields)
    → Recorded (some reason) (some d)
    → Respects StaysShown (end_if_executing r reason d)
unfolding end_if_executing
end_if_executing-Shown r reason d h = search (writes, h) depth 8

end_decision-Shown :
    (id : ℕ) (reason : OutcomeReason) (d : Fields)
    → Recorded (some reason) (some d)
    → Respects StaysShown (end_decision id reason d)
unfolding end_decision
end_decision-Shown id reason d h = search (writes, end_if_executing-Shown, h) depth 10

pub end_unexpected-Shown :
    (id : ℕ) (e : Exc)
    → Respects StaysShown
        (end_decision id OutcomeReason.unexpected_error (unexpected_detail "decision" e))
end_unexpected-Shown id e = end_decision-Shown id _ _ (unexpected-Recorded "decision" e)

pub end_planner-Shown :
    (id : ℕ) (code : String) (error_type : Option String)
    → Respects StaysShown (
        end_decision id OutcomeReason.planner_error
          (planner_detail ModelCallStage.decision code error_type))
end_planner-Shown id code error_type =
    end_decision-Shown id _ _ (planner-Recorded ModelCallStage.decision code error_type)

pub start_decision-Shown : (id : ℕ) → Respects StaysShown (start_decision id)
unfolding start_decision
start_decision-Shown id = search writes depth 14
