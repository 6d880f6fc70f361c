-- ===== src/Examples/Agents.antt =====
-- The guarantees of the agent layer at concrete states.
use saas_agent_lab.Common.{
  is_some, suc, ◌==◌, ◌&&◌, ◌+◌, arith, List, [], Bool, ℕ, ◌≤◌, ◌≡◌, refl, true, false, some, count,
  find,
}
use saas_agent_lab.Text.{Text, codes}
use saas_agent_lab.Models.Enums.{PolicyDecision, AgentRunStatus, OutcomeReason, CannotProceedReason}
use saas_agent_lab.Repositories.AgentRuns.{run_key}
use saas_agent_lab.Repositories.ToolCalls.{is_call_of}
use saas_agent_lab.Schemas.Agent.{
  ResolvedAssignmentGoal, goal_reached, cannot_proceed, assign_target_licence, get_target_user,
}
use saas_agent_lab.Repositories.AgentRuns.{TraceEntry, model_call, tool_call, list_trace}
use saas_agent_lab.Models.{ModelCall, ToolCall}
use saas_agent_lab.Repositories.AgentRuns.Order.{Ascending, list_trace-Ascending}
use saas_agent_lab.Agent.Tools.Observe.{observe}
use saas_agent_lab.Agent.Tools.Privacy.{Disguise, disguise, disguise_goal, observe-disguise}
use saas_agent_lab.Errors.{Message}
use saas_agent_lab.Examples.Runs.{after}
use saas_agent_lab.Examples.States.{goal_resolved}
use saas_agent_lab.Agent.Resolver.{goal}
use saas_agent_lab.Agent.Resolutions.{Resolves, resolve_assignment_goal-Resolves}
use saas_agent_lab.Agent.Tools
use saas_agent_lab.Agent.Tools.Observe.{error}
use saas_agent_lab.Agent.Decision.{decision_outcome}
use saas_agent_lab.Agent.Decision.Outcomes.{Concludes, decision_outcome-Concludes}
use saas_agent_lab.Agent.Executor.Extraction.{extract_intent}
use saas_agent_lab.Agent.Executor.Resolution.{resolve_run}
use saas_agent_lab.Agent.Executor.Admission.{kind_of, start_call_transaction}
use saas_agent_lab.Agent.Executor.ToolCalls.{call_tool, record_outcome}
use saas_agent_lab.Agent.Executor.Decide.{decide, finish_decision, blocking_rejection}
use saas_agent_lab.Agent.Executor.Lifecycle.{run}
use saas_agent_lab.Agent.History.{Evolved}
use saas_agent_lab.Agent.Admission.{HasPolicy}
use saas_agent_lab.Agent.Completion.{Assigned}
use saas_agent_lab.Agent.Completion.Verified.{Known}
use saas_agent_lab.Agent.Planner.{IntentPlan}
use saas_agent_lab.Agent.Reads.{read_tool-unchanged}
use saas_agent_lab.Agent.Isolation.{log_transactions-SameBusiness}
use saas_agent_lab.Agent.Guarantees.{
  run-Evolved, extract_intent-Evolved, resolve_run-Evolved, decide-Evolved, decide-ended,
  run-IsConsistent, call_tool-Evolved, finish_decision-completed, start_call-limit,
  start_call-policy,
}
use saas_agent_lab.Agent.Tools.Rules.{tool_error}
use saas_agent_lab.Errors.{no_seats_available}
use saas_agent_lab.Services.Assignments.Seats.{IsConsistent}
use saas_agent_lab.Session.{ok}
use saas_agent_lab.Session.Isolation.{SameBusiness}
use saas_agent_lab.Examples.{ascii, world}
use saas_agent_lab.Examples.Runs.{asks_for, assigns, instruction}
use saas_agent_lab.Examples.States.{
  admin, rejected_call, executing, ada_goal, call_admitted, decision_completed, failed_run, busy,
  busy-IsWellFormed, failed_found,
}
use saas_agent_lab.Examples.Witnesses.{office, office-IsConsistent}

abbrev asks : Text → IntentPlan
asks = asks_for (codes "ada@example.com") (codes "GitHub")

run-Evolved_example : Evolved busy.db (run ascii instruction admin asks assigns busy).1.db
run-Evolved_example = run-Evolved ascii busy instruction admin asks assigns busy-IsWellFormed

extract_intent-Evolved_example : Evolved busy.db (extract_intent ascii 4 asks busy).1.db
extract_intent-Evolved_example = extract_intent-Evolved ascii busy 4 asks busy-IsWellFormed

resolve_run-Evolved_example : Evolved busy.db (resolve_run ascii 5 busy).1.db
resolve_run-Evolved_example = resolve_run-Evolved ascii busy 5 busy-IsWellFormed

decide-Evolved_example : Evolved busy.db (decide ascii 3 assigns busy).1.db
decide-Evolved_example = decide-Evolved ascii busy 3 assigns busy-IsWellFormed

decide-ended_example :
    (n : ℕ) × (find run_key 1 (decide ascii 3 assigns busy).1.db.agent_runs
      ≡ some (record failed_run { last_sequence_no = n }))
decide-ended_example =
    decide-ended ascii busy 3 assigns 1 failed_run busy-IsWellFormed failed_found refl

run-IsConsistent_example : IsConsistent (run ascii instruction admin asks assigns office).1.db
run-IsConsistent_example =
    run-IsConsistent ascii office instruction admin asks assigns office-IsConsistent

call_tool-Evolved_example : Evolved busy.db (call_tool 2 assign_target_licence busy).1.db
call_tool-Evolved_example = call_tool-Evolved busy 2 assign_target_licence busy-IsWellFormed

finish_decision-completed_example :
    (goal : ResolvedAssignmentGoal) × Known 1 goal
      (finish_decision 1 goal_reached (executing 2)).1.db
    × Assigned goal (finish_decision 1 goal_reached (executing 2)).1.db.assignments
finish_decision-completed_example =
    finish_decision-completed (executing 2) _ 1 goal_reached decision_completed

start_call-limit_example :
    count
      (is_call_of 1 (kind_of assign_target_licence))
      (start_call_transaction 1 assign_target_licence (executing 1)).1.db.tool_calls
    ≤ 1
start_call-limit_example =
    start_call-limit (executing 1) _ 1 assign_target_licence 1 ada_goal call_admitted

start_call-policy_example :
    HasPolicy ada_goal PolicyDecision.allow
      (start_call_transaction 1 assign_target_licence (executing 1)).1.db
start_call-policy_example =
    start_call-policy (executing 1) _ 1 assign_target_licence 1 ada_goal call_admitted refl

read_tool-unchanged_example : (Tools.run get_target_user ada_goal admin world).1.db ≡ world.db
read_tool-unchanged_example = read_tool-unchanged get_target_user ada_goal admin world refl

log_transactions-SameBusiness_example :
    SameBusiness
      (executing 1).db
      (start_call_transaction 1 assign_target_licence (executing 1)).1.db
    × SameBusiness
        (executing 1).db
        (record_outcome 1 1 assign_target_licence ada_goal
          (error (tool_error (no_seats_available 1) "assign_licence"))
          (executing 1)).1.db
log_transactions-SameBusiness_example =
    log_transactions-SameBusiness (executing 1) 1 1 assign_target_licence ada_goal
      (error (tool_error (no_seats_available 1) "assign_licence"))

decision_outcome-Concludes_example :
    (outcome : AgentRunStatus × OutcomeReason) × (decision_outcome
        (cannot_proceed CannotProceedReason.no_seats_available)
        false
        false
        (blocking_rejection (some rejected_call))
        true
      ≡ ok outcome)
    × Concludes
        (cannot_proceed CannotProceedReason.no_seats_available)
        false
        false
        (is_some (blocking_rejection (some rejected_call)))
        true
        outcome
decision_outcome-Concludes_example =
    decision_outcome-Concludes (cannot_proceed CannotProceedReason.no_seats_available) false false
      (some rejected_call) true

list_trace-Ascending_example :
    (es : List TraceEntry) × (list_trace 1 after ≡ (ok es, after))
    × Ascending es
    × ((p : TraceEntry → Bool)
        → count p es
          ≡ count
              (λ (c : ModelCall). (c.agent_run_id == 1) && p (model_call c))
              after.db.model_calls
            + count
                (λ (c : ToolCall). (c.agent_run_id == 1) && p (tool_call c))
                after.db.tool_calls)
list_trace-Ascending_example = list_trace-Ascending 1 after

-- Ids one higher, and every text blank.
abbrev blank : Disguise
blank = record { row_id = suc; words = λ t. []; time = λ t. 0; message = Message.at_most 0 "" }

blank_distinct : (m n : ℕ) → (suc m == suc n) ≡ (m == n)
blank_distinct m n = ground arith

observe-disguise_example :
    observe assign_target_licence
      (disguise_goal blank ada_goal)
      (disguise blank (error (tool_error (no_seats_available 1) "assign_licence")))
    ≡ observe assign_target_licence ada_goal
        (error (tool_error (no_seats_available 1) "assign_licence"))
observe-disguise_example =
    observe-disguise blank blank_distinct assign_target_licence ada_goal
      (error (tool_error (no_seats_available 1) "assign_licence"))

abbrev written_goal : ResolvedAssignmentGoal
written_goal = record ada_goal {
  extracted_user_email = codes "Ada@example.com";
  extracted_product = codes "github";
}

resolve_assignment_goal-Resolves_example :
    Resolves ascii (codes "Ada@example.com") (codes "github") (goal written_goal) world.db
resolve_assignment_goal-Resolves_example =
    resolve_assignment_goal-Resolves ascii (codes "Ada@example.com") (codes "github") world world
      written_goal goal_resolved
