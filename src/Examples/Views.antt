-- ===== src/Examples/Views.antt =====
-- The guarantees of the agent-run API and of the PydanticAI planners at concrete responses and states.
use saas_agent_lab.Common.{
  inl, inr, count, ◌≤◌, ◌+◌, ◌≡◌, ◌↔◌, ◌⊎◌, refl, arith, String, true, false, none, some, [], ◌∷◌,
  map, length,
}
use saas_agent_lab.Text.{Text, codes}
use saas_agent_lab.Errors.{written, invalid_input, empty, planner_error}
use saas_agent_lab.Json.{Fields, end}
use saas_agent_lab.Models.{AgentRun, ToolCall}
use saas_agent_lab.Errors.{no_seats_available}
use saas_agent_lab.Agent.Tools.Rules.{tool_error}
use saas_agent_lab.Models.Enums.{CannotProceedReason}
use saas_agent_lab.Repositories.AgentRuns.{tool_call}
use saas_agent_lab.Schemas.Agent.{
  VerificationResult, BlockCheck, TargetToolName, ExtractedIntent, DecisionContext,
}
use saas_agent_lab.Schemas.AgentRuns.{AgentRunRead, verification, detail_of}
use saas_agent_lab.Schemas.AgentRuns.Validation.{tool_calls}
use saas_agent_lab.Schemas.AgentRuns.Rejections.{
  shown_rejection, shown_check, verification-recorded,
}
use saas_agent_lab.Schemas.AgentRuns.Privacy.{
  Internals, SameShown, hide_run, hide_entry, detail_of-hides,
}
use saas_agent_lab.Agent.Plans.{IntentRecords, DecisionRecords}
use saas_agent_lab.Agent.Executor.Details.{verified_detail}
use saas_agent_lab.Agent.Executor.Decide.{blocking_rejection, rejection_detail}
use saas_agent_lab.Agent.Executor.Extraction.{extract_intent}
use saas_agent_lab.Agent.Executor.Lifecycle.{run}
use saas_agent_lab.Agent.ModelRequests.{first, as_planner_error, accepted}
use saas_agent_lab.Agent.ModelRequests.Failures.{
  Normalized, IsUnrelated, as_planner_error-Normalized,
}
use saas_agent_lab.Agent.PydanticAi.IntentPlanner.{parse_output, plan}
use saas_agent_lab.Agent.PydanticAi.IntentPlanner.Accepted as Intents
use saas_agent_lab.Agent.PydanticAi.IntentPlanner.Accepted.{IsCopied, parse_output-Accepts}
use saas_agent_lab.Agent.PydanticAi.IntentPlanner.Copied.{Returns, plan-IsCopied}
use saas_agent_lab.Agent.PydanticAi.IntentPlanner.Requests.{extract_intent-calls}
use saas_agent_lab.Agent.PydanticAi.DecisionPlanner.{parse_decision, decide}
use saas_agent_lab.Agent.PydanticAi.DecisionPlanner.Accepted.{Accepts, parse_decision-Accepts}
use saas_agent_lab.Agent.PydanticAi.Records.{IsAcceptable, plan-Records, decide-Records}
use saas_agent_lab.Api.AgentRuns.{Reply, error, create_agent_run}
use saas_agent_lab.Api.AgentRuns.Answered.{Answers}
use saas_agent_lab.Api.AgentRuns.Created.{create_agent_run-refused}
use saas_agent_lab.Api.AgentRuns.Planned.{planned_run-Answers}
use saas_agent_lab.Models.Enums.{ModelCallStage}
use saas_agent_lab.Repositories.ModelCalls.{is_in_stage}
use saas_agent_lab.Agent.Executor.Decide
use saas_agent_lab.Agent.PydanticAi.DecisionPlanner.Requests.{decide-limit}
use saas_agent_lab.Session.{World, Result, ok}
use saas_agent_lab.Examples.{ascii, world}
use saas_agent_lab.Examples.Decoders.{strict}
use saas_agent_lab.Examples.Planners.{
  models, call, copied_call, response, timed_out, loop, loop-IsLoop, loop-IsFaithful,
  reads_and_concludes,
}
use saas_agent_lab.Examples.Runs.{instruction, assigns, asks_for}
use saas_agent_lab.Examples.States.{admin, rejected_call, executing_run, busy}

planned_run-Answers_example :
    Answers strict 1
      (run ascii instruction admin
        (λ i. plan ascii models i (loop 2 i))
        (λ c. decide models (reads_and_concludes c))
        world).1
planned_run-Answers_example =
    planned_run-Answers strict 1 (omega arith) (omega arith) ascii models instruction admin (loop 2)
      reads_and_concludes world tt (record { runs = tt; tool_calls = tt; model_calls = tt })

abbrev blank : Result (Reply AgentRunRead) × World
blank =
    create_agent_run strict ascii admin (codes "  ")
      (asks_for (codes "ada@example.com") (codes "GitHub")) assigns world

blank_answered : blank ≡ (ok (error 422 (invalid_input (empty "Instruction"))), blank.1)
unfolding create_agent_run saas_agent_lab.Session.◌>>=◌ saas_agent_lab.Api.Requests.get_actor
    saas_agent_lab.Text.starts_with saas_agent_lab.Text.casefold saas_agent_lab.Text.strip
    saas_agent_lab.Text.is_space saas_agent_lab.Agent.Executor.Lifecycle.start run
    saas_agent_lab.Agent.Executor.Extraction.receive_run
    saas_agent_lab.Agent.Executor.Extraction.validated_request
blank_answered = refl

create_agent_run-refused_example : blank.1.db ≡ world.db
create_agent_run-refused_example =
    create_agent_run-refused strict blank.1 (invalid_input (empty "Instruction")) ascii admin
      (codes "  ") (asks_for (codes "ada@example.com") (codes "GitHub")) assigns world
      blank_answered

abbrev unmet : VerificationResult
unmet = record {
  satisfied = false;
  evidence = record { user_id = 1; licence_id = 1; active_assignment = none };
}

abbrev checked : BlockCheck
checked = record {
  reason = CannotProceedReason.no_seats_available;
  confirmed = true;
  user = none;
  licence = none;
}

verification-recorded_example :
    verification strict (
      some (
        verified_detail unmet
          (rejection_detail (blocking_rejection (some rejected_call)) (some rejected_call))
          (some checked)))
    ≡ ok (
        some (record {
          satisfied = false;
          blocking_rejection = shown_rejection (blocking_rejection (some rejected_call));
          block_check = shown_check (some checked);
        }))
verification-recorded_example =
    verification-recorded strict unmet (some rejected_call) (some checked)

abbrev others : Internals
others = record {
  user_id = some 7;
  licence_id = none;
  row_id = 9;
  run_id = 4;
  arguments = end;
  result = none;
  message = written "";
  error_type = some "Hidden";
  created_at = 1;
  completed_at = none;
}

-- Another rejection with the same code, as the executor records it.
abbrev other_call : ToolCall
other_call = record rejected_call {
  id = 9;
  error = some (tool_error (no_seats_available 8) "assign_target_licence");
}

abbrev detail_with : ToolCall → Fields
detail_with attempted =
    verified_detail unmet (rejection_detail (blocking_rejection (some attempted)) (some attempted))
      (some checked)

abbrev concluded : AgentRun
concluded = record (executing_run 1) { outcome_detail = some (detail_with rejected_call) }

alike : SameShown (some (detail_with rejected_call)) (some (detail_with other_call))
unfolding tool_error blocking_rejection saas_agent_lab.Agent.Tools.Rules.blocking_reason
    saas_agent_lab.Agent.Executor.Details.call_detail verified_detail saas_agent_lab.Json.get
alike = (refl, refl, refl, refl, inr (_, _, _, _, refl, refl, refl, refl, refl), inl refl)

detail_of-hides_example :
    detail_of strict
      (hide_run others (some (detail_with other_call)) concluded)
      (map (hide_entry others) (tool_call rejected_call ∷ []))
    ≡ detail_of strict concluded (tool_call rejected_call ∷ [])
detail_of-hides_example =
    detail_of-hides others strict concluded (some (detail_with other_call))
      (tool_call rejected_call ∷ []) alike

parse_decision-Accepts_example :
    (parse_decision models
        (response (call "get_target_user" end ∷ call "assign_target_licence" end ∷ []))
      ≡ accepted
          (tool_calls (TargetToolName.get_target_user ∷ TargetToolName.assign_target_licence ∷ [])))
    ↔ Accepts models
        (call "get_target_user" end ∷ call "assign_target_licence" end ∷ [])
        (tool_calls (TargetToolName.get_target_user ∷ TargetToolName.assign_target_licence ∷ []))
parse_decision-Accepts_example =
    parse_decision-Accepts models
      (response (call "get_target_user" end ∷ call "assign_target_licence" end ∷ []))
      (tool_calls (TargetToolName.get_target_user ∷ TargetToolName.assign_target_licence ∷ []))

abbrev request : ExtractedIntent
request =
    ExtractedIntent.ensure_assignment
      (record { user_email = codes "ada@example.com"; product = codes "GitHub" })

parse_output-Accepts_example :
    (parse_output ascii models (response (copied_call ∷ [])) instruction ≡ accepted request)
    ↔ Intents.Accepts ascii models instruction (copied_call ∷ []) request
parse_output-Accepts_example =
    parse_output-Accepts ascii models instruction (response (copied_call ∷ [])) request

plan-IsCopied_example :
    Returns (IsCopied ascii models instruction) (plan ascii models instruction (loop 2 instruction))
plan-IsCopied_example =
    plan-IsCopied models ascii instruction (loop 2 instruction) (loop-IsFaithful 2 instruction)

extract_intent-calls_example :
    length (extract_intent ascii 4 (λ i. plan ascii models i (loop 2 i)) busy).1.db.model_calls
    ≤ 3 + 0
extract_intent-calls_example = extract_intent-calls ascii models (loop 2) (loop-IsLoop 2) 4 busy

plan-Records_example :
    IntentRecords IsAcceptable (plan ascii models instruction (loop 2 instruction))
plan-Records_example = plan-Records models ascii instruction (loop 2 instruction)

abbrev context : DecisionContext
context = record { instructions = "Decide." ∷ []; prompt = codes "{}" }

decide-Records_example : DecisionRecords IsAcceptable (decide models (reads_and_concludes context))
decide-Records_example = decide-Records models (reads_and_concludes context)

as_planner_error-Normalized_example :
    ((code : String) × (as_planner_error timed_out
        ≡ some (planner_error code (some (first timed_out).class_name)))
      × Normalized timed_out code)
    ⊎ ((as_planner_error timed_out ≡ none) × IsUnrelated timed_out)
as_planner_error-Normalized_example = as_planner_error-Normalized timed_out

decide-limit_example :
    count
      (is_in_stage 3 ModelCallStage.decision)
      (Decide.decide ascii 3 (λ c. decide models (reads_and_concludes c)) busy).1.db.model_calls
    ≤ 6
decide-limit_example = decide-limit models ascii 3 reads_and_concludes busy (omega arith)
