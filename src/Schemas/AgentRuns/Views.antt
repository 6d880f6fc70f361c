-- ===== src/Schemas/AgentRuns/Views.antt =====
-- src/app/schemas/agent_runs.py: what is shown of runs as the executor stores them.
use saas_agent_lab.Common.{◌≡◌, refl, true, Option, none, some, List, [], ◌∷◌, All}
use saas_agent_lab.Json.{Fields}
use saas_agent_lab.Models.{AgentRun, ToolCall}
use saas_agent_lab.Models.Checks.{decision_reason_matches_proposal}
use saas_agent_lab.Models.Enums.{DecisionProposalKind, CannotProceedReason}
use saas_agent_lab.Repositories.AgentRuns.{TraceEntry, model_call, tool_call}
use saas_agent_lab.Schemas.Agent.{
  TargetToolName, get_target_user, get_target_licence_capacity, list_target_user_assignments,
  assign_target_licence,
}
use saas_agent_lab.Schemas.AgentRuns.{
  proposal, proposal_columns, summary, validated, read_of, detail_of,
}
use saas_agent_lab.Schemas.AgentRuns.Validation.{
  ModelCallOutput, Validators, dump_output, is_valid_output,
}
use saas_agent_lab.Schemas.AgentRuns.Trace.{
  tool_by_recorded_name, model_call_of, read_output, tool_call_of, entry_of, trace_of,
}
use saas_agent_lab.Schemas.AgentRuns.Recorded.{Recorded, code-Recorded, verification-Recorded}
use saas_agent_lab.Agent.Tools.{recorded_name}
use saas_agent_lab.Session.{Result, ok, raise, and_then}

-- A run, and an entry of its trace, as they are stored.
abbrev pub IsRecorded : AgentRun → Type 0
IsRecorded run = Recorded run.outcome_reason run.outcome_detail

abbrev pub IsDump : Option Fields → Type 0
IsDump none = Unit
IsDump (some fields) =
    (output : ModelCallOutput) × (is_valid_output output ≡ true) × (fields ≡ dump_output output)

abbrev pub IsNamed : ToolCall → Type 0
IsNamed call = (tool : TargetToolName) × (call.tool_name ≡ recorded_name tool)

abbrev pub IsReadable : TraceEntry → Type 0
IsReadable (model_call call) = IsDump call.output
IsReadable (tool_call call) = IsNamed call

-- `_TOOL_BY_RECORDED_NAME` is the inverse of `RECORDED_NAMES`.
pub tool_by-recorded_name :
    (tool : TargetToolName) → tool_by_recorded_name (recorded_name tool) ≡ ok tool
unfolding tool_by_recorded_name
tool_by-recorded_name get_target_user = refl
tool_by-recorded_name get_target_licence_capacity = refl
tool_by-recorded_name list_target_user_assignments = refl
tool_by-recorded_name assign_target_licence = refl

abbrev pub Succeeds : {A : Type 0} → Result A → Type 0
Succeeds {A} r = (a : A) × (r ≡ ok a)

module _ {A : Type 0} where
  Succeeds-ok : (a : A) → Succeeds (ok a)
  Succeeds-ok a = (a, refl)

  Succeeds-and_then :
      {B : Type 0}
      → (r : Result A) (f : A → Result B) → Succeeds r
      → ((a : A) → Succeeds (f a))
      → Succeeds (and_then r f)
  unfolding and_then
  Succeeds-and_then (ok a) f h k = k a
  Succeeds-and_then (raise e) f (a, h) k = absurd (cc)

ruleset successes = (Succeeds-ok, Succeeds-and_then)

proposal-Succeeds :
    (kind : Option DecisionProposalKind) (reason : Option CannotProceedReason)
    → decision_reason_matches_proposal kind reason ≡ true
    → Succeeds (proposal_columns kind reason)
proposal-Succeeds none reason h = (_, refl)
proposal-Succeeds (some DecisionProposalKind.goal_reached) reason h = (_, refl)
proposal-Succeeds (some DecisionProposalKind.no_action_needed) reason h = (_, refl)
proposal-Succeeds (some DecisionProposalKind.cannot_proceed) none h = absurd (cc)
proposal-Succeeds (some DecisionProposalKind.cannot_proceed) (some reason) h = (_, refl)

module _ (v : Validators) where
  output-Succeeds : (output : Option Fields) → IsDump output → Succeeds (read_output v output)
  output-Succeeds none h = (none, refl)
  output-Succeeds (some fields) (output, valid, dumped) =
      rw dumped
        (rw (v.output_dump output valid) (Succeeds-and_then _ _ (output, refl) λ o. (_, refl)))

  tool-Succeeds : (call : ToolCall) → IsNamed call → Succeeds (tool_by_recorded_name call.tool_name)
  tool-Succeeds call (tool, named) = (tool, rw named (tool_by-recorded_name tool))

  entry-Succeeds : (entry : TraceEntry) → IsReadable entry → Succeeds (entry_of v entry)
  unfolding entry_of model_call_of tool_call_of
  entry-Succeeds (model_call call) h = search (successes, output-Succeeds) depth 8
  entry-Succeeds (tool_call call) h = search (successes, tool-Succeeds) depth 8

  trace-Succeeds : (trace : List TraceEntry) → All IsReadable trace → Succeeds (trace_of v trace)
  unfolding trace_of
  trace-Succeeds [] h = ([], refl)
  trace-Succeeds (entry ∷ entries) (first, rest) =
      let there = trace-Succeeds entries rest in search (successes, entry-Succeeds, there) depth 8

  module _ (run : AgentRun) (recorded : IsRecorded run)
      (reasoned : decision_reason_matches_proposal run.decision_proposal run.decision_reason_code
        ≡ true) where
    pub read_of-Succeeds : Succeeds (read_of v run)
    unfolding read_of summary proposal validated and_then
    read_of-Succeeds =
        let (proposed, p) =
          proposal-Succeeds run.decision_proposal run.decision_reason_code reasoned in
        let (code, c) = code-Recorded v run.outcome_reason run.outcome_detail recorded in
        rw p (rw c (_, refl))

    pub detail_of-Succeeds :
        (trace : List TraceEntry) → All IsReadable trace → Succeeds (detail_of v run trace)
    unfolding detail_of summary proposal validated and_then
    detail_of-Succeeds trace readable =
        let (proposed, p) =
          proposal-Succeeds run.decision_proposal run.decision_reason_code reasoned in
        let (code, c) = code-Recorded v run.outcome_reason run.outcome_detail recorded in
        let (checked, k) = verification-Recorded v run.outcome_reason run.outcome_detail recorded in
        let (entries, e) = trace-Succeeds trace readable in rw p (rw k (rw e (rw c (_, refl))))
