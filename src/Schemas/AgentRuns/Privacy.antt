-- ===== src/Schemas/AgentRuns/Privacy.antt =====
-- src/app/schemas/agent_runs.py, what is shown of a run under a change of its internal columns.
use saas_agent_lab.Common.{
  ℕ, String, ◌≡◌, refl, ◌⊎◌, inl, inr, Option, none, some, List, [], ◌∷◌, map,
}
use saas_agent_lab.Errors.{Message}
use saas_agent_lab.Json.{Json, Fields, get, obj}
use saas_agent_lab.Models.{AgentRun}
use saas_agent_lab.Models.Enums.{OutcomeReason}
use saas_agent_lab.Repositories.AgentRuns.{TraceEntry, model_call, tool_call}
use saas_agent_lab.Schemas.Agent.{ToolOutput, ToolError, ModelCallError}
use saas_agent_lab.Schemas.AgentRuns.{
  outcome_code, verification, rejection_code, read_block_check, not_null, item, if_verified,
  read_verified, summary, goal, proposal, detail_of,
}
use saas_agent_lab.Schemas.AgentRuns.Validation.{Validators}
use saas_agent_lab.Schemas.AgentRuns.Trace.{
  model_error_code, tool_error_code, model_call_of, tool_call_of, entry_of, trace_of,
}
use saas_agent_lab.Session.{and_then}

-- Other values of what is internal: row ids, arguments, results, messages, exception types and times.
pub record Internals : Type 0 where
  pub user_id : Option ℕ
  pub licence_id : Option ℕ
  pub row_id : ℕ
  pub run_id : ℕ
  pub arguments : Fields
  pub result : Option ToolOutput
  pub message : Message
  pub error_type : Option String
  pub created_at : ℕ
  pub completed_at : Option ℕ

-- Two rejections with the same code in their error: the rest of a rejected call, its ids, arguments and
-- messages, may be anything.
abbrev pub SameRejection : Option Json → Option Json → Type 0
SameRejection r s =
    (s ≡ r)
    ⊎ ((call : Fields) × (other_call : Fields) × (error : Fields) × (other_error : Fields) × (r
          ≡ some (obj call))
        × (s ≡ some (obj other_call))
        × (get "error" call ≡ some (obj error))
        × (get "error" other_call ≡ some (obj other_error))
        × (get "code" other_error ≡ get "code" error))

-- Two checks of a claim with the same reason and verdict: the rows that were read may be any.
abbrev pub SameCheck : Option Json → Option Json → Type 0
SameCheck r s =
    (s ≡ r)
    ⊎ ((check : Fields) × (other_check : Fields) × (r ≡ some (obj check))
        × (s ≡ some (obj other_check))
        × (get "reason" other_check ≡ get "reason" check)
        × (get "confirmed" other_check ≡ get "confirmed" check))

-- Two details that agree in what is shown of them.
abbrev pub SameShown : Option Fields → Option Fields → Type 0
SameShown none none = Unit
SameShown (some d) (some e) =
    (get "reason_code" e ≡ get "reason_code" d)
    × (get "code" e ≡ get "code" d)
    × (get "limit" e ≡ get "limit" d)
    × (get "satisfied" e ≡ get "satisfied" d)
    × SameRejection (get "rejection" d) (get "rejection" e)
    × SameCheck (get "block_check" d) (get "block_check" e)
SameShown _ _ = ⊥

module _ (k : Internals) where
  abbrev hide_model_error : Option ModelCallError → Option ModelCallError
  hide_model_error none = none
  hide_model_error (some e) =
      some (record { code = e.code; message = k.message; error_type = k.error_type })

  abbrev hide_tool_error : Option ToolError → Option ToolError
  hide_tool_error none = none
  hide_tool_error (some e) =
      some (record { code = e.code; message = k.message; error_type = k.error_type })

  abbrev pub hide_entry : TraceEntry → TraceEntry
  hide_entry (model_call c) = model_call (record c {
    id = k.row_id;
    agent_run_id = k.run_id;
    error = hide_model_error c.error;
    created_at = k.created_at;
  })
  hide_entry (tool_call c) = tool_call (record c {
    id = k.row_id;
    agent_run_id = k.run_id;
    arguments = k.arguments;
    result = k.result;
    error = hide_tool_error c.error;
    created_at = k.created_at;
    completed_at = k.completed_at;
  })

  abbrev pub hide_run : Option Fields → AgentRun → AgentRun
  hide_run detail run = record run {
    resolved_user_id = k.user_id;
    resolved_licence_id = k.licence_id;
    desired_state = none;
    last_sequence_no = 0;
    outcome_detail = detail;
  }

  same_model_code :
      (e : Option ModelCallError) → model_error_code (hide_model_error e) ≡ model_error_code e
  same_model_code none = refl
  same_model_code (some e) = refl

  same_tool_code : (e : Option ToolError) → tool_error_code (hide_tool_error e) ≡ tool_error_code e
  same_tool_code none = refl
  same_tool_code (some e) = refl

  module _ (v : Validators) where
    entry-hidden : (entry : TraceEntry) → entry_of v (hide_entry entry) ≡ entry_of v entry
    unfolding entry_of model_call_of tool_call_of
    entry-hidden (model_call c) = rw (same_model_code c.error) refl
    entry-hidden (tool_call c) = rw (same_tool_code c.error) refl

    trace-hidden : (trace : List TraceEntry) → trace_of v (map hide_entry trace) ≡ trace_of v trace
    unfolding trace_of
    trace-hidden [] = refl
    trace-hidden (entry ∷ entries) = rw (entry-hidden entry) (rw (trace-hidden entries) refl)

    same_code :
        (reason : Option OutcomeReason) (d e : Option Fields)
        → SameShown d e
        → outcome_code reason e ≡ outcome_code reason d
    unfolding outcome_code
    same_code reason none none h = refl
    same_code reason none (some e) h = elim h [ ]
    same_code none (some d) none h = elim h [ ]
    same_code (some _) (some d) none h = elim h [ ]
    same_code none (some d) (some e) h = refl
    same_code (some OutcomeReason.instruction_unclear) (some d) (some e) h = rw h.0 refl
    same_code (some OutcomeReason.unsupported_request) (some d) (some e) h = rw h.0 refl
    same_code (some OutcomeReason.planner_error) (some d) (some e) h = rw h.1 refl
    same_code (some OutcomeReason.step_limit) (some d) (some e) h = rw h.2 refl
    same_code (some _) (some d) (some e) h = refl

    same_rejection :
        (r t : Option Json)
        → SameRejection r t
        → rejection_code v (not_null t) ≡ rejection_code v (not_null r)
    unfolding item and_then
    same_rejection r t (inl same) = rw same refl
    same_rejection r t (inr (call, other_call, error, other_error, is_r, is_t, e, o, code)) =
        rw is_r (rw is_t (rw e (rw o (rw code refl))))

    same_check :
        (r t : Option Json)
        → SameCheck r t
        → read_block_check v (not_null t) ≡ read_block_check v (not_null r)
    unfolding item and_then
    same_check r t (inl same) = rw same refl
    same_check r t (inr (check, other_check, is_r, is_t, reason, confirmed)) =
        rw is_r (rw is_t (rw reason (rw confirmed refl)))

    same_if :
        (d e : Fields) (o : Option Json)
        → SameRejection (get "rejection" d) (get "rejection" e)
        → SameCheck (get "block_check" d) (get "block_check" e)
        → if_verified v o e ≡ if_verified v o d
    unfolding read_verified
    same_if d e (some (Json.bool b)) rejection check =
        rw (same_rejection (get "rejection" d) (get "rejection" e) rejection)
          (rw (same_check (get "block_check" d) (get "block_check" e) check) refl)
    same_if d e _ rejection check = refl

    same_verification : (d e : Option Fields) → SameShown d e → verification v e ≡ verification v d
    unfolding verification
    same_verification none none h = refl
    same_verification none (some e) h = elim h [ ]
    same_verification (some d) none h = elim h [ ]
    same_verification (some d) (some e) (_, _, _, satisfied, rejection, check) =
        rw satisfied (same_if d e (get "satisfied" d) rejection check)

    -- What is shown of a run and its trace is the same if the rows that the goal was resolved to, the rows'
    -- own ids, the arguments and results of the tool calls, the messages and exception types of errors, and
    -- the times of calls are others; and if the outcome detail is another that has the same codes, limit and
    -- verdict, a rejected call with the same code of its error, and a checked claim with the same reason and
    -- verdict: the ids, rows and messages in the detail are not shown.
    pub detail_of-hides :
        (run : AgentRun) (detail : Option Fields) (trace : List TraceEntry)
        → SameShown run.outcome_detail detail
        → detail_of v (hide_run detail run) (map hide_entry trace) ≡ detail_of v run trace
    unfolding detail_of summary goal proposal and_then
    detail_of-hides run detail trace h =
        rw (same_code run.outcome_reason run.outcome_detail detail h)
          (rw (same_verification run.outcome_detail detail h) (rw (trace-hidden trace) refl))
