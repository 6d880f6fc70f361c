-- ===== src/Repositories/AgentRuns.antt =====
-- src/app/repositories/agent_runs.py. An assignment to an attribute of a run in a session becomes an
-- `UPDATE` of that column when the session flushes: `set_columns`.
pub mod Order
use saas_agent_lab.Common.{
  ℕ, ◌+◌, Option, none, List, [], ◌∷◌, ◌++◌, map, ◌==◌, leb, if◌then◌else◌, where_, find, update,
  next_key,
}
use saas_agent_lab.Text.{Text}
use saas_agent_lab.Errors.{other}
use saas_agent_lab.Models.{AgentRun, ModelCall, ToolCall}
use saas_agent_lab.Models.Enums.{AgentRunStatus}
use saas_agent_lab.Session.{Database, Exec, ⊤, pure, query, ◌>>=◌, ◌>>◌, or_raise, execute, utcnow}

abbrev pub run_key : AgentRun → ℕ
run_key r = r.id

-- A new run: its instruction, its requesting actor and its status; the other columns are NULL.
unfoldable pub add : Text → Text → AgentRunStatus → Exec AgentRun
add instruction requesting_actor status = do
  created_at ← utcnow
  id ← query (λ d. next_key run_key d.agent_runs)
  let run : AgentRun = record {
    id = id;
    instruction = instruction;
    requesting_actor = requesting_actor;
    status = status;
    goal_type = none;
    desired_state = none;
    extracted_user_email = none;
    extracted_product = none;
    resolved_user_id = none;
    resolved_licence_id = none;
    outcome_reason = none;
    outcome_detail = none;
    last_sequence_no = 0;
    decision_context = none;
    decision_proposal = none;
    decision_reason_code = none;
    created_at = created_at;
    completed_at = none;
  }
  execute (λ d. record d { agent_runs = d.agent_runs ++ run ∷ [] })
  pure run

unfoldable pub get : ℕ → Exec (Option AgentRun)
get run_id = query (λ d. find run_key run_id d.agent_runs)

unfoldable pub set_columns : ℕ → (AgentRun → AgentRun) → Exec ⊤
set_columns run_id f = execute (λ d. record d { agent_runs = update run_key run_id f d.agent_runs })

abbrev pub count_step : AgentRun → AgentRun
count_step r = record r { last_sequence_no = r.last_sequence_no + 1 }

-- `UPDATE … RETURNING`; `scalar_one` raises if there is no such run.
unfoldable pub next_sequence_no : ℕ → Exec ℕ
unfolding set_columns
next_sequence_no run_id = do
  row ← query (λ d. find run_key run_id d.agent_runs)
  run ← or_raise row (other "NoResultFound")
  set_columns run_id count_step
  pure (run.last_sequence_no + 1)

pub data TraceEntry : Type 0 where
  model_call : ModelCall → TraceEntry
  tool_call : ToolCall → TraceEntry

abbrev pub sequence_no : TraceEntry → ℕ
sequence_no (model_call c) = c.sequence_no
sequence_no (tool_call c) = c.sequence_no

-- Python's `sorted`, which is stable.
unfoldable pub insert_entry : TraceEntry → List TraceEntry → List TraceEntry
insert_entry e [] = e ∷ []
insert_entry e (x ∷ xs) =
    if leb (sequence_no e) (sequence_no x) then e ∷ x ∷ xs else x ∷ insert_entry e xs

unfoldable pub sorted : List TraceEntry → List TraceEntry
unfolding insert_entry
sorted [] = []
sorted (e ∷ es) = insert_entry e (sorted es)

abbrev pub entries_of : ℕ → Database → List TraceEntry
entries_of run_id d =
    map model_call (where_ (λ (c : ModelCall). c.agent_run_id == run_id) d.model_calls)
    ++ map tool_call (where_ (λ (c : ToolCall). c.agent_run_id == run_id) d.tool_calls)

unfoldable pub list_trace : ℕ → Exec (List TraceEntry)
unfolding sorted
list_trace run_id = query (λ d. sorted (entries_of run_id d))
