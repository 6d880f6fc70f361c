-- ===== src/Repositories/ToolCalls.antt =====
-- src/app/repositories/tool_calls.py.
use saas_agent_lab.Common.{
  ℕ, String, Bool, ◌&&◌, ◌==◌, ltb, Option, none, some, List, [], ◌∷◌, ◌++◌, count, any, where_,
  find, update, next_key, if◌then◌else◌,
}
use saas_agent_lab.Errors.{integrity_error}
use saas_agent_lab.Models.{ToolCall}
use saas_agent_lab.Models.Enums.{is_started, is_succeeded}
use saas_agent_lab.Session.{Exec, ⊤, pure, query, ◌>>=◌, ◌>>◌, raise_if, execute, utcnow}

abbrev pub tool_call_key : ToolCall → ℕ
tool_call_key c = c.id

-- The unique constraint on a run and its position.
abbrev pub same_position : ℕ → ℕ → ToolCall → Bool
same_position agent_run_id sequence_no c =
    (c.agent_run_id == agent_run_id) && (c.sequence_no == sequence_no)

-- The key is the database's to choose, and `created_at` has a default: both are set at the flush.
unfoldable pub add : ToolCall → Exec ToolCall
add call = do
  created_at ← utcnow
  taken ← query (λ d. any (same_position call.agent_run_id call.sequence_no) d.tool_calls)
  raise_if taken
      (integrity_error "UNIQUE constraint failed: tool_calls.agent_run_id, tool_calls.sequence_no")
  id ← query (λ d. next_key tool_call_key d.tool_calls)
  execute (λ d. record d {
    tool_calls = d.tool_calls ++ record call { id = id; created_at = created_at } ∷ [];
  })
  pure (record call { id = id; created_at = created_at })

unfoldable pub get : ℕ → Exec (Option ToolCall)
get call_id = query (λ d. find tool_call_key call_id d.tool_calls)

-- Attributes of a call in a session, written when it flushes.
unfoldable pub set_columns : ℕ → (ToolCall → ToolCall) → Exec ⊤
set_columns call_id f =
    execute (λ d. record d { tool_calls = update tool_call_key call_id f d.tool_calls })

abbrev pub is_open_call : ℕ → ToolCall → Bool
is_open_call agent_run_id c = (c.agent_run_id == agent_run_id) && is_started c.status

-- `tool_name IN tool_names`; a set of names is given by its membership test.
abbrev pub is_call_of : ℕ → (String → Bool) → ToolCall → Bool
is_call_of agent_run_id names c = (c.agent_run_id == agent_run_id) && names c.tool_name

abbrev pub is_success_of : ℕ → (String → Bool) → ToolCall → Bool
is_success_of agent_run_id names c =
    (c.agent_run_id == agent_run_id) && (names c.tool_name && is_succeeded c.status)

unfoldable pub any_started : ℕ → Exec Bool
any_started agent_run_id = query (λ d. any (is_open_call agent_run_id) d.tool_calls)

unfoldable pub any_succeeded : ℕ → (String → Bool) → Exec Bool
any_succeeded agent_run_id names = query (λ d. any (is_success_of agent_run_id names) d.tool_calls)

unfoldable pub count_for_tools : ℕ → (String → Bool) → Exec ℕ
count_for_tools agent_run_id names = query (λ d. count (is_call_of agent_run_id names) d.tool_calls)

-- `ORDER BY sequence_no DESC` and `first()`: the row with the largest number, the first of equals.
unfoldable pub latest : List ToolCall → Option ToolCall
latest [] = none
latest (c ∷ cs) = elim (latest cs) [
  | none ↦ some c
  | some d ↦ if ltb c.sequence_no d.sequence_no then some d else some c
]

unfoldable pub latest_for_tools : ℕ → (String → Bool) → Exec (Option ToolCall)
unfolding latest
latest_for_tools agent_run_id names =
    query (λ d. latest (where_ (is_call_of agent_run_id names) d.tool_calls))
