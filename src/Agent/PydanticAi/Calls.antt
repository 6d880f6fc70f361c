-- ===== src/Agent/PydanticAi/Calls.antt =====
-- src/app/agent/executor.py: the steps that every stage shares, and the model calls that they add.
use saas_agent_lab.Common.{
  ℕ, zero, suc, ◌+◌, Bool, ◌≤◌, refl, arith, String, Option, List, [], ◌∷◌, length,
}
use saas_agent_lab.Text.{Unicode}
use saas_agent_lab.Json.{Fields}
use saas_agent_lab.Models.{AgentRun, ModelCall}
use saas_agent_lab.Models.Enums.{AgentRunStatus, OutcomeReason, ModelCallStage}
use saas_agent_lab.Repositories.AgentRuns
use saas_agent_lab.Repositories.ModelCalls
use saas_agent_lab.Schemas.Agent.{ModelCallRecord}
use saas_agent_lab.Api.Requests.{Request, serve}
use saas_agent_lab.Services.Isolation.{serve-SameLog}
use saas_agent_lab.Agent.Reads.{
  get_run-Respects, current_status-Respects, require_awaiting-Respects,
}
use saas_agent_lab.Agent.Executor.Runs.{end_run, fail, record_model_call}
use saas_agent_lab.Agent.PydanticAi.Grows.{
  Grows, SameCalls, SameCalls-preorder, writes_other, Grows-attempt, Grows-transaction, Grows-bind,
  Grows-after, Grows-then, insert-Grows,
}
use saas_agent_lab.Repositories.ToolCalls
use saas_agent_lab.Models.{ToolCall}
use saas_agent_lab.Agent.Reads.{persisted_goal-Respects, evaluate-Respects}
use saas_agent_lab.Session.Respects.{Respects, respects_rules}

pub ruleset rules = (
  respects_rules, SameCalls-preorder, writes_other, refl, get_run-Respects, current_status-Respects,
  require_awaiting-Respects,
)

pub add-Grows : (p : ModelCall → Bool) (call : ModelCall) → Grows p 1 (ModelCalls.add call)
unfolding ModelCalls.add
add-Grows p call = search (rules, Grows-after, Grows-then, insert-Grows) depth 20

pub set_columns-SameCalls :
    (id : ℕ) (f : AgentRun → AgentRun) → Respects SameCalls (AgentRuns.set_columns id f)
unfolding AgentRuns.set_columns
set_columns-SameCalls id f = search rules depth 8

pub next_sequence_no-SameCalls : (id : ℕ) → Respects SameCalls (AgentRuns.next_sequence_no id)
unfolding AgentRuns.next_sequence_no
next_sequence_no-SameCalls id = search (rules, set_columns-SameCalls) depth 12

pub end_run-SameCalls :
    (run : AgentRun) (s : AgentRunStatus) (reason : OutcomeReason) (d : Option Fields)
    → Respects SameCalls (end_run run s reason d)
unfolding end_run
end_run-SameCalls run s reason d = search (rules, set_columns-SameCalls) depth 8

pub record_model_call-Grows :
    (p : ModelCall → Bool) (id : ℕ) (s : ModelCallStage) (c : ModelCallRecord)
    → Grows p 1 (record_model_call id s c)
unfolding record_model_call
record_model_call-Grows p id s c =
    Grows-transaction p 1 _
      (search (rules, Grows-after, Grows-then, next_sequence_no-SameCalls, add-Grows) depth 12)

pub serve-SameCalls : (u : Unicode) (request : Request) → Respects SameCalls (serve u request)
serve-SameCalls u request = record {
  at = λ w. record { model_calls = ((serve-SameLog u request).at w).model_calls };
}

pub fail-SameCalls : (id : ℕ) (d : Fields) → Respects SameCalls (fail id d)
unfolding fail
fail-SameCalls id d = search (rules, end_run-SameCalls) depth 10

pub set_call-SameCalls :
    (id : ℕ) (f : ToolCall → ToolCall) → Respects SameCalls (ToolCalls.set_columns id f)
unfolding ToolCalls.set_columns
set_call-SameCalls id f = search rules depth 8

pub add_tool_call-SameCalls : (c : ToolCall) → Respects SameCalls (ToolCalls.add c)
unfolding ToolCalls.add
add_tool_call-SameCalls c = search rules depth 10

pub ruleset writes = (
  rules, persisted_goal-Respects, evaluate-Respects, set_columns-SameCalls, set_call-SameCalls,
  add_tool_call-SameCalls, next_sequence_no-SameCalls, end_run-SameCalls,
)
