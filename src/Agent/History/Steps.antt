-- ===== src/Agent/History/Steps.antt =====
-- src/app/agent/executor.py, the statements of its transactions, and `_fail`, against the order of runs.
use saas_agent_lab.Common.{
  ℕ, ◌≡◌, refl, ◌∙◌, Option, none, some, Bool, true, false, not, List, [], ◌∷◌, String, arith,
  is_none, is_some, Option-cases, inl, inr, if◌then◌else◌, Bool-cases, leb, ltb,
}
use saas_agent_lab.Json.{Fields}
use saas_agent_lab.Models.{ToolCall, ModelCall}
use saas_agent_lab.Models.Enums.{AgentRunStatus, OutcomeReason, ModelCallStage}
use saas_agent_lab.Repositories.ToolCalls
use saas_agent_lab.Repositories.ModelCalls
use saas_agent_lab.Schemas.Agent.{TargetToolName, ModelCallRecord}
use saas_agent_lab.Agent.Executor.Runs.{record_model_call, fail}
use saas_agent_lab.Agent.Executor.Admission.{exceeded_limit}
use saas_agent_lab.Agent.Reads.{current_status-Respects}
use saas_agent_lab.Agent.History.{RunsEvolve, RunsEvolve-preorder}
use saas_agent_lab.Agent.History.Under.{
  Found, Under, SameRuns, SameRuns-preorder, Respects-of_same, Under-of_Respects, Respects-get_run,
  Under-raise_if, Under-same, Under-bind, Under-set,
}
use saas_agent_lab.Agent.History.Endings.{can_fail, Under-end_run, next_sequence_no-evolves}
use saas_agent_lab.Session.{Database, execute}
use saas_agent_lab.Session.Respects.{
  Respects, respects_rules, Respects-pure, Respects-transaction, Respects-bind, Respects-utcnow,
}

-- Writes of other tables.

pub writes_other :
    (f : Database → Database)
    → ((d : Database) → (f d).agent_runs ≡ d.agent_runs)
    → Respects SameRuns (execute f)
unfolding execute
writes_other f h = record { at = λ w. record { runs = h w.db } }

pub ruleset same_rules = (respects_rules, SameRuns-preorder, writes_other, refl)

pub add_tool_call-SameRuns : (c : ToolCall) → Respects SameRuns (ToolCalls.add c)
unfolding ToolCalls.add
add_tool_call-SameRuns c = search same_rules depth 10

pub add_model_call-SameRuns : (c : ModelCall) → Respects SameRuns (ModelCalls.add c)
unfolding ModelCalls.add
add_model_call-SameRuns c = search same_rules depth 10

pub set_call-SameRuns :
    (id : ℕ) (f : ToolCall → ToolCall) → Respects SameRuns (ToolCalls.set_columns id f)
unfolding ToolCalls.set_columns
set_call-SameRuns id f = search same_rules depth 8

pub any_started-SameRuns : (id : ℕ) → Respects SameRuns (ToolCalls.any_started id)
unfolding ToolCalls.any_started
any_started-SameRuns id = search same_rules

pub get_call-SameRuns : (id : ℕ) → Respects SameRuns (ToolCalls.get id)
unfolding ToolCalls.get
get_call-SameRuns id = search same_rules

pub exceeded_limit-SameRuns :
    (id : ℕ) (t : TargetToolName) → Respects SameRuns (exceeded_limit id t)
unfolding exceeded_limit ToolCalls.count_for_tools
exceeded_limit-SameRuns id t = search same_rules depth 8

-- A model call takes the run's next position.
pub record_model_call-evolves :
    (id : ℕ) (s : ModelCallStage) (c : ModelCallRecord)
    → Respects RunsEvolve (record_model_call id s c)
unfolding record_model_call
record_model_call-evolves id s c =
    search
      (
        respects_rules, RunsEvolve-preorder, next_sequence_no-evolves, Respects-of_same,
        add_model_call-SameRuns,
      )
      depth 10

pub fail-evolves : (id : ℕ) (d : Fields) → Respects RunsEvolve (fail id d)
unfolding fail
fail-evolves id d = Respects-transaction RunsEvolve-preorder _ (
    Respects-get_run id _ λ r.
      Under-bind r.id r _ _
        (Under-end_run r r AgentRunStatus.failed OutcomeReason.unexpected_error (some d) refl
          (can_fail r OutcomeReason.unexpected_error refl))
        λ _. current_status-Respects RunsEvolve-preorder id)
