-- ===== src/Schemas/AgentRuns/Trace.antt =====
-- src/app/schemas/agent_runs.py: the entries of a run's trace as they are shown.
use saas_agent_lab.Common.{ℕ, String, Option, none, some, List, [], ◌∷◌, str_eq, if◌then◌else◌}
use saas_agent_lab.Text.{Text}
use saas_agent_lab.Errors.{other}
use saas_agent_lab.Json.{Fields}
use saas_agent_lab.Models.{ModelCall, ToolCall}
use saas_agent_lab.Models.Enums.{ModelCallStage, ModelCallStatus, ToolCallStatus, PolicyDecision}
use saas_agent_lab.Repositories.AgentRuns.{TraceEntry, model_call, tool_call}
use saas_agent_lab.Schemas.Agent.{
  TargetToolName, get_target_user, get_target_licence_capacity, list_target_user_assignments,
  assign_target_licence, ModelCallError, ToolError,
}
use saas_agent_lab.Schemas.AgentRuns.Validation.{ModelCallOutput, Validators}
use saas_agent_lab.Agent.Tools.{recorded_name}
use saas_agent_lab.Session.{Result, ok, raise, and_then}

pub record ModelCallTraceEntry : Type 0 where
  pub sequence_no : ℕ
  pub stage : ModelCallStage
  pub model : String
  pub status : ModelCallStatus
  pub input_tokens : Option ℕ
  pub output_tokens : Option ℕ
  pub latency_ms : ℕ
  pub output : Option ModelCallOutput
  pub error_code : Option String

pub record ToolCallTraceEntry : Type 0 where
  pub sequence_no : ℕ
  pub tool : TargetToolName
  pub status : ToolCallStatus
  pub policy : Option PolicyDecision
  pub error_code : Option String
  pub observation : Option Text

-- The union `TraceEntry` of this contract, told apart by `kind`.
pub data TraceRead : Type 0 where
  model_call_read : ModelCallTraceEntry → TraceRead
  tool_call_read : ToolCallTraceEntry → TraceRead

abbrev pub tool_among : List TargetToolName → String → Result TargetToolName
tool_among [] name = raise (other "KeyError")
tool_among (tool ∷ tools) name =
    if str_eq (recorded_name tool) name then ok tool else tool_among tools name

-- `_TOOL_BY_RECORDED_NAME[tool_name]`.
unfoldable pub tool_by_recorded_name : String → Result TargetToolName
tool_by_recorded_name = tool_among (
    get_target_user ∷ get_target_licence_capacity ∷ list_target_user_assignments
    ∷ assign_target_licence ∷ [])

abbrev pub model_error_code : Option ModelCallError → Option String
model_error_code none = none
model_error_code (some error) = some error.code

abbrev pub tool_error_code : Option ToolError → Option String
tool_error_code none = none
tool_error_code (some error) = some error.code

module _ (v : Validators) where
  abbrev pub read_output : Option Fields → Result (Option ModelCallOutput)
  read_output none = ok none
  read_output (some dumped) = and_then (v.output dumped) (λ output. ok (some output))

  -- `ModelCallTraceEntry.of`.
  unfoldable pub model_call_of : ModelCall → Result ModelCallTraceEntry
  unfolding and_then
  model_call_of call = and_then (read_output call.output) λ output. ok (record {
    sequence_no = call.sequence_no;
    stage = call.stage;
    model = call.model_name;
    status = call.status;
    input_tokens = call.input_tokens;
    output_tokens = call.output_tokens;
    latency_ms = call.latency_ms;
    output = output;
    error_code = model_error_code call.error;
  })

  -- `ToolCallTraceEntry.of`.
  unfoldable pub tool_call_of : ToolCall → Result ToolCallTraceEntry
  unfolding tool_by_recorded_name and_then
  tool_call_of call = and_then (tool_by_recorded_name call.tool_name) λ tool. ok (record {
    sequence_no = call.sequence_no;
    tool = tool;
    status = call.status;
    policy = call.policy_decision;
    error_code = tool_error_code call.error;
    observation = call.observation;
  })

  unfoldable pub entry_of : TraceEntry → Result TraceRead
  unfolding model_call_of tool_call_of
  entry_of (model_call call) = and_then (model_call_of call) (λ read. ok (model_call_read read))
  entry_of (tool_call call) = and_then (tool_call_of call) (λ read. ok (tool_call_read read))

  -- The comprehension over the trace.
  unfoldable pub trace_of : List TraceEntry → Result (List TraceRead)
  unfolding entry_of and_then
  trace_of [] = ok []
  trace_of (entry ∷ entries) =
      and_then (entry_of entry) λ first. and_then (trace_of entries) λ rest. ok (first ∷ rest)
