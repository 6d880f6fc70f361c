-- ===== src/Agent/Shown.antt =====
-- src/app/agent/executor.py and what src/app/schemas/agent_runs.py can show of the rows that it writes: the
-- writes, and the transactions of a tool call.
pub mod Endings
pub mod Conclusions
pub mod Runs
use saas_agent_lab.Common.{
  ℕ, ◌≡◌, refl, Option, none, some, String, Bool, true, false, List, [], ◌∷◌, All, All-append, ◌++◌,
  All-update, if◌then◌else◌,
}
use saas_agent_lab.Text.{Text}
use saas_agent_lab.Json.{Fields, get}
use saas_agent_lab.Models.{AgentRun, ToolCall, ModelCall}
use saas_agent_lab.Models.Enums.{AgentRunStatus, OutcomeReason, PolicyDecision, ModelCallStage}
use saas_agent_lab.Repositories.AgentRuns
use saas_agent_lab.Repositories.AgentRuns.{run_key}
use saas_agent_lab.Repositories.ToolCalls
use saas_agent_lab.Repositories.ToolCalls.{tool_call_key}
use saas_agent_lab.Repositories.ModelCalls
use saas_agent_lab.Schemas.Agent.{
  TargetToolName, ResolvedAssignmentGoal, ModelCallRecord, ModelObservation,
}
use saas_agent_lab.Schemas.AgentRuns.{key_of}
use saas_agent_lab.Schemas.AgentRuns.Recorded.{Recorded, unrecorded, plain, coded}
use saas_agent_lab.Schemas.AgentRuns.Views.{IsRecorded, IsNamed, IsDump}
use saas_agent_lab.Agent.Tools.Observe.{Outcome, output, error}
use saas_agent_lab.Agent.Executor.Runs.{end_run, record_model_call}
use saas_agent_lab.Agent.Executor.Details.{call_detail}
use saas_agent_lab.Agent.Decision.{limit_value}
use saas_agent_lab.Agent.Executor.Admission.{
  Limit, exceeded_limit, end_at_limit, refuse_over_limit, deny, hold_for_approval, by_policy, admit,
  new_call, start_call_transaction,
}
use saas_agent_lab.Agent.Executor.ToolCalls.{with_outcome, end_unshown, record_outcome}
use saas_agent_lab.Agent.Reads.{
  evaluate-Respects, get_run-Respects, current_status-Respects, persisted_goal-Respects,
}
use saas_agent_lab.Session.{Database, execute}
use saas_agent_lab.Session.Respects.{Preorder, Respects, respects_rules}

-- Every row can be shown: the details of the runs, the names of the tool calls, and the outputs of the
-- model calls are as the program writes them.
pub record IsShown (d : Database) : Type 0 where
  pub runs : All IsRecorded d.agent_runs
  pub tool_calls : All IsNamed d.tool_calls
  pub model_calls : All (λ (c : ModelCall). IsDump c.output) d.model_calls

pub record StaysShown (d e : Database) : Type 0 where
  pub keep : IsShown d → IsShown e

pub StaysShown-preorder : Preorder StaysShown
StaysShown-preorder = record {
  same = λ d. record { keep = λ h. h };
  then_ = λ d e f a b. record { keep = λ h. b.keep (a.keep h) };
}

pub set_run-Shown :
    (id : ℕ) (f : AgentRun → AgentRun)
    → ((r : AgentRun) → IsRecorded r → IsRecorded (f r))
    → Respects StaysShown (AgentRuns.set_columns id f)
unfolding AgentRuns.set_columns execute
set_run-Shown id f h = record {
  at = λ w. record {
    keep = λ shown. record {
      runs = All-update run_key IsRecorded id f w.db.agent_runs (λ r _. h r) shown.runs;
      tool_calls = shown.tool_calls;
      model_calls = shown.model_calls;
    };
  };
}

pub set_call-Shown :
    (id : ℕ) (f : ToolCall → ToolCall)
    → ((c : ToolCall) → (f c).tool_name ≡ c.tool_name)
    → Respects StaysShown (ToolCalls.set_columns id f)
unfolding ToolCalls.set_columns execute
set_call-Shown id f h = record {
  at = λ w. record {
    keep = λ shown. record {
      runs = shown.runs;
      tool_calls =
          All-update tool_call_key IsNamed id f w.db.tool_calls
            (λ c _ (tool, n). (tool, rw (h c) n)) shown.tool_calls;
      model_calls = shown.model_calls;
    };
  };
}

-- The inserts of the three tables.
insert_run :
    (run : AgentRun)
    → IsRecorded run
    → Respects StaysShown (execute (λ d. record d { agent_runs = d.agent_runs ++ run ∷ [] }))
unfolding execute
insert_run run h = record {
  at = λ w. record {
    keep = λ shown. record {
      runs = All-append IsRecorded w.db.agent_runs _ shown.runs (h, tt);
      tool_calls = shown.tool_calls;
      model_calls = shown.model_calls;
    };
  };
}

insert_tool_call :
    (call : ToolCall)
    → IsNamed call
    → Respects StaysShown (execute (λ d. record d { tool_calls = d.tool_calls ++ call ∷ [] }))
unfolding execute
insert_tool_call call h = record {
  at = λ w. record {
    keep = λ shown. record {
      runs = shown.runs;
      tool_calls = All-append IsNamed w.db.tool_calls _ shown.tool_calls (h, tt);
      model_calls = shown.model_calls;
    };
  };
}

insert_model_call :
    (call : ModelCall)
    → IsDump call.output
    → Respects StaysShown (execute (λ d. record d { model_calls = d.model_calls ++ call ∷ [] }))
unfolding execute
insert_model_call call h = record {
  at = λ w. record {
    keep = λ shown. record {
      runs = shown.runs;
      tool_calls = shown.tool_calls;
      model_calls =
          All-append (λ (c : ModelCall). IsDump c.output) w.db.model_calls _ shown.model_calls
            (h, tt);
    };
  };
}

pub ruleset rules = (
  respects_rules, StaysShown-preorder, get_run-Respects, current_status-Respects,
  persisted_goal-Respects, evaluate-Respects,
)

pub add_run-Shown : (i a : Text) (s : AgentRunStatus) → Respects StaysShown (AgentRuns.add i a s)
unfolding AgentRuns.add
add_run-Shown i a s = search (rules, insert_run, unrecorded) depth 12

pub add_tool_call-Shown : (c : ToolCall) → IsNamed c → Respects StaysShown (ToolCalls.add c)
unfolding ToolCalls.add
add_tool_call-Shown c h = search (rules, insert_tool_call, h) depth 14

add_model_call-Shown : (c : ModelCall) → IsDump c.output → Respects StaysShown (ModelCalls.add c)
unfolding ModelCalls.add
add_model_call-Shown c h = search (rules, insert_model_call, h) depth 16

pub next_sequence_no-Shown : (id : ℕ) → Respects StaysShown (AgentRuns.next_sequence_no id)
unfolding AgentRuns.next_sequence_no
next_sequence_no-Shown id = search (rules, set_run-Shown) depth 12

pub end_run-Shown :
    (run : AgentRun) (s : AgentRunStatus) (reason : OutcomeReason) (d : Option Fields)
    → Recorded (some reason) d
    → Respects StaysShown (end_run run s reason d)
unfolding end_run
end_run-Shown run s reason d h = search (rules, set_run-Shown, h) depth 12

pub record_model_call-Shown :
    (id : ℕ) (s : ModelCallStage) (c : ModelCallRecord)
    → IsDump c.output
    → Respects StaysShown (record_model_call id s c)
unfolding record_model_call
record_model_call-Shown id s c h =
    search (rules, next_sequence_no-Shown, add_model_call-Shown, h) depth 12

pub ruleset writes = (
  rules, set_run-Shown, set_call-Shown, add_tool_call-Shown, next_sequence_no-Shown, end_run-Shown,
)

pub end_at_limit-Shown : (run : AgentRun) (l : Limit) → Respects StaysShown (end_at_limit run l)
unfolding end_at_limit get
end_at_limit-Shown run (limit, maximum) =
    end_run-Shown run _ _ _ (coded _ "limit" (limit_value limit) refl refl refl)

-- The detail of a call that ended or blocked a run has no code to show.
call_detail-Recorded :
    (reason : OutcomeReason) (c : ToolCall)
    → key_of (some reason) ≡ none
    → Recorded (some reason) (some (call_detail c))
unfolding call_detail get
call_detail-Recorded reason c h = plain _ h refl

refuse-Shown :
    (run : AgentRun) (c : ToolCall) (l : Limit)
    → IsNamed c
    → Respects StaysShown (refuse_over_limit run c l)
unfolding refuse_over_limit
refuse-Shown run c (l, m) h = search (writes, end_at_limit-Shown, h) depth 12

by_policy-Shown :
    (run : AgentRun) (g : ResolvedAssignmentGoal) (c : ToolCall) (d : Option PolicyDecision)
    → IsNamed c
    → Respects StaysShown (by_policy run g c d)
unfolding by_policy deny hold_for_approval
by_policy-Shown run g c (some PolicyDecision.deny) h =
    search (writes, h, call_detail-Recorded) depth 12
by_policy-Shown run g c (some PolicyDecision.require_approval) h = search (writes, h) depth 12
by_policy-Shown run g c _ h = search (writes, h) depth 12

admit-Shown :
    (run : AgentRun) (t : TargetToolName) (g : ResolvedAssignmentGoal) (c : ToolCall)
    (l : Option Limit)
    → IsNamed c
    → Respects StaysShown (admit run t g c l)
unfolding admit
admit-Shown run t g c (some l) h = search (writes, refuse-Shown, h) depth 10
admit-Shown run t g c none h = search (writes, by_policy-Shown, h) depth 10

new_call-IsNamed :
    (id sequence_no : ℕ) (t : TargetToolName) (g : ResolvedAssignmentGoal)
    → IsNamed (new_call id sequence_no t g)
new_call-IsNamed id sequence_no t g = (t, refl)

pub start_call_transaction-Shown :
    (id : ℕ) (t : TargetToolName) → Respects StaysShown (start_call_transaction id t)
unfolding start_call_transaction ToolCalls.any_started exceeded_limit ToolCalls.count_for_tools
start_call_transaction-Shown id t = search (writes, admit-Shown, new_call-IsNamed) depth 24

end_unshown-Shown :
    (run : AgentRun) (c : ToolCall) (o : Outcome) (shown : Option ModelObservation)
    → Respects StaysShown (end_unshown run c o shown)
unfolding end_unshown
end_unshown-Shown run c (error e) none = search (writes, call_detail-Recorded)
end_unshown-Shown run c _ _ = search writes

with_outcome-name :
    (o : Outcome) (shown : Option Text) (t : ℕ) (c : ToolCall)
    → (with_outcome o shown t c).tool_name ≡ c.tool_name
with_outcome-name (error e) shown t c = refl
with_outcome-name (output x) shown t c = refl

pub record_outcome-Shown :
    (id call : ℕ) (t : TargetToolName) (g : ResolvedAssignmentGoal) (o : Outcome)
    → Respects StaysShown (record_outcome id call t g o)
unfolding record_outcome ToolCalls.get
record_outcome-Shown id call t g o = search (writes, end_unshown-Shown, with_outcome-name) depth 24
