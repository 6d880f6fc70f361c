-- ===== src/Agent/Guarantees.antt =====
-- src/app/agent/executor.py, the public methods at any state of the database and for any planner.
use saas_agent_lab.Common.{ℕ, ◌≤◌, ◌≡◌, ◌∙◌, ap, refl, true, some, is_some, All, find, count}
use saas_agent_lab.Text.{Text, Unicode}
use saas_agent_lab.Models.{AgentRun}
use saas_agent_lab.Models.Enums.{AgentRunStatus, PolicyDecision}
use saas_agent_lab.Repositories.AgentRuns.{run_key}
use saas_agent_lab.Repositories.ToolCalls.{is_call_of}
use saas_agent_lab.Schemas.Agent.{
  TargetToolName, ResolvedAssignmentGoal, DecisionContext, DecisionProposal,
}
use saas_agent_lab.Agent.Planner.{IntentPlan, DecisionPlan}
use saas_agent_lab.Agent.Tools.{is_mutation}
use saas_agent_lab.Agent.Executor.Extraction.{extract_intent}
use saas_agent_lab.Agent.Executor.Resolution.{resolve_run}
use saas_agent_lab.Agent.Executor.Admission.{limit_of, kind_of, start_call_transaction}
use saas_agent_lab.Agent.Executor.ToolCalls.{call_tool}
use saas_agent_lab.Agent.Executor.Decide.{decide, finish_decision}
use saas_agent_lab.Agent.Executor.Lifecycle.{run}
use saas_agent_lab.Agent.History.{IsWellFormed, Evolved}
use saas_agent_lab.Agent.History.Rereads.{Always}
use saas_agent_lab.Agent.History.Resolutions.{resolve_run-evolves}
use saas_agent_lab.Agent.History.Runs.{
  run-evolves, decide-evolves, extract_intent-evolves, call_tool-evolves,
}
use saas_agent_lab.Agent.Consistency.{run-StaysConsistent}
use saas_agent_lab.Agent.Admission.{Admits, HasPolicy, start_call-Admits}
use saas_agent_lab.Agent.Completion.{Assigned}
use saas_agent_lab.Agent.Completion.Verified.{Known, IfCompleted}
use saas_agent_lab.Agent.Completion.Finished.{finish_decision-IfCompleted}
use saas_agent_lab.Services.Assignments.Seats.{IsConsistent}
use saas_agent_lab.Session.{World, ok}
use saas_agent_lab.Session.Triples.{returned}

module _ (u : Unicode) (w : World) where
  -- From a table of well-formed runs, a whole run, with any planners, leaves a table of well-formed
  -- runs, in which every earlier run is still there: with its request, its status moved only along the
  -- status table, except that a run waiting for approval can still be ended as failed (which the table
  -- excludes), its goal and its context kept, and if it had ended, only its trace counter changed. Other
  -- clients may be served whenever a planner works.
  pub run-Evolved :
      (instruction actor : Text) (intent_planner : Text → IntentPlan)
      (decision_planner : DecisionContext → DecisionPlan)
      → All IsWellFormed w.db.agent_runs
      → Evolved w.db (run u instruction actor intent_planner decision_planner w).1.db
  run-Evolved instruction actor intent_planner decision_planner h =
      ((run-evolves u instruction actor intent_planner decision_planner).at w).evolve h

  -- From a table of well-formed runs, extracting any run, whatever its status and with any planner,
  -- leaves a table of well-formed runs in which every run has evolved.
  pub extract_intent-Evolved :
      (run_id : ℕ) (planner : Text → IntentPlan)
      → All IsWellFormed w.db.agent_runs
      → Evolved w.db (extract_intent u run_id planner w).1.db
  extract_intent-Evolved run_id planner h =
      ((extract_intent-evolves u run_id planner).at w).evolve h

  -- From a table of well-formed runs, resolving any run, whatever its status, leaves a table of
  -- well-formed runs in which every run has evolved.
  pub resolve_run-Evolved :
      (run_id : ℕ) → All IsWellFormed w.db.agent_runs → Evolved w.db (resolve_run u run_id w).1.db
  resolve_run-Evolved run_id h = ((resolve_run-evolves u run_id).at w).evolve h

  -- From a table of well-formed runs, deciding any run, whatever its status and whatever its planner
  -- does, leaves a table of well-formed runs in which every run has evolved: its status moved only along
  -- the status table, except that a run waiting for approval can still be ended as failed (which the
  -- table excludes).
  pub decide-Evolved :
      (run_id : ℕ) (planner : DecisionContext → DecisionPlan)
      → All IsWellFormed w.db.agent_runs
      → Evolved w.db (decide u run_id planner w).1.db
  decide-Evolved run_id planner h = ((decide-evolves u run_id planner).at w).evolve h

  -- From a table of well-formed runs, a run that has ended is found unchanged but for its trace counter
  -- after any later decision, of itself or of another run.
  pub decide-ended :
      (run_id : ℕ) (planner : DecisionContext → DecisionPlan) (k : ℕ) (r : AgentRun)
      → All IsWellFormed w.db.agent_runs
      → find run_key k w.db.agent_runs ≡ some r
      → is_some r.completed_at ≡ true
      → (n : ℕ) × (find run_key k (decide u run_id planner w).1.db.agent_runs
          ≡ some (record r { last_sequence_no = n }))
  decide-ended run_id planner k r h found has_ended =
      let (s, at_s, e) = (decide-Evolved run_id planner h).row k r found in
      (s.last_sequence_no, at_s ∙ ap some (e.frozen has_ended))

  -- From consistent tables a whole run leaves consistent tables: no licence has more active
  -- assignments than seats, no user has a licence twice, no assignment dangles, and emails and
  -- products are unique; whatever the planners do, and whoever is served in between.
  pub run-IsConsistent :
      (instruction actor : Text) (intent_planner : Text → IntentPlan)
      (decision_planner : DecisionContext → DecisionPlan)
      → IsConsistent w.db
      → IsConsistent (run u instruction actor intent_planner decision_planner w).1.db
  run-IsConsistent instruction actor intent_planner decision_planner h =
      ((run-StaysConsistent u instruction actor intent_planner decision_planner).at w).keep h

-- From a table of well-formed runs, one tool call of any run leaves a table of well-formed runs in
-- which every run has evolved.
pub call_tool-Evolved :
    (w : World) (run_id : ℕ) (tool : TargetToolName)
    → All IsWellFormed w.db.agent_runs
    → Evolved w.db (call_tool run_id tool w).1.db
call_tool-Evolved w run_id tool h = ((call_tool-evolves run_id tool).at w).evolve h

module _ (w v : World) (run_id : ℕ) where
  -- If the conclusion of a run returns `completed`, its row names a user and a licence, and in the
  -- tables that are then committed that user has an active assignment of that licence.
  pub finish_decision-completed :
      (proposal : DecisionProposal)
      → finish_decision run_id proposal w ≡ (ok AgentRunStatus.completed, v)
      → (goal : ResolvedAssignmentGoal) × Known run_id goal v.db × Assigned goal v.db.assignments
  finish_decision-completed proposal e =
      returned Always (finish_decision run_id proposal) (IfCompleted run_id)
        (finish_decision-IfCompleted run_id proposal) w v AgentRunStatus.completed tt e refl

  module _ (tool : TargetToolName) (call_id : ℕ) (goal : ResolvedAssignmentGoal) where
    admitted :
        start_call_transaction run_id tool w ≡ (ok (some (call_id, goal)), v)
        → Admits run_id tool (some (call_id, goal)) v.db
    admitted e =
        returned Always (start_call_transaction run_id tool) (Admits run_id tool)
          (start_call-Admits run_id tool) w v (some (call_id, goal)) tt e

    -- When a call is admitted, the run's recorded calls of its kind, it included, are within the limit
    -- of that kind: one for the tool that changes state, six for the tools that read.
    pub start_call-limit :
        start_call_transaction run_id tool w ≡ (ok (some (call_id, goal)), v)
        → count (is_call_of run_id (kind_of tool)) v.db.tool_calls ≤ (limit_of tool).1
    start_call-limit e = (admitted e).0

    -- When a call that changes state is admitted, the policy of its licence is `allow`.
    pub start_call-policy :
        start_call_transaction run_id tool w ≡ (ok (some (call_id, goal)), v)
        → is_mutation tool ≡ true
        → HasPolicy goal PolicyDecision.allow v.db
    start_call-policy e = (admitted e).1
