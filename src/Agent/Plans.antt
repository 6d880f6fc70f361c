-- ===== src/Agent/Plans.antt =====
-- src/app/agent/executor.py, a whole run against an order of databases, from what each of its steps does:
-- induction on what the planners do. What a planner records may be restricted.
use saas_agent_lab.Common.{ℕ, String, Option}
use saas_agent_lab.Text.{Text, Unicode}
use saas_agent_lab.Errors.{Exc, decision_stopped, planner_error}
use saas_agent_lab.Api.Requests.{Request, serve}
use saas_agent_lab.Models.Enums.{OutcomeReason, ModelCallStage}
use saas_agent_lab.Schemas.Agent.{
  TargetToolName, DecisionContext, DecisionProposal, ExtractedIntent, ModelCallRecord,
}
use saas_agent_lab.Agent.Planner.{IntentPlan, DecisionPlan}
use saas_agent_lab.Agent.Executor.Runs.{fail, unexpected_detail, record_model_call}
use saas_agent_lab.Agent.Executor.Extraction.{
  Extraction, planner_detail, receive_run, run_intent_plan, finish_extraction, after_intent_plan,
  extract_intent,
}
use saas_agent_lab.Agent.Executor.Resolution.{resolve_run}
use saas_agent_lab.Agent.Executor.ToolCalls.{call_tool}
use saas_agent_lab.Agent.Executor.Decide.{
  before_request, start_decision, finish_decision, end_decision, run_decision_plan,
  after_decision_plan, decide,
}
use saas_agent_lab.Agent.Executor.Lifecycle.{decide_if, resolve_and_decide, run}
use saas_agent_lab.Agent.Reads.{
  current_status-Respects, get_run-Respects, require_awaiting-Respects,
}
use saas_agent_lab.Session.{Database, Result, ok, raise}
use saas_agent_lab.Session.Respects.{
  Preorder, Respects, respects_rules, Respects-bind, Respects-attempt, Respects-pure,
  Respects-raise_error,
}

-- Every request that the planner records satisfies `P`.
abbrev pub IntentRecords : (ModelCallRecord → Type 0) → IntentPlan → Type 0
IntentRecords P (IntentPlan.extracts intent) = Unit
IntentRecords P (IntentPlan.fails e) = Unit
IntentRecords P (IntentPlan.records call next) = P call × ((r : _) → IntentRecords P (next r))
IntentRecords P (IntentPlan.meanwhile request next) = IntentRecords P next

abbrev pub DecisionRecords : (ModelCallRecord → Type 0) → DecisionPlan → Type 0
DecisionRecords P (DecisionPlan.concludes proposal) = Unit
DecisionRecords P (DecisionPlan.fails e) = Unit
DecisionRecords P (DecisionPlan.calls_tool tool next) = (r : _) → DecisionRecords P (next r)
DecisionRecords P (DecisionPlan.requests next) = (r : _) → DecisionRecords P (next r)
DecisionRecords P (DecisionPlan.records call next) = P call × ((r : _) → DecisionRecords P (next r))
DecisionRecords P (DecisionPlan.meanwhile request next) = DecisionRecords P next

pub record Steps (u : Unicode) (R : Database → Database → Type 0) (P : ModelCallRecord → Type 0)
    : Type 0 where
  pub preorder : Preorder R
  pub served : (request : Request) → Respects R (serve u request)
  pub called : (id : ℕ) (tool : TargetToolName) → Respects R (call_tool id tool)
  pub requested : (id : ℕ) → Respects R (before_request id)
  pub recorded :
      (id : ℕ) (stage : ModelCallStage) (call : ModelCallRecord)
      → P call
      → Respects R (record_model_call id stage call)
  pub received : (instruction actor : Text) → Respects R (receive_run u instruction actor)
  pub extracted :
      (id : ℕ) (instruction : Text) (outcome : Extraction)
      → Respects R (finish_extraction u id instruction outcome)
  pub failed :
      (id : ℕ) (stage : String) (e : Exc) → Respects R (fail id (unexpected_detail stage e))
  pub resolved : (id : ℕ) → Respects R (resolve_run u id)
  pub started : (id : ℕ) → Respects R (start_decision id)
  pub finished : (id : ℕ) (proposal : DecisionProposal) → Respects R (finish_decision id proposal)
  pub ended_planner :
      (id : ℕ) (code : String) (error_type : Option String)
      → Respects R (
          end_decision id OutcomeReason.planner_error
            (planner_detail ModelCallStage.decision code error_type))
  pub ended_unexpected :
      (id : ℕ) (e : Exc)
      → Respects R (end_decision id OutcomeReason.unexpected_error (unexpected_detail "decision" e))

module _ {u : Unicode} {R : Database → Database → Type 0} {P : ModelCallRecord → Type 0}
    (s : Steps u R P) where
  run_intent_plan-Respects :
      (id : ℕ) (x : IntentPlan) → IntentRecords P x → Respects R (run_intent_plan u id x)
  unfolding run_intent_plan
  run_intent_plan-Respects id (IntentPlan.extracts intent) h = Respects-pure s.preorder intent
  run_intent_plan-Respects id (IntentPlan.fails e) h = Respects-raise_error s.preorder e
  run_intent_plan-Respects id (IntentPlan.records call next) (h, k) =
      Respects-bind s.preorder _ _ (Respects-attempt s.preorder _ (s.recorded id _ call h))
        λ r. run_intent_plan-Respects id (next r) (k r)
  run_intent_plan-Respects id (IntentPlan.meanwhile request next) h =
      Respects-bind s.preorder _ _ (s.served request) λ _. run_intent_plan-Respects id next h

  run_decision_plan-Respects :
      (id : ℕ) (x : DecisionPlan) → DecisionRecords P x → Respects R (run_decision_plan u id x)
  unfolding run_decision_plan
  run_decision_plan-Respects id (DecisionPlan.concludes proposal) h =
      Respects-pure s.preorder proposal
  run_decision_plan-Respects id (DecisionPlan.fails e) h = Respects-raise_error s.preorder e
  run_decision_plan-Respects id (DecisionPlan.calls_tool tool next) h =
      Respects-bind s.preorder _ _ (Respects-attempt s.preorder _ (s.called id tool))
        λ r. run_decision_plan-Respects id (next r) (h r)
  run_decision_plan-Respects id (DecisionPlan.requests next) h =
      Respects-bind s.preorder _ _ (Respects-attempt s.preorder _ (s.requested id))
        λ r. run_decision_plan-Respects id (next r) (h r)
  run_decision_plan-Respects id (DecisionPlan.records call next) (h, k) =
      Respects-bind s.preorder _ _ (Respects-attempt s.preorder _ (s.recorded id _ call h))
        λ r. run_decision_plan-Respects id (next r) (k r)
  run_decision_plan-Respects id (DecisionPlan.meanwhile request next) h =
      Respects-bind s.preorder _ _ (s.served request) λ _. run_decision_plan-Respects id next h

  after_intent_plan-Respects :
      (id : ℕ) (i : Text) (r : Result ExtractedIntent) → Respects R (after_intent_plan u id i r)
  unfolding after_intent_plan
  after_intent_plan-Respects id i (ok asked) = s.extracted id i _
  after_intent_plan-Respects id i (raise (planner_error code error_type)) = s.extracted id i _
  after_intent_plan-Respects id i (raise e) = s.failed id "extraction" e

  pub extract_intent-Respects :
      (id : ℕ) (planner : Text → IntentPlan)
      → ((i : Text) → IntentRecords P (planner i))
      → Respects R (extract_intent u id planner)
  unfolding extract_intent
  extract_intent-Respects id planner h =
      search
        (
          respects_rules, s.preorder, get_run-Respects, require_awaiting-Respects,
          run_intent_plan-Respects, h, after_intent_plan-Respects,
        )
        depth 12

  after_decision_plan-Respects :
      (id : ℕ) (r : Result DecisionProposal) → Respects R (after_decision_plan id r)
  unfolding after_decision_plan
  after_decision_plan-Respects id (ok x) = s.finished id x
  after_decision_plan-Respects id (raise (decision_stopped _)) =
      current_status-Respects s.preorder id
  after_decision_plan-Respects id (raise (planner_error code error_type)) =
      s.ended_planner id code error_type
  after_decision_plan-Respects id (raise e) = s.ended_unexpected id e

  pub decide-Respects :
      (id : ℕ) (planner : DecisionContext → DecisionPlan)
      → ((c : DecisionContext) → DecisionRecords P (planner c))
      → Respects R (decide u id planner)
  unfolding decide
  decide-Respects id planner h =
      search
        (
          respects_rules, s.preorder, s.started, run_decision_plan-Respects, h,
          after_decision_plan-Respects,
        )
        depth 12

  resolve_and_decide-Respects :
      (id : ℕ) (planner : DecisionContext → DecisionPlan)
      → ((c : DecisionContext) → DecisionRecords P (planner c))
      → Respects R (resolve_and_decide u id planner)
  unfolding resolve_and_decide decide_if
  resolve_and_decide-Respects id planner h =
      search (respects_rules, s.preorder, s.resolved, decide-Respects, h) depth 12

  pub run-Respects :
      (instruction actor : Text) (intent_planner : Text → IntentPlan)
      (decision_planner : DecisionContext → DecisionPlan)
      → ((i : Text) → IntentRecords P (intent_planner i))
      → ((c : DecisionContext) → DecisionRecords P (decision_planner c))
      → Respects R (run u instruction actor intent_planner decision_planner)
  unfolding run
  run-Respects instruction actor intent_planner decision_planner h k =
      search
        (
          respects_rules, s.preorder, s.received, extract_intent-Respects, h,
          resolve_and_decide-Respects, k,
        )
        depth 14

-- A planner may record anything.
pub any_intent : (x : IntentPlan) → IntentRecords (λ _. Unit) x
any_intent (IntentPlan.extracts intent) = tt
any_intent (IntentPlan.fails e) = tt
any_intent (IntentPlan.records call next) = (tt, λ r. any_intent (next r))
any_intent (IntentPlan.meanwhile request next) = any_intent next

pub any_decision : (x : DecisionPlan) → DecisionRecords (λ _. Unit) x
any_decision (DecisionPlan.concludes proposal) = tt
any_decision (DecisionPlan.fails e) = tt
any_decision (DecisionPlan.calls_tool tool next) = λ r. any_decision (next r)
any_decision (DecisionPlan.requests next) = λ r. any_decision (next r)
any_decision (DecisionPlan.records call next) = (tt, λ r. any_decision (next r))
any_decision (DecisionPlan.meanwhile request next) = any_decision next

module _ (P Q : ModelCallRecord → Type 0) (imply : (call : ModelCallRecord) → P call → Q call) where
  pub weaken_intent : (x : IntentPlan) → IntentRecords P x → IntentRecords Q x
  weaken_intent (IntentPlan.extracts intent) h = tt
  weaken_intent (IntentPlan.fails e) h = tt
  weaken_intent (IntentPlan.records call next) (h, k) =
      (imply call h, λ r. weaken_intent (next r) (k r))
  weaken_intent (IntentPlan.meanwhile request next) h = weaken_intent next h

  pub weaken_decision : (x : DecisionPlan) → DecisionRecords P x → DecisionRecords Q x
  weaken_decision (DecisionPlan.concludes proposal) h = tt
  weaken_decision (DecisionPlan.fails e) h = tt
  weaken_decision (DecisionPlan.calls_tool tool next) h = λ r. weaken_decision (next r) (h r)
  weaken_decision (DecisionPlan.requests next) h = λ r. weaken_decision (next r) (h r)
  weaken_decision (DecisionPlan.records call next) (h, k) =
      (imply call h, λ r. weaken_decision (next r) (k r))
  weaken_decision (DecisionPlan.meanwhile request next) h = weaken_decision next h
