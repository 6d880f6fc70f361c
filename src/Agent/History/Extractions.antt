-- ===== src/Agent/History/Extractions.antt =====
-- src/app/agent/executor.py, `receive_run` and `extract_intent`, against the order of runs.
use saas_agent_lab.Common.{
  ℕ, ◌≡◌, refl, Bool, true, false, not, ◌&&◌, List, [], ◌∷◌, String, is_some, is_none, arith,
}
use saas_agent_lab.Text.{Text, Unicode}
use saas_agent_lab.Models.{AgentRun}
use saas_agent_lab.Models.Checks.{goes_with}
use saas_agent_lab.Models.Enums.{AgentRunStatus, OutcomeReason, is_received}
use saas_agent_lab.Repositories.AgentRuns
use saas_agent_lab.Repositories.AgentRuns.{run_key}
use saas_agent_lab.Schemas.Agent.{EnsureAssignmentIntent, ExtractedIntent}
use saas_agent_lab.Agent.Planner.{ungrounded_fields}
use saas_agent_lab.Agent.Executor.Runs.{end_run, extracted_text, require_awaiting_extraction}
use saas_agent_lab.Agent.Executor.Extraction.{
  Extraction, intent, failed, with_goal, record_goal, record_extraction, finish_extraction,
  receive_run,
}
use saas_agent_lab.Agent.Reads.{current_status-Respects}
use saas_agent_lab.Agent.History.{IsWellFormed, RunsEvolve, RunsEvolve-preorder}
use saas_agent_lab.Agent.History.Updates.{inserted}
use saas_agent_lab.Agent.History.Under.{
  Under, Respects-get_run, Under-raise_if, Under-bind, Under-set,
}
use saas_agent_lab.Agent.History.Endings.{can_fail, Under-end_run}
use saas_agent_lab.Agent.History.Moves.{with_goal-Step, can_clarify}
use saas_agent_lab.Session.{◌>>=◌}
use saas_agent_lab.Session.Respects.{Respects, respects_rules, Respects-transaction}

new_run-evolves : (i a : Text) → Respects RunsEvolve (AgentRuns.add i a AgentRunStatus.received)
unfolding AgentRuns.add ◌>>=◌
new_run-evolves i a = record {
  at = λ w. inserted w.db _ _ refl (record {
    checks = record {
      ids_together = refl;
      columns_together = refl;
      ids_need_goal = refl;
      no_goal = refl;
      ids_match = refl;
      completed_iff = refl;
      outcome_matches = refl;
      context_resolved = refl;
      proposal_context = refl;
      reason_matches = refl;
    };
    context_late = refl;
    context_told = refl;
    proposal_late = refl;
  });
}

pub receive_run-evolves : (u : Unicode) (i a : Text) → Respects RunsEvolve (receive_run u i a)
unfolding receive_run
receive_run-evolves u i a = search (respects_rules, RunsEvolve-preorder, new_run-evolves) depth 8

module _ (r : AgentRun) (received : is_received r.status ≡ true)
    (no_text : is_some (extracted_text r) ≡ false) where
  no_goal : IsWellFormed r → is_none r.goal_type ≡ true
  no_goal fine = ground (arith, fine.columns_together, no_text)

  clarify-Under :
      (reason : OutcomeReason) (d : _)
      → goes_with AgentRunStatus.needs_clarification reason ≡ true
      → Under r.id r (end_run r AgentRunStatus.needs_clarification reason d)
  clarify-Under reason d fits =
      Under-end_run r r AgentRunStatus.needs_clarification reason d refl
        λ fine open_. can_clarify r reason received fits (ground (arith, no_goal fine)) fine

  planner_failed-Under :
      (d : _) → Under r.id r (end_run r AgentRunStatus.failed OutcomeReason.planner_error d)
  planner_failed-Under d =
      Under-end_run r r AgentRunStatus.failed OutcomeReason.planner_error d refl
        (can_fail r OutcomeReason.planner_error refl)

  record_goal-Under :
      (asked : EnsureAssignmentIntent) (missing : List String)
      → Under r.id r (record_goal r asked missing)
  unfolding record_goal
  record_goal-Under asked [] =
      Under-set r.id r (with_goal asked) (λ x. refl) (with_goal-Step r asked received no_text)
  record_goal-Under asked (n ∷ names) = planner_failed-Under _

  record_extraction-Under :
      (u : Unicode) (i : Text) (e : Extraction) → Under r.id r (record_extraction u r i e)
  unfolding record_extraction
  record_extraction-Under u i (intent (ExtractedIntent.ensure_assignment asked)) =
      record_goal-Under asked (ungrounded_fields u asked i)
  record_extraction-Under u i (intent (ExtractedIntent.needs_clarification code)) =
      clarify-Under OutcomeReason.instruction_unclear _ refl
  record_extraction-Under u i (intent (ExtractedIntent.unsupported code)) =
      clarify-Under OutcomeReason.unsupported_request _ refl
  record_extraction-Under u i (failed code error_type) = planner_failed-Under _

awaiting : (a b : Bool) → not (a && not b) ≡ false → (a ≡ true) × (b ≡ false)
awaiting a b h = ground arith

pub finish_extraction-evolves :
    (u : Unicode) (id : ℕ) (i : Text) (e : Extraction)
    → Respects RunsEvolve (finish_extraction u id i e)
unfolding finish_extraction require_awaiting_extraction
finish_extraction-evolves u id i e = Respects-transaction RunsEvolve-preorder _ (
    Respects-get_run id _ λ r. Under-raise_if r.id r _ _ _ λ passed.
      let both_ = awaiting (is_received r.status) (is_some (extracted_text r)) passed in
      Under-bind r.id r _ _ (record_extraction-Under r both_.0 both_.1 u i e)
        λ _. current_status-Respects RunsEvolve-preorder id)
