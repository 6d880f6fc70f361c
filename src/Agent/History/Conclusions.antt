-- ===== src/Agent/History/Conclusions.antt =====
-- src/app/agent/executor.py, `_finish_decision`, against the order of runs: its transactions.
use saas_agent_lab.Common.{ℕ, ◌≡◌, refl, subst, Option, some, Bool, true, false, not, arith}
use saas_agent_lab.Models.{AgentRun}
use saas_agent_lab.Models.Checks.{
  goes_with, extraction_outcome_has_no_goal, resolved_ids_match_status,
}
use saas_agent_lab.Models.Enums.{AgentRunStatus, OutcomeReason, GoalType, is_executing}
use saas_agent_lab.Repositories.ToolCalls
use saas_agent_lab.Schemas.Agent.{DecisionProposal}
use saas_agent_lab.Agent.Decision.Outcomes.{is_conclusion, decision_outcome-Concludes}
use saas_agent_lab.Agent.Executor.Decide.{
  verifying_with, Concluded, record_proposal, Verified, verify_proposal, is_confirmed, end_verified,
  after_verification,
}
use saas_agent_lab.Agent.Reads.{
  persisted_goal-Respects, current_status-Respects, verify_proposal-Respects,
}
use saas_agent_lab.Agent.History.{IsWellFormed, RunsEvolve, RunsEvolve-preorder, can_follow}
use saas_agent_lab.Agent.History.Under.{
  Under, SameRuns-preorder, Under-of_Respects, Respects-get_run, Under-raise_if, Under-same,
  Under-bind, Under-set,
}
use saas_agent_lab.Agent.History.Rereads.{Always, Under-get_run, Under-transaction, Under-attempt}
use saas_agent_lab.Agent.History.Endings.{CanEnd, Under-end_run}
use saas_agent_lab.Agent.History.Moves.{verifying-Step}
use saas_agent_lab.Agent.History.Steps.{fail-evolves, any_started-SameRuns}
use saas_agent_lab.Session.{Exec, Result, ok, raise, ◌>>=◌, lift, attempt}
use saas_agent_lab.Session.Respects.{Respects, respects_rules, Respects-transaction}
use saas_agent_lab.Session.Triples.{ensures-all}

abbrev pub is_verifying : AgentRunStatus → Bool
is_verifying AgentRunStatus.verifying = true
is_verifying _ = false

conclusion_leads :
    (s t : AgentRunStatus) → is_verifying s ≡ true → is_conclusion t ≡ true → can_follow s t ≡ true
conclusion_leads s t h k = ground arith

conclusion_ids :
    (s t : AgentRunStatus) (user : Option ℕ)
    → is_verifying s ≡ true
    → is_conclusion t ≡ true
    → resolved_ids_match_status s user ≡ true
    → resolved_ids_match_status t user ≡ true
conclusion_ids s t user h k m = ground arith

conclusion_goal :
    (t : AgentRunStatus) (reason : OutcomeReason) (goal : Option GoalType)
    → is_conclusion t ≡ true
    → goes_with t reason ≡ true
    → extraction_outcome_has_no_goal (some reason) goal ≡ true
conclusion_goal t OutcomeReason.unsupported_request goal h k = ground arith
conclusion_goal t OutcomeReason.instruction_unclear goal h k = ground arith
conclusion_goal t _ goal h k = refl

can_conclude :
    (r : AgentRun) (t : AgentRunStatus) (reason : OutcomeReason)
    → is_verifying r.status ≡ true
    → is_conclusion t ≡ true
    → goes_with t reason ≡ true
    → IsWellFormed r
    → CanEnd r t reason
can_conclude r t reason h k fits fine = record {
  fits = fits;
  leads = conclusion_leads r.status t h k;
  ids = conclusion_ids r.status t r.resolved_user_id h k fine.ids_match;
  goal = conclusion_goal t reason r.goal_type k fits;
}

pub ok_eq : {A : Type 0} → (x y : A) → Result.ok x ≡ Result.ok y → y ≡ x
ok_eq x y h = cc

module _ {A B : Type 0} where
  Under-lift :
      (k : ℕ) (r : AgentRun) (o : Result A) (a : A) (f : A → Exec B)
      → o ≡ ok a
      → Under k r (f a)
      → Under k r (lift o >>= f)
  unfolding ◌>>=◌
  Under-lift k r (raise e) a f same h = absurd (cc)
  Under-lift k r (ok b) a f same h = record {
    at = λ w found. subst (λ x. RunsEvolve w.db (f x w).1.db) (ok_eq b a same) (h.at w found);
  }

module _ (r : AgentRun) (verifying : is_verifying r.status ≡ true) where
  end_verified-Under :
      (p : DecisionProposal) (c : Concluded) (v : Verified) → Under r.id r (end_verified r.id p c v)
  unfolding end_verified
  end_verified-Under p c (result, checked) =
      let (outcome, same, conclusion) =
        decision_outcome-Concludes p result.satisfied c.changed c.attempted
          (is_confirmed checked) in
      Under-lift r.id r _ outcome _ same (
        Under-transaction r.id r _ (
          Under-get_run r.id r _ (
            Under-bind r.id r _ _
              (Under-end_run r r outcome.0 outcome.1 _ refl λ fine open_.
                can_conclude r outcome.0 outcome.1 verifying conclusion.concluded conclusion.fits
                  fine)
              λ _. current_status-Respects RunsEvolve-preorder r.id)))

  pub after_verification-Under :
      (p : DecisionProposal) (c : Concluded)
      → Under r.id r (attempt (verify_proposal c.goal p) >>= after_verification r.id p c)
  unfolding after_verification
  after_verification-Under p c =
      Under-attempt r.id r (λ _. Unit) (after_verification r.id p c) (verify_proposal c.goal p)
        (verify_proposal-Respects SameRuns-preorder c.goal p) (ensures-all Always _ _ (λ a d. tt))
        (λ e. Under-of_Respects r.id r _ (fail-evolves r.id _)) λ v _. end_verified-Under p c v

pub not-false : (b : Bool) → not b ≡ false → b ≡ true
not-false b h = ground arith

pub record_proposal-evolves :
    (id : ℕ) (p : DecisionProposal) → Respects RunsEvolve (record_proposal id p)
unfolding record_proposal ToolCalls.any_succeeded ToolCalls.latest_for_tools
record_proposal-evolves id p = Respects-transaction RunsEvolve-preorder _ (
    Respects-get_run id _ λ r. Under-raise_if r.id r _ _ _ λ executing.
      Under-same r.id r _ _ (any_started-SameRuns r.id) λ unfinished.
        Under-raise_if r.id r _ _ _ λ _.
          Under-bind r.id r _ _
            (Under-set r.id r (verifying_with p) (λ x. refl)
              (verifying-Step r p (not-false (is_executing r.status) executing)))
            λ _. search (respects_rules, RunsEvolve-preorder, persisted_goal-Respects) depth 8)
