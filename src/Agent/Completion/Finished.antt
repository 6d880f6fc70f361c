-- ===== src/Agent/Completion/Finished.antt =====
-- The whole of `_finish_decision`: from the goal that the run records to what `completed` means.
use saas_agent_lab.Common.{
  ℕ, ◌≡◌, sym, subst, Option, none, some, find, find-update_self, update, arith,
}
use saas_agent_lab.Text.{Text}
use saas_agent_lab.Models.{AgentRun}
use saas_agent_lab.Repositories.AgentRuns
use saas_agent_lab.Repositories.AgentRuns.{run_key}
use saas_agent_lab.Repositories.ToolCalls
use saas_agent_lab.Schemas.Agent.{ResolvedAssignmentGoal, DecisionProposal}
use saas_agent_lab.Agent.Executor.Runs.{extracted_text, goal_of, persisted_goal}
use saas_agent_lab.Agent.Executor.Decide.{
  verifying_with, record_proposal, after_verification, finish_decision,
}
use saas_agent_lab.Agent.History.Under.{Found}
use saas_agent_lab.Agent.History.Rereads.{Always}
use saas_agent_lab.Agent.History.Proposals.{ensures-get_run}
use saas_agent_lab.Agent.Completion.Verified.{
  Known, IfCompleted, verify_proposal-Checked, unchanged,
}
use saas_agent_lab.Agent.Completion.Ended.{fail-IfCompleted, end_verified-IfCompleted}
use saas_agent_lab.Session.{Database, pure, ◌>>=◌}
use saas_agent_lab.Session.Respects.{respects_rules}
use saas_agent_lab.Session.Triples.{
  Ensures, ensures-bind, ensures-transaction, ensures-raise_if, ensures-read, ensures-or_raise,
  ensures-attempt, ensures-weaken,
}

goal_ids :
    (t : Option (Text × Text)) (user licence : Option ℕ) (goal : ResolvedAssignmentGoal)
    → goal_of t user licence ≡ some goal
    → (user ≡ some goal.user_id) × (licence ≡ some goal.licence_id)
goal_ids none user licence goal h = absurd (cc)
goal_ids (some t) none licence goal h = absurd (cc)
goal_ids (some t) (some u) none goal h = absurd (cc)
goal_ids (some (e, p)) (some u) (some l) goal h = ground arith

module _ (id : ℕ) (p : DecisionProposal) where
  -- The row after the proposal is recorded.
  abbrev Row : AgentRun → Database → Type 0
  Row r d = Found id (verifying_with p r) d

  set-Row :
      (r : AgentRun)
      → r.id ≡ id
      → Ensures (Found id r) (AgentRuns.set_columns r.id (verifying_with p)) (λ _ d. Row r d)
  unfolding AgentRuns.set_columns ◌>>=◌
  set-Row r same = record {
    at = λ w found.
        subst
          (λ k.
            find run_key id (update run_key k (verifying_with p) w.db.agent_runs)
            ≡ some (verifying_with p r))
          (sym same) (find-update_self run_key id (verifying_with p) w.db.agent_runs r same found);
  }

  record_proposal-Known : Ensures Always (record_proposal id p) (λ c d. Known id c.goal d)
  unfolding record_proposal persisted_goal ToolCalls.any_started ToolCalls.any_succeeded
      ToolCalls.latest_for_tools pure
  record_proposal-Known = ensures-transaction Always _ _ (
      ensures-get_run id _ _ λ r same. ensures-raise_if (Found id r) _ _ _ _ λ _.
        ensures-bind (Found id r) _ _ (λ _ d. Found id r d) _
          (ensures-read (Found id r) _ (search (respects_rules, unchanged)))
          λ unfinished. ensures-raise_if (Found id r) _ _ _ _ λ _.
            ensures-bind (Found id r) _ _ (λ _ d. Row r d) _ (set-Row r same)
              λ _. ensures-or_raise (Row r) _ _ _ _ λ goal is_goal.
                ensures-bind (Row r) _ _ (λ _ d. Row r d) _
                  (ensures-read (Row r) _ (search (respects_rules, unchanged)))
                  λ changed.
                    ensures-bind (Row r) _ _ (λ _ d. Row r d) _
                      (ensures-read (Row r) _ (search (respects_rules, unchanged)))
                      λ attempted.
                        let ids =
                          goal_ids (extracted_text r) r.resolved_user_id r.resolved_licence_id goal
                            is_goal in
                        record { at = λ w found. (verifying_with p r, found, same, ids.0, ids.1) })

  -- If the conclusion of a run returns `completed`, the run is recorded with a goal, the ids of a user
  -- and a licence, and in the tables that are then committed that user has that licence.
  pub finish_decision-IfCompleted : Ensures Always (finish_decision id p) (IfCompleted id)
  unfolding finish_decision after_verification
  finish_decision-IfCompleted =
      ensures-bind Always _ _ (λ c d. Known id c.goal d) _ record_proposal-Known
        λ c.
          ensures-attempt (λ d. Known id c.goal d) _ _ _ _
            (ensures-weaken _ _ (λ v d h. h) _ _ _ (λ d h. h)
              (verify_proposal-Checked c.goal (Known id c.goal) p))
            (λ v. end_verified-IfCompleted id p c v) (λ e. fail-IfCompleted id _)
