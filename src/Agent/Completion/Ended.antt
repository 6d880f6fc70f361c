-- ===== src/Agent/Completion/Ended.antt =====
-- src/app/agent/executor.py, how `_finish_decision` ends a run.
use saas_agent_lab.Common.{
  ℕ, ◌≡◌, sym, ◌∙◌, subst, ap, Bool, true, Option, none, some, find, arith, List,
}
use saas_agent_lab.Json.{Fields}
use saas_agent_lab.Errors.{agent_run_not_found}
use saas_agent_lab.Models.{AgentRun, Assignment}
use saas_agent_lab.Models.Enums.{AgentRunStatus, OutcomeReason}
use saas_agent_lab.Repositories.AgentRuns
use saas_agent_lab.Repositories.AgentRuns.{run_key}
use saas_agent_lab.Schemas.Agent.{ResolvedAssignmentGoal, DecisionProposal}
use saas_agent_lab.Agent.Decision.{decision_outcome}
use saas_agent_lab.Agent.Decision.Outcomes.{is_completed, decision_outcome-Concludes}
use saas_agent_lab.Agent.Executor.Runs.{ended, end_run, get_run, current_status, fail}
use saas_agent_lab.Agent.Executor.Decide.{
  blocking_rejection, Concluded, Verified, is_confirmed, end_verified,
}
use saas_agent_lab.Agent.History.Under.{Found, some_eq}
use saas_agent_lab.Agent.History.Rereads.{Always}
use saas_agent_lab.Agent.History.Conclusions.{}
use saas_agent_lab.Agent.History.Proposals.{ensures-get_run}
use saas_agent_lab.Agent.Completion.{Assigned, EndedRow, ensures-status, ensures-end_run}
use saas_agent_lab.Agent.Completion.Verified.{Known, IfCompleted}
use saas_agent_lab.Session.{Database, World, Exec, Result, ok, ◌>>=◌, or_raise}
use saas_agent_lab.Session.Triples.{
  Holds, Ensures, ensures-bind, ensures-transaction, ensures-weaken, ensures-lift,
}

module _ (id : ℕ) where
  module _ (B : List Assignment → Type 0) (r : AgentRun) (same : r.id ≡ id) where
    -- The run is ended, and its new status returned.
    ended-status :
        (s : AgentRunStatus) (reason : OutcomeReason) (detail : Option Fields)
        → Ensures
            (λ d. Found id r d × B d.assignments)
            (end_run r s reason detail >>= λ _. current_status id)
            (λ st d. (st ≡ s) × EndedRow id B r s reason detail d)
    ended-status s reason detail =
        ensures-bind _ _ _ (λ _ d. EndedRow id B r s reason detail d) _
          (ensures-end_run id B r s reason detail same)
          λ _. record { at = λ w (t, found, b). (at_time t).at w (found, b) }
      where
        at_time :
            (t : ℕ)
            → Ensures
                (λ d. Found id (ended s reason detail t r) d × B d.assignments)
                (current_status id)
                (λ st d. (st ≡ s) × EndedRow id B r s reason detail d)
        at_time t =
            ensures-weaken _ _ (λ st d (e, found, b). (e, (t, found, b))) _ _ _ (λ d h. h)
              (ensures-status id B (ended s reason detail t r))

  module _ {A : Type 0} (S : A → Database → Type 0) (B : List Assignment → Type 0)
      (r : AgentRun) where
    same_row :
        (f : AgentRun → Exec A) (w : World) (o : Option AgentRun)
        → o ≡ some r
        → Found id r w.db × B w.db.assignments
        → Ensures (λ d. Found id r d × B d.assignments) (f r) S
        → Holds S
            ((or_raise o (agent_run_not_found id) >>= f) w).0
            ((or_raise o (agent_run_not_found id) >>= f) w).1
    unfolding ◌>>=◌
    same_row f w none e h k = tt
    same_row f w (some x) e h k =
        subst (λ y. Holds S (f y w).0 (f y w).1) (sym (some_eq x r e)) (k.at w h)

    reread :
        (f : AgentRun → Exec A)
        → Ensures (λ d. Found id r d × B d.assignments) (f r) S
        → Ensures (λ d. Found id r d × B d.assignments) (get_run id >>= f) S
    unfolding get_run AgentRuns.get ◌>>=◌
    reread f k = record { at = λ w h. same_row f w (find run_key id w.db.agent_runs) h.0 h k }

  not_completed : (s : AgentRunStatus) → s ≡ AgentRunStatus.failed → is_completed s ≡ true → ⊥
  not_completed s e h = ground arith

  pub fail-IfCompleted : (d : Fields) → Ensures Always (fail id d) (IfCompleted id)
  unfolding fail
  fail-IfCompleted detail = ensures-transaction Always _ _ (
      ensures-get_run id _ _ λ r same.
        ensures-weaken _ _ (λ s d h completed. absurd (not_completed s h.0 completed)) _ _ _
          (λ d found. (found, tt))
          (ended-status (λ _. Unit) r same AgentRunStatus.failed OutcomeReason.unexpected_error
            (some detail)))

  module _ (goal : ResolvedAssignmentGoal) (satisfied : Bool) where
    abbrev pub Judged : List Assignment → Type 0
    Judged rows = satisfied ≡ true → Assigned goal rows

    outcome_status :
        (o x : AgentRunStatus × OutcomeReason) (n : Result (AgentRunStatus × OutcomeReason))
        → n ≡ ok o
        → n ≡ ok x
        → is_completed x.0 ≡ satisfied
        → is_completed o.0 ≡ satisfied
    outcome_status o x n e f h = cc

    concluded-IfCompleted :
        (r : AgentRun) (outcome : AgentRunStatus × OutcomeReason) (detail : Option Fields)
        → r.id ≡ id
        → r.resolved_user_id ≡ some goal.user_id
        → r.resolved_licence_id ≡ some goal.licence_id
        → is_completed outcome.0 ≡ satisfied
        → Ensures
            (λ d. Found id r d × Judged d.assignments)
            (end_run r outcome.0 outcome.1 detail >>= λ _. current_status id)
            (IfCompleted id)
    concluded-IfCompleted r outcome detail same user licence e =
        ensures-weaken _ _
          (λ s d h completed.
            let (at_s, ended_row) = h in
            let (t, found, judged) = ended_row in
            (
              goal,
              (ended outcome.0 outcome.1 detail t r, found, same, user, licence),
              judged (sym e ∙ (ap is_completed (sym at_s) ∙ completed)),
            ))
          _ _ _ (λ d h. h) (ended-status Judged r same outcome.0 outcome.1 detail)

  pub end_verified-IfCompleted :
      (p : DecisionProposal) (c : Concluded) (v : Verified)
      → Ensures
          (λ d. Known id c.goal d × Judged c.goal v.0.satisfied d.assignments)
          (end_verified id p c v)
          (IfCompleted id)
  unfolding end_verified
  end_verified-IfCompleted p c (result, checked) = ensures-lift _ _ _ _ λ outcome is_outcome.
      ensures-transaction _ _ _ (record {
        at = λ w ((r, found, same, user, licence), judged).
            (reread (IfCompleted id) (Judged c.goal result.satisfied) r _ (
                concluded-IfCompleted c.goal result.satisfied r outcome _ same user licence
                  (outcome_of_verified p c result.satisfied checked outcome is_outcome))).at
              w (found, judged);
      })
    where
      outcome_of_verified :
          (p : DecisionProposal) (c : Concluded) (satisfied : Bool) (checked : _)
          (outcome : AgentRunStatus × OutcomeReason)
          → decision_outcome p satisfied c.changed
              (blocking_rejection c.attempted)
              (is_confirmed checked)
            ≡ ok outcome
          → is_completed outcome.0 ≡ satisfied
      outcome_of_verified p c satisfied checked outcome e =
          let (x, at_x, h) =
            decision_outcome-Concludes p satisfied c.changed c.attempted (is_confirmed checked) in
          outcome_status c.goal satisfied outcome x _ e at_x h.verified
