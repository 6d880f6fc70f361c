-- ===== src/Agent/Completion.antt =====
-- src/app/agent/executor.py, `_end` and the status that is returned.
pub mod Verified
pub mod Ended
pub mod Finished
use saas_agent_lab.Common.{
  ℕ, ◌≡◌, refl, sym, ◌∙◌, subst, Bool, true, false, Option, none, some, is_some, List, [], ◌∷◌, any,
  where_, find, find-update_self, update, ap, if◌then◌else◌, arith, Bool-cases, inl, inr,
}
use saas_agent_lab.Errors.{Exc, agent_run_not_found}
use saas_agent_lab.Json.{Fields}
use saas_agent_lab.Models.{AgentRun, Assignment}
use saas_agent_lab.Models.Enums.{AgentRunStatus, OutcomeReason}
use saas_agent_lab.Repositories.AgentRuns
use saas_agent_lab.Repositories.AgentRuns.{run_key}
use saas_agent_lab.Repositories.Assignments as AssignmentRows
use saas_agent_lab.Repositories.Assignments.{is_active_for}
use saas_agent_lab.Schemas.Agent.{ResolvedAssignmentGoal, DecisionProposal, VerificationResult}
use saas_agent_lab.Services.Assignments.{get_active_assignment}
use saas_agent_lab.Agent.Verifier.{verify, snapshot?}
use saas_agent_lab.Agent.Executor.Runs.{ended, end_run, get_run, current_status}
use saas_agent_lab.Agent.History.Under.{Found}
use saas_agent_lab.Session.{
  Database, World, Exec, ⊤, Result, ok, raise, pure, lift, ◌>>=◌, or_raise, utcnow, one_or_none,
}
use saas_agent_lab.Session.Triples.{Holds, Ensures, ensures-bind, ensures-raise_if}

-- The user has the licence now.
abbrev pub Assigned : ResolvedAssignmentGoal → List Assignment → Type 0
Assigned goal rows = any (is_active_for goal.user_id goal.licence_id) rows ≡ true

some_eq : (x y : AgentRun) → some x ≡ some y → x ≡ y
some_eq x y h = cc

module _ (k : ℕ) (B : List Assignment → Type 0) where
  status_read :
      (r : AgentRun) (w : World) (o : Option AgentRun)
      → o ≡ some r
      → Found k r w.db
      → B w.db.assignments
      → Holds
          (λ s d. (s ≡ r.status) × Found k r d × B d.assignments)
          ((or_raise o (agent_run_not_found k) >>= λ x. pure x.status) w).0
          ((or_raise o (agent_run_not_found k) >>= λ x. pure x.status) w).1
  unfolding ◌>>=◌
  status_read r w none e found b = tt
  status_read r w (some x) e found b = (ap (λ y. y.status) (some_eq x r e), found, b)

  -- A read of the run's status, where its row is known.
  pub ensures-status :
      (r : AgentRun)
      → Ensures
          (λ d. Found k r d × B d.assignments)
          (current_status k)
          (λ s d. (s ≡ r.status) × Found k r d × B d.assignments)
  unfolding current_status get_run AgentRuns.get ◌>>=◌
  ensures-status r = record {
    at = λ w start. status_read r w (find run_key k w.db.agent_runs) start.0 start.0 start.1;
  }

  module _ (r : AgentRun) (s : AgentRunStatus) (reason : OutcomeReason)
      (detail : Option Fields) where
    -- The row after `_end`, at some time.
    abbrev pub EndedRow : Database → Type 0
    EndedRow d = (t : ℕ) × Found k (ended s reason detail t r) d × B d.assignments

    ensures-set :
        (t : ℕ)
        → r.id ≡ k
        → Ensures
            (λ d. Found k r d × B d.assignments)
            (AgentRuns.set_columns r.id (ended s reason detail t))
            (λ _ d. EndedRow d)
    unfolding AgentRuns.set_columns ◌>>=◌
    ensures-set t same = record {
      at = λ w start. (
        t,
        subst
            (λ j.
              find run_key k (update run_key j (ended s reason detail t) w.db.agent_runs)
              ≡ some (ended s reason detail t r))
            (sym same)
            (find-update_self run_key k (ended s reason detail t) w.db.agent_runs r same start.0),
        start.1,
      );
    }

    pub ensures-end_run :
        r.id ≡ k
        → Ensures
            (λ d. Found k r d × B d.assignments)
            (end_run r s reason detail)
            (λ _ d. EndedRow d)
    unfolding end_run utcnow
    ensures-end_run same = ensures-raise_if _ _ _ _ _ λ _.
        ensures-bind _ utcnow _ (λ _ d. Found k r d × B d.assignments) _ clock_read
          λ t. ensures-set t same
      where
        clock_read :
            Ensures
              (λ d. Found k r d × B d.assignments)
              utcnow
              (λ _ d. Found k r d × B d.assignments)
        clock_read = record { at = λ w start. start }
