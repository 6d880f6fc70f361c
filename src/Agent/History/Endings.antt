-- ===== src/Agent/History/Endings.antt =====
-- src/app/agent/executor.py, `_end` and the trace counter, against the order of runs.
use saas_agent_lab.Common.{
  ℕ, ◌+◌, ◌≡◌, refl, ◌∙◌, Option, none, some, find, find-update_self, update, arith, Bool, true,
  false, is_some, is_none, not, ◌||◌,
}
use saas_agent_lab.Errors.{other}
use saas_agent_lab.Json.{Fields}
use saas_agent_lab.Models.{AgentRun}
use saas_agent_lab.Models.Checks.{
  goes_with, is_terminal, resolved_ids_match_status, extraction_outcome_has_no_goal,
}
use saas_agent_lab.Models.Enums.{AgentRunStatus, OutcomeReason}
use saas_agent_lab.Repositories.AgentRuns
use saas_agent_lab.Repositories.AgentRuns.{run_key, count_step}
use saas_agent_lab.Agent.Executor.Runs.{end_run, ended}
use saas_agent_lab.Agent.History.{
  IsWellFormed, has_started, has_concluded, is_deciding, Evolves, Evolves-refl, RunsEvolve,
  RunsEvolve-preorder, can_follow,
}
use saas_agent_lab.Agent.History.Updates.{updated}
use saas_agent_lab.Agent.History.Under.{
  Found, Under, SameRuns-preorder, Under-raise_if, Under-same, Under-set,
}
use saas_agent_lab.Session.{Database, World, Exec, pure, ◌>>=◌, ◌>>◌, or_raise, utcnow}
use saas_agent_lab.Session.Respects.{Respects, Respects-utcnow}

-- What an ending needs of the run that it ends.
pub record CanEnd (r : AgentRun) (s : AgentRunStatus) (reason : OutcomeReason) : Type 0 where
  pub fits : goes_with s reason ≡ true
  pub leads : can_follow r.status s ≡ true
  pub ids : resolved_ids_match_status s r.resolved_user_id ≡ true
  pub goal : extraction_outcome_has_no_goal (some reason) r.goal_type ≡ true

goes_with-terminal :
    (s : AgentRunStatus) (reason : OutcomeReason) → goes_with s reason ≡ true → is_terminal s ≡ true
goes_with-terminal AgentRunStatus.received reason h = cc
goes_with-terminal _ reason h = ground arith

started_still :
    (s t : AgentRunStatus) (b : Bool)
    → can_follow s t ≡ true
    → is_terminal t ≡ true
    → b || has_started s ≡ true
    → b || has_started t ≡ true
started_still s t true h k l = refl
started_still s t false h k l = ground arith

terminal_told :
    (s : AgentRunStatus) (b : Bool) → is_terminal s ≡ true → not (is_deciding s) || b ≡ true
terminal_told s b h = ground arith

concluded_still :
    (s t : AgentRunStatus) (b : Bool)
    → can_follow s t ≡ true
    → is_terminal t ≡ true
    → b || has_concluded s ≡ true
    → b || has_concluded t ≡ true
concluded_still s t true h k l = refl
concluded_still s t false h k l = ground arith

not_ended : (r : AgentRun) → r.completed_at ≡ none → is_some r.completed_at ≡ true → ⊥
not_ended r h k = ground arith

ended_step :
    (r : AgentRun) (s : AgentRunStatus) (reason : OutcomeReason) (detail : Option Fields) (t : ℕ)
    → CanEnd r s reason
    → r.completed_at ≡ none
    → IsWellFormed r
    → Evolves r (ended s reason detail t r) × IsWellFormed (ended s reason detail t r)
ended_step r s reason detail t c open_ ok =
    let e = Evolves-refl r in
    (
      record {
        same_id = refl;
        same_instruction = refl;
        same_actor = refl;
        leads = c.leads;
        keeps_email = e.keeps_email;
        keeps_product = e.keeps_product;
        keeps_user = e.keeps_user;
        keeps_licence = e.keeps_licence;
        keeps_context = e.keeps_context;
        counted = omega arith;
        frozen = λ h. absurd (not_ended r open_ h);
      },
      record {
        checks = record {
          ids_together = ok.ids_together;
          columns_together = ok.columns_together;
          ids_need_goal = ok.ids_need_goal;
          no_goal = c.goal;
          ids_match = c.ids;
          completed_iff = rw (goes_with-terminal s reason c.fits);
          outcome_matches = c.fits;
          context_resolved = ok.context_resolved;
          proposal_context = ok.proposal_context;
          reason_matches = ok.reason_matches;
        };
        context_late =
            started_still r.status s (is_none r.decision_context) c.leads
              (goes_with-terminal s reason c.fits) ok.context_late;
        context_told =
            terminal_told s (is_some r.decision_context) (goes_with-terminal s reason c.fits);
        proposal_late =
            concluded_still r.status s (is_none r.decision_proposal) c.leads
              (goes_with-terminal s reason c.fits) ok.proposal_late;
      },
    )

-- Any run that has not ended can fail.
pub can_fail :
    (r : AgentRun) (reason : OutcomeReason)
    → goes_with AgentRunStatus.failed reason ≡ true
    → IsWellFormed r
    → r.completed_at ≡ none
    → CanEnd r AgentRunStatus.failed reason
can_fail r reason fits ok open_ = record {
  fits = fits;
  leads = open_leads r.status (open_status r ok open_);
  ids = refl;
  goal = ground arith;
}
  where
    open_status :
        (x : AgentRun) → IsWellFormed x → x.completed_at ≡ none → is_terminal x.status ≡ false
    open_status x o h = ground (arith, o.completed_iff)

    open_leads :
        (s : AgentRunStatus) → is_terminal s ≡ false → can_follow s AgentRunStatus.failed ≡ true
    open_leads s h = ground arith

-- `_end`, called with the run as it was read: the row may have counted a step since.
pub Under-end_run :
    (r row : AgentRun) (s : AgentRunStatus) (reason : OutcomeReason) (detail : Option Fields)
    → row.completed_at ≡ r.completed_at
    → (IsWellFormed row → row.completed_at ≡ none → CanEnd row s reason)
    → Under r.id row (end_run r s reason detail)
unfolding end_run
Under-end_run r row s reason detail same can =
    Under-raise_if r.id row (is_some r.completed_at) _ _ λ still_open.
      Under-same r.id row utcnow _ (Respects-utcnow SameRuns-preorder) λ t.
        Under-set r.id row (ended s reason detail t) (λ x. refl)
          λ ok.
            let open_ = same ∙ open_column r still_open in
            ended_step row s reason detail t (can ok open_) open_ ok
  where
    open_column : (x : AgentRun) → is_some x.completed_at ≡ false → x.completed_at ≡ none
    open_column x h = ground arith

-- The trace counter moves, and nothing else.
count_step-step :
    (r : AgentRun) → IsWellFormed r → Evolves r (count_step r) × IsWellFormed (count_step r)
count_step-step r ok =
    let e = Evolves-refl r in
    (
      record {
        same_id = refl;
        same_instruction = refl;
        same_actor = refl;
        leads = e.leads;
        keeps_email = e.keeps_email;
        keeps_product = e.keeps_product;
        keeps_user = e.keeps_user;
        keeps_licence = e.keeps_licence;
        keeps_context = e.keeps_context;
        counted = omega arith;
        frozen = λ h. refl;
      },
      record {
        checks = record {
          ids_together = ok.ids_together;
          columns_together = ok.columns_together;
          ids_need_goal = ok.ids_need_goal;
          no_goal = ok.no_goal;
          ids_match = ok.ids_match;
          completed_iff = ok.completed_iff;
          outcome_matches = ok.outcome_matches;
          context_resolved = ok.context_resolved;
          proposal_context = ok.proposal_context;
          reason_matches = ok.reason_matches;
        };
        context_late = ok.context_late;
        context_told = ok.context_told;
        proposal_late = ok.proposal_late;
      },
    )

abbrev counted : ℕ → Database → Database
counted k d = record d { agent_runs = update run_key k count_step d.agent_runs }

counted-evolves : (k : ℕ) (d : Database) → RunsEvolve d (counted k d)
counted-evolves k d =
    updated d (counted k d) k count_step (λ x. refl) refl (λ r found ok. count_step-step r ok)

-- `next_sequence_no`, by what the query found.
abbrev next_after : ℕ → Option AgentRun → Exec ℕ
next_after k row = do
  run ← or_raise row (other "NoResultFound")
  AgentRuns.set_columns k count_step
  pure (run.last_sequence_no + 1)

next_after-evolves :
    (k : ℕ) (row : Option AgentRun) (w : World) → RunsEvolve w.db (next_after k row w).1.db
unfolding AgentRuns.set_columns ◌>>=◌
next_after-evolves k none w = RunsEvolve-preorder.same w.db
next_after-evolves k (some r) w = counted-evolves k w.db

pub next_sequence_no-evolves : (k : ℕ) → Respects RunsEvolve (AgentRuns.next_sequence_no k)
unfolding AgentRuns.next_sequence_no ◌>>=◌
next_sequence_no-evolves k = record {
  at = λ w. next_after-evolves k (find run_key k w.db.agent_runs) w;
}

module _ {A : Type 0} (r : AgentRun) (f : ℕ → Exec A)
    (rest : (n : ℕ) → Under r.id (count_step r) (f n)) where
  next-Found :
      (w : World) (row : Option AgentRun)
      → row ≡ some r
      → Found r.id r w.db
      → RunsEvolve w.db ((next_after r.id row >>= f) w).1.db
  unfolding AgentRuns.set_columns ◌>>=◌
  next-Found w none e found = absurd (cc)
  next-Found w (some s) e found =
      RunsEvolve-preorder.then_ w.db (counted r.id w.db) _ (counted-evolves r.id w.db) (
        (rest (s.last_sequence_no + 1)).at (record w { db = counted r.id w.db })
          (find-update_self run_key r.id count_step w.db.agent_runs r refl found))

  -- `sequence_no = next_sequence_no(run.id)`, and the rest of the step.
  pub Under-next : Under r.id r (AgentRuns.next_sequence_no r.id >>= f)
  unfolding AgentRuns.next_sequence_no ◌>>=◌
  Under-next = record {
    at = λ w found. next-Found w (find run_key r.id w.db.agent_runs) found found;
  }
