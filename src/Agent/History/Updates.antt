-- ===== src/Agent/History/Updates.antt =====
-- How the tables evolve under one update of a run, one insert, or a change of other tables.
use saas_agent_lab.Common.{
  ℕ, ◌≡◌, ◌∙◌, some, [], ◌∷◌, ◌++◌, inl, inr, All, All-append, All-update, All-find, find, update,
  find-update_self, find-update_ne, find-append_some, find-key, arith, ◌==◌, Bool-cases, true,
  false, ◌≢◌,
}
use saas_agent_lab.Models.{AgentRun}
use saas_agent_lab.Repositories.AgentRuns.{run_key}
use saas_agent_lab.Session.{Database}
use saas_agent_lab.Agent.History.{IsWellFormed, Evolves, Evolves-refl, RunsEvolve}

-- A statement that leaves `agent_runs` alone.
pub same_runs : (d e : Database) → e.agent_runs ≡ d.agent_runs → RunsEvolve d e
same_runs d e h = record {
  evolve =
      λ checks. record { checks = rw h checks; row = λ k r found. (r, rw h found, Evolves-refl r) };
}

module _ (d e : Database) (k : ℕ) (f : AgentRun → AgentRun)
    (keeps_id : (r : AgentRun) → (f r).id ≡ r.id)
    (written : e.agent_runs ≡ update run_key k f d.agent_runs)
    (step : (r : AgentRun)
      → find run_key k d.agent_runs ≡ some r
      → IsWellFormed r
      → Evolves r (f r) × IsWellFormed (f r)) where
  updated_row :
      All IsWellFormed d.agent_runs
      → (j : ℕ) (r : AgentRun) → find run_key j d.agent_runs ≡ some r
      → (s : AgentRun) × (find run_key j e.agent_runs ≡ some s) × Evolves r s
  updated_row checks j r found = elim (Bool-cases (k == j)) [
    | inl same ↦
        let at_k : find run_key k d.agent_runs ≡ some r = rw (equal same) found in
        (
          f r,
          rw (← equal same) (
              rw written (
                find-update_self run_key k f d.agent_runs r
                  (keeps_id r ∙ find-key run_key k d.agent_runs r at_k) at_k)),
          (step r at_k (All-find run_key IsWellFormed k d.agent_runs r checks at_k)).0,
        )
    | inr other ↦ (
      r,
      rw written (find-update_ne run_key k j f d.agent_runs keeps_id (different other) ∙ found),
      Evolves-refl r,
    )
  ]
    where
      equal : k == j ≡ true → k ≡ j
      equal h = ground arith

      different : k == j ≡ false → k ≢ j
      different h = ground arith

  -- One `UPDATE` of one run.
  pub updated : RunsEvolve d e
  updated = record {
    evolve = λ checks. record {
      checks = rw written (
          All-update run_key IsWellFormed k f d.agent_runs (λ r found ok. (step r found ok).1)
            checks);
      row = updated_row checks;
    };
  }

-- One `INSERT` of a well-formed row.
pub inserted :
    (d e : Database) (new : AgentRun)
    → e.agent_runs ≡ d.agent_runs ++ new ∷ []
    → IsWellFormed new
    → RunsEvolve d e
inserted d e new h ok = record {
  evolve = λ checks. record {
    checks = rw h (All-append IsWellFormed d.agent_runs (new ∷ []) checks (ok, tt));
    row = λ k r found.
        (r, rw h (find-append_some run_key k d.agent_runs (new ∷ []) r found), Evolves-refl r);
  };
}
